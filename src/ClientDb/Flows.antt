-- ===== src/ClientDb/Flows.antt =====
-- The flow table of lib/src/pcp_client_db.c: an array of chains. A flow lives in a heap under its
-- address, and a chain is the list of the addresses that the `next` pointers link.
use emulebb_libpcpnatpmp.Base.{
  ℕ, ◌+◌, ◌-◌, Bool, false, ◌&&◌, List, [], ◌∷◌, ◌++◌, Option, none, some, pos, ◌==◌, if◌then◌else◌,
  set, replicate, get_or, map,
}
use mathlib.Core.Option
use emulebb_libpcpnatpmp.TimeVal.{zero_time}
use emulebb_libpcpnatpmp.Wire.{zero_in6}
use emulebb_libpcpnatpmp.Data.{
  PcpErrno, err_success, err_not_found, FlowKeyData, pfs_idle, Flow, Server,
}
use emulebb_libpcpnatpmp.ClientDb.Key.{compute_flow_key, flow_hash_size, key_equal}

abbrev pub Heap : Type 0
Heap = ℕ → Option Flow

abbrev pub update : Heap → ℕ → Option Flow → Heap
update h a f b = if a == b then f else h b

pub record FlowDb : Type 0 where
  pub heap : Heap
  pub next_address : ℕ
  pub flow_cnt : ℕ
  pub flows : List (List ℕ)

abbrev pub empty_db : FlowDb
empty_db = record {
  heap = λ a. none;
  next_address = 0;
  flow_cnt = 0;
  flows = replicate flow_hash_size [];
}

-- The chain that starts in a bucket.
abbrev pub chain_at : List (List ℕ) → ℕ → List ℕ
chain_at chains i = get_or chains i []

-- calloc, and the fields that pcp_create_flow fills.
abbrev pub fresh_flow : ℕ → Server → FlowKeyData → Flow
fresh_flow a s fkd = record {
  address = a;
  kd = fkd;
  key_bucket = none;
  lifetime = 0;
  ext_ip = zero_in6;
  ext_port = 0;
  recv_lifetime = pos 0;
  recv_result = 0;
  next_child = none;
  pcp_server_indx = s.index;
  state = pfs_idle;
  resend_timeout = 0;
  retry_count = 0;
  timeout = zero_time;
  pfailure_option_present = false;
  filter_option_present = false;
  filter_prefix = 0;
  filter_port = 0;
  filter_ip = zero_in6;
  third_party_option_present = false;
  third_party_ip = zero_in6;
  pcp_msg_len = 0;
  pcp_msg_buffer = none;
}

-- The allocation succeeds; an address is not used again.
unfoldable pub pcp_create_flow : Server → FlowKeyData → FlowDb → Flow × FlowDb
pcp_create_flow s fkd db =
    let f = fresh_flow db.next_address s fkd in
    (f, record db { heap = update db.heap f.address (some f); next_address = db.next_address + 1 })

-- A chain after `next = NULL` at a flow: what stood behind the flow is not on it any more.
unfoldable pub cut_after : ℕ → List ℕ → List ℕ
cut_after a [] = []
cut_after a (b ∷ chain) = b ∷ (let rest = cut_after a chain in if b == a then [] else rest)

-- The flow is linked at the end of the chain of its bucket, and its own link is cleared, also where
-- it is linked already.
unfoldable pub pcp_db_add_flow : Flow → FlowDb → FlowDb
unfolding cut_after
pcp_db_add_flow f db =
    let indx = compute_flow_key f.kd in
    record db {
      heap = update db.heap f.address (some (record f { key_bucket = some indx }));
      flows =
          map (cut_after f.address) (set db.flows indx (chain_at db.flows indx ++ f.address ∷ []));
      flow_cnt = db.flow_cnt + 1;
    }

-- The test of pcp_get_flow at one link.
abbrev pub matches_flow : FlowKeyData → ℕ → Option Flow → Bool
matches_flow fkd index none = false
matches_flow fkd index (some f) = f.pcp_server_indx == index && key_equal fkd f.kd

unfoldable pub is_match : Heap → FlowKeyData → ℕ → ℕ → Bool
is_match h fkd index a = matches_flow fkd index (h a)

unfoldable pub chain_find : Heap → FlowKeyData → ℕ → List ℕ → Option ℕ
chain_find h fkd index [] = none
chain_find h fkd index (a ∷ chain) =
    if is_match h fkd index a then some a else chain_find h fkd index chain

unfoldable pub pcp_get_flow : FlowKeyData → Server → FlowDb → Option ℕ
pcp_get_flow fkd s db = chain_find db.heap fkd s.index (chain_at db.flows (compute_flow_key fkd))

-- `*fdb = (*fdb)->next` at the flow's link, or none where the chain ends first.
unfoldable pub chain_remove : ℕ → List ℕ → Option (List ℕ)
chain_remove a [] = none
chain_remove a (b ∷ chain) =
    if b == a then some chain else Option.map (λ c. b ∷ c) (chain_remove a chain)

unfoldable pub pcp_db_rem_flow : Flow → FlowDb → PcpErrno × FlowDb
pcp_db_rem_flow f db = elim f.key_bucket [
  | none ↦ (err_not_found, db)
  | some i ↦ elim (chain_remove f.address (chain_at db.flows i)) [
    | none ↦ (err_not_found, db)
    | some chain ↦ (
      err_success,
      record db {
        heap = update db.heap f.address (some (record f { key_bucket = none }));
        flows = set db.flows i chain;
        flow_cnt = db.flow_cnt - 1;
      },
    )
  ]
]

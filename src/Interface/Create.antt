-- ===== src/Interface/Create.antt =====
-- pcp_new_flow of lib/src/pcp_api.c, with init_flow and chain_and_assign_src_ip. Memory is available,
-- so that every server is visited. What findsaddr and findsaddr6 write to the source address is a
-- parameter.
pub mod Steps
pub mod Safety
use emulebb_libpcpnatpmp.Base.{
  ℕ, zero, suc, ◌+◌, Bool, true, false, ◌&&◌, ◌||◌, not, Option, none, some, ◌==◌, length,
  if◌then◌else◌,
}
use emulebb_libpcpnatpmp.Wire.{In6Addr, zero_in6}
use emulebb_libpcpnatpmp.Data.{
  FlowKeyData, zero_key, Flow, pfs_send, pfs_wait_for_server_init, Server, ServerState, pss_wait_io,
  pss_not_working, opcode_map, opcode_peer,
}
use emulebb_libpcpnatpmp.ClientDb.Flows.{pcp_create_flow, pcp_db_add_flow}
use emulebb_libpcpnatpmp.ClientDb.Servers.{is_unitialized}
use emulebb_libpcpnatpmp.System.{
  Sys, Action, pure, fault, ◌>>=◌, ◌>>◌, gettimeofday, load, store, load_server, store_server,
}
use emulebb_libpcpnatpmp.Pulse.{is_addr_any, count_servers}
use emulebb_libpcpnatpmp.Interface.Address.{
  Sockaddr, inet, inet6, other_family, filled_ip, filled_port, filled_scope, same_family,
  have_same_af, usable_dst, wanted_ext,
}

unfoldable pub create : Server → FlowKeyData → Action ℕ
create s kd c = let (f, db) = pcp_create_flow s kd c.db in some (f.address, record c { db = db })

-- pcp_db_add_flow at a flow that is there.
unfoldable pub link : ℕ → Action (Unit {0})
link a c = elim (c.db.heap a) [
  | none ↦ none
  | some f ↦ some (tt, record c { db = pcp_db_add_flow f c.db })
]

abbrev pub is_wait_io : ServerState → Bool
is_wait_io pss_wait_io = true
is_wait_io _ = false

abbrev pub is_not_working : ServerState → Bool
is_not_working pss_not_working = true
is_not_working _ = false

abbrev pub is_mapping : FlowKeyData → Bool
is_mapping kd = kd.operation == opcode_map || kd.operation == opcode_peer

-- The assertion of the switch fails for an operation that has no external address.
unfoldable pub init_flow : ℕ → ℕ → ℕ → Sockaddr → Action (Unit {0})
unfolding link
init_flow a i lifetime ext = do
  f ← load a
  s ← load_server i
  (if is_mapping f.kd then pure tt else fault)
  now ← gettimeofday
  store a (record f {
    ext_ip = filled_ip ext f.ext_ip;
    ext_port = filled_port ext f.ext_port;
    lifetime = lifetime;
    timeout = now;
    state = if is_wait_io s.server_state then pfs_send else pfs_wait_for_server_init;
  })
  store_server i (record s { next_timeout = now })
  link a

-- The key with the server's own source address, where none is given.
abbrev pub assign_src_ip : FlowKeyData → Server → FlowKeyData
assign_src_ip kd s =
    if is_addr_any kd.src_ip then record kd { src_ip = s.src_ip; scope_id = s.pcp_scope_id } else kd

abbrev pub suits : FlowKeyData → Server → Bool
suits kd s = have_same_af kd.src_ip s.src_ip && kd.scope_id == s.pcp_scope_id

abbrev pub with_server : FlowKeyData → Server → FlowKeyData
with_server kd s = record kd { pcp_server_ip = s.pcp_ip; nonce = s.nonce }

-- fprev and ffirst of struct caasi_data.
pub record Chain : Type 0 where
  pub prev : Option ℕ
  pub first : Option ℕ

unfoldable pub set_child : Option ℕ → ℕ → Action (Unit {0})
set_child none a = pure tt
set_child (some p) a = do f ← load p; store p (record f { next_child = some a })

-- The flow becomes the first one, or the child of the one before it.
unfoldable pub chain_up : Chain → ℕ → Action Chain
unfolding set_child
chain_up d a = do
  set_child d.prev a
  pure (record { prev = some a; first = elim d.prev [ none ↦ some a | some _ ↦ d.first ] })

module _ (kd : FlowKeyData) (lifetime : ℕ) (ext : Sockaddr) where
  unfoldable pub chain_and_assign_src_ip : ℕ → Chain → Action Chain
  unfolding create init_flow chain_up
  chain_and_assign_src_ip i d = do
    s ← load_server i
    let key = assign_src_ip kd s
    if is_not_working s.server_state
        then pure d
        else if not (suits key s)
        then pure d
        else do a ← create s (with_server key s); init_flow a i lifetime ext; chain_up d a

  -- pcp_db_foreach_server from a server on.
  unfoldable pub chain_servers : ℕ → ℕ → Chain → Action Chain
  unfolding chain_and_assign_src_ip
  chain_servers zero i d = pure d
  chain_servers (suc n) i d = do
    s ← load_server i
    r ← if is_unitialized s.server_state then pure d else chain_and_assign_src_ip i d
    chain_servers n (i + 1) r

-- Nothing on the stack of pcp_new_flow points to a flow yet.
abbrev pub no_chain : Chain
no_chain = record { prev = none; first = none }

abbrev pub source_key : Sockaddr → ℕ → FlowKeyData
source_key src protocol = record zero_key {
  src_ip = filled_ip src zero_in6;
  src_port = filled_port src 0;
  scope_id = filled_scope src 0;
  protocol = protocol;
}

unfoldable pub make_flows : ℕ → Option FlowKeyData → Option Sockaddr → Action (Option ℕ)
unfolding chain_servers count_servers
make_flows lifetime none ext = pure none
make_flows lifetime (some kd) none = pure none
make_flows lifetime (some kd) (some ext) = do
  n ← count_servers
  d ← chain_servers kd lifetime ext n 0 no_chain
  pure d.first

module _ (findsaddr : Sockaddr → In6Addr → In6Addr)
    (findsaddr6 : Sockaddr → In6Addr × ℕ → In6Addr × ℕ) where
  -- The source of a PEER flow; none where the families differ.
  unfoldable pub peer_key : Sockaddr → Sockaddr → FlowKeyData → Option FlowKeyData
  peer_key (inet ip port) dst kd =
      some (if kd.src_ip.w3 == 0 then record kd { src_ip = findsaddr dst kd.src_ip } else kd)
  peer_key src dst kd =
      let (ip, scope) = findsaddr6 dst (kd.src_ip, kd.scope_id) in
      if is_addr_any kd.src_ip
      then some (record kd { src_ip = ip; scope_id = scope })
      else if same_family dst src
      then some kd
      else none

  unfoldable pub with_dst : Sockaddr → FlowKeyData → Option Sockaddr → Option FlowKeyData
  unfolding peer_key
  with_dst src kd none = some (record kd { operation = opcode_map })
  with_dst src kd (some to) = peer_key src to (record kd {
    dst_ip = filled_ip to zero_in6;
    dst_port = filled_port to 0;
    operation = opcode_peer;
  })

  -- The key of the flows, without what is taken from the server.
  unfoldable pub flow_key : Sockaddr → Option Sockaddr → ℕ → Option FlowKeyData
  unfolding with_dst
  flow_key src dst protocol = with_dst src (source_key src protocol) (usable_dst dst)

  -- The context is there; a null source gives no flow.
  unfoldable pub pcp_new_flow :
      Option Sockaddr → Option Sockaddr → Option Sockaddr → ℕ → ℕ → Action (Option ℕ)
  unfolding flow_key make_flows
  pcp_new_flow none dst ext protocol lifetime = pure none
  pcp_new_flow (some src) dst ext protocol lifetime =
      make_flows lifetime (flow_key src dst protocol) (wanted_ext src ext)

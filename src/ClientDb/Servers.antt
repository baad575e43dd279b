-- ===== src/ClientDb/Servers.antt =====
-- The array of servers in lib/src/pcp_client_db.c. A null pointer is the empty array. The index of a
-- server fits an int; what createNonce draws and the test IN6_IS_ADDR_LINKLOCAL are parameters.
use emulebb_libpcpnatpmp.Base.{
  ℕ, ◌+◌, Bool, true, false, ◌&&◌, not, List, [], ◌∷◌, ◌++◌, Option, none, some, pos, ◌==◌,
  if◌then◌else◌, length, get_elem?, set, get_or, replicate,
}
use emulebb_libpcpnatpmp.TimeVal.{zero_time}
use emulebb_libpcpnatpmp.Wire.{In6Addr, Nonce, zero_in6, zero_nonce}
use emulebb_libpcpnatpmp.Data.{
  Server, ServerState, pss_unitialized, pss_allocated, pcp_max_supported_version,
}
use emulebb_libpcpnatpmp.ClientDb.Key.{in6_beq}

abbrev pub is_unitialized : ServerState → Bool
is_unitialized pss_unitialized = true
is_unitialized _ = false

-- A record of zeros: pss_unitialized is 0.
abbrev pub zero_server : Server
zero_server = record {
  index = 0;
  pcp_ip = zero_in6;
  pcp_port = 0;
  pcp_scope_id = 0;
  src_ip = zero_in6;
  pcp_version = 0;
  next_version = 0;
  server_state = pss_unitialized;
  epoch = 0;
  cepoch = pos 0;
  nonce = zero_nonce;
  ping_flow_msg = none;
  restart_flow_msg = none;
  ping_count = 0;
  next_timeout = zero_time;
  natpmp_ext_addr = 0;
}

abbrev pub pcp_init_server_count : ℕ
pcp_init_server_count = 5

abbrev pub invalid_epoch : ℕ
invalid_epoch = 4294967295

-- The first unused record, counted from `i`.
unfoldable pub first_unused : List Server → ℕ → Option ℕ
first_unused [] i = none
first_unused (s ∷ ss) i = if is_unitialized s.server_state then some i else first_unused ss (i + 1)

-- The array once it has been allocated.
abbrev pub allocated : List Server → List Server
allocated [] = replicate pcp_init_server_count zero_server
allocated (s ∷ ss) = s ∷ ss

-- The array with an unused record at the index: the doubled one, if there was none.
unfoldable pub unused_slot : List Server → ℕ × List Server
unused_slot ss = elim (first_unused ss 0) [
  | some i ↦ (i, ss)
  | none ↦ (length ss, ss ++ replicate (length ss) zero_server)
]

module _ (is_linklocal : In6Addr → Bool) where
  abbrev pub scope_of : In6Addr → ℕ → ℕ
  scope_of ip scope_id = if is_linklocal ip then scope_id else 0

  abbrev pub set_up : In6Addr → ℕ → ℕ → Nonce → ℕ → Server → Server
  set_up ip port scope_id drawn i s = record s {
    epoch = invalid_epoch;
    pcp_ip = ip;
    pcp_port = port;
    pcp_scope_id = scope_of ip scope_id;
    server_state = pss_allocated;
    pcp_version = pcp_max_supported_version;
    nonce = drawn;
    index = i;
  }

  unfoldable pub pcp_new_server : In6Addr → ℕ → ℕ → Nonce → List Server → ℕ × List Server
  unfolding unused_slot first_unused
  pcp_new_server ip port scope_id drawn servers =
      let (i, ss) = unused_slot (allocated servers) in
      (i, set ss i (set_up ip port scope_id drawn i (get_or ss i zero_server)))

  -- pcp_db_foreach_server with find_ip: the first record in use with the address and the scope.
  unfoldable pub find_ip : In6Addr → ℕ → List Server → ℕ → Option ℕ
  find_ip ip scope_id [] i = none
  find_ip ip scope_id (s ∷ ss) i =
      if not (is_unitialized s.server_state) && in6_beq ip s.pcp_ip && scope_id == s.pcp_scope_id
      then some i
      else find_ip ip scope_id ss (i + 1)

  unfoldable pub get_pcp_server_by_ip : In6Addr → ℕ → List Server → Option ℕ
  unfolding find_ip
  get_pcp_server_by_ip ip scope_id ss = find_ip ip (scope_of ip scope_id) ss 0

-- The record at the index, if it is in use.
unfoldable pub get_pcp_server : List Server → ℕ → Option Server
get_pcp_server ss i = elim (get_elem? ss i) [
  | none ↦ none
  | some s ↦ if is_unitialized s.server_state then none else some s
]

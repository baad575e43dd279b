-- ===== src/Discovery.antt =====
-- Adding servers: lib/src/pcp_server_discovery.c, built without PCP_USE_IPV6_SOCKET, and
-- pcp_add_server and pcp_init of lib/src/pcp_api.c. What the system knows of its routes and
-- gateways is a parameter: the source address that findsaddr finds for a destination, or its
-- error, and the gateways that getgateways lists. Memory for the array of servers is available.
pub mod Lookup
pub mod Laws
pub mod Added
pub mod Adding
pub mod Gateways
pub mod Places
use emulebb_libpcpnatpmp.Base.{
  ℕ, ◌+◌, Bool, true, false, ◌&&◌, ◌||◌, List, [], ◌∷◌, Option, none, some, ℤ, pos, negsuc, ◌==◌,
  ◌==ℤ◌, if◌then◌else◌, ltb, set, get_or,
}
use emulebb_libpcpnatpmp.TimeVal.{zero_time}
use emulebb_libpcpnatpmp.Wire.{In6Addr, Nonce}
use emulebb_libpcpnatpmp.Data.{
  Server, pss_unitialized, pss_allocated, pss_ping, pcp_max_supported_version,
}
use emulebb_libpcpnatpmp.ServerMachine.Receive.{mapped_ip}
use emulebb_libpcpnatpmp.Pulse.{is_addr_any}
use emulebb_libpcpnatpmp.Interface.Address.{
  Sockaddr, filled_ip, filled_port, filled_scope, is_v4mapped,
}
use emulebb_libpcpnatpmp.ClientDb.Servers.{zero_server, pcp_new_server, get_pcp_server_by_ip}

abbrev pub pcp_server_port : ℕ
pcp_server_port = 5351

-- PCP_ERR_BAD_AFINET, PCP_ERR_UNSUP_VERSION and PCP_ERR_UNKNOWN
abbrev pub bad_afinet : ℤ
bad_afinet = negsuc 2

abbrev pub unsup_version : ℤ
unsup_version = negsuc 5

abbrev pub unknown : ℤ
unknown = negsuc 8

-- An address, a port and a scope.
pub record Endpoint : Type 0 where
  pub ip : In6Addr
  pub port : ℕ
  pub scope_id : ℕ

-- findsaddr: the last word of the source address for an IPv4 address and a port.
abbrev pub FindSource : Type 0
FindSource = ℕ → ℕ → Option ℕ

abbrev sourced : ℕ → Server → Server
sourced src s = record s {
  src_ip = mapped_ip src;
  server_state = pss_ping;
  next_timeout = zero_time;
}

-- The code returned, and the server. `s->af` is AF_INET for a server whose address is v4-mapped.
unfoldable pub psd_fill_pcp_server_src : FindSource → Server → ℤ × Server
psd_fill_pcp_server_src findsaddr s =
    if is_v4mapped s.pcp_ip
    then elim (findsaddr s.pcp_ip.w3 s.pcp_port) [
      | none ↦ (unknown, s)
      | some src ↦ (pos 0, sourced src s)
    ]
    else (bad_afinet, s)

-- The address asked for. A sockaddr of another family is read as a sockaddr_in6, and `raw` is
-- what is read.
unfoldable pub endpoint_of : Endpoint → Sockaddr → Endpoint
endpoint_of raw sa =
    let port = filled_port sa raw.port in
    record {
      ip = filled_ip sa raw.ip;
      port = if port == 0 then pcp_server_port else port;
      scope_id = filled_scope sa raw.scope_id;
    }

abbrev pub chosen_version : ℕ → Server → Server
chosen_version version s = record s { pcp_version = version; server_state = pss_allocated }

-- A server whose source address is not found is given up.
unfoldable pub finish_adding : ℕ → List Server → ℤ × Server → ℤ × List Server
finish_adding i ss (code, t) =
    if code ==ℤ pos 0
    then (pos t.index, set ss i t)
    else (unknown, set ss i (record t { server_state = pss_unitialized }))

module _ (is_linklocal : In6Addr → Bool) (findsaddr : FindSource) where
  -- A gateway that is no address, or a server's already, is passed over. The record of one whose
  -- source is not found stays allocated.
  unfoldable pub add_gateway : Endpoint → Nonce → List Server → List Server
  unfolding psd_fill_pcp_server_src
  add_gateway gw drawn ss =
      let (i, new) = pcp_new_server is_linklocal gw.ip pcp_server_port gw.scope_id drawn ss in
      if is_v4mapped gw.ip && gw.ip.w3 == 0 || is_addr_any gw.ip
      then ss
      else elim (get_pcp_server_by_ip is_linklocal gw.ip gw.scope_id ss) [
        | some _ ↦ ss
        | none ↦ set new i (psd_fill_pcp_server_src findsaddr (get_or new i zero_server)).1
      ]

  -- The gateways in turn; `drawn n` is what createNonce draws for the n-th.
  unfoldable pub psd_add_gws : List Endpoint → (ℕ → Nonce) → List Server → List Server
  unfolding add_gateway
  psd_add_gws [] drawn ss = ss
  psd_add_gws (gw ∷ gws) drawn ss =
      psd_add_gws gws (λ n. drawn (n + 1)) (add_gateway gw (drawn 0) ss)

  -- The end of psd_add_pcp_server, at the record of the server.
  unfoldable pub start_server : ℕ → ℕ → List Server → ℤ × List Server
  unfolding psd_fill_pcp_server_src finish_adding
  start_server version i ss =
      finish_adding i ss
        (psd_fill_pcp_server_src findsaddr (chosen_version version (get_or ss i zero_server)))

  unfoldable pub add_endpoint : Endpoint → ℕ → Nonce → List Server → ℤ × List Server
  unfolding start_server
  add_endpoint e version drawn ss =
      let (i, new) = pcp_new_server is_linklocal e.ip e.port e.scope_id drawn ss in
      elim (get_pcp_server_by_ip is_linklocal e.ip e.scope_id ss) [
        | none ↦ start_server version i new
        | some j ↦
            start_server version j
              (set ss j (record (get_or ss j zero_server) { pcp_port = e.port }))
      ]

  unfoldable pub psd_add_pcp_server :
      Endpoint → Sockaddr → ℕ → Nonce → List Server → ℤ × List Server
  unfolding add_endpoint endpoint_of
  psd_add_pcp_server raw sa version drawn ss = add_endpoint (endpoint_of raw sa) version drawn ss

  unfoldable pub pcp_add_server : Endpoint → Sockaddr → ℕ → Nonce → List Server → ℤ × List Server
  unfolding psd_add_pcp_server
  pcp_add_server raw sa version drawn ss =
      if ltb pcp_max_supported_version version
      then (unsup_version, ss)
      else psd_add_pcp_server raw sa version drawn ss

  -- The servers of a new context; none where there is no memory or no socket.
  unfoldable pub pcp_init : Bool → Bool → Bool → List Endpoint → (ℕ → Nonce) → Option (List Server)
  unfolding psd_add_gws
  pcp_init has_memory has_socket autodiscovery gws drawn =
      if has_memory && has_socket
      then some (if autodiscovery then psd_add_gws gws drawn [] else [])
      else none

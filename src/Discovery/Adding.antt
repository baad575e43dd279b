-- ===== src/Discovery/Adding.antt =====
-- pcp_add_server of lib/src/pcp_api.c, and what becomes of a server that cannot be reached.
use emulebb_libpcpnatpmp.Base.{
  ℕ, ◌<◌, ◌≤◌, ◌≡◌, refl, ap, ◌∙◌, arith, Bool, true, List, false, ◌==ℤ◌, none, some, ℤ, pos,
  length, set, get_elem?, get_elem?-set_self,
}
use emulebb_libpcpnatpmp.Wire.{In6Addr, Nonce}
use emulebb_libpcpnatpmp.Data.{Server, pss_unitialized}
use emulebb_libpcpnatpmp.Interface.Address.{Sockaddr, is_v4mapped}
use emulebb_libpcpnatpmp.ClientDb.Servers.{scope_of, get_pcp_server, find_ip, get_pcp_server_by_ip}
use emulebb_libpcpnatpmp.ClientDb.Allocation.{get_elem?-lt}
use emulebb_libpcpnatpmp.Discovery.{
  Endpoint, FindSource, endpoint_of, psd_fill_pcp_server_src, chosen_version, finish_adding,
  start_server, add_endpoint, psd_add_pcp_server, pcp_add_server, unknown,
}
use emulebb_libpcpnatpmp.Discovery.Lookup.{IsFound-ip, find_ip-IsFound}
use emulebb_libpcpnatpmp.Discovery.Laws.{
  Indexed, KeptBut, IsAdded, add_endpoint_again, start_server_at,
}
use emulebb_libpcpnatpmp.Discovery.Added.{add_endpoint-IsAdded}

module _ (is_linklocal : In6Addr → Bool) (findsaddr : FindSource) (raw : Endpoint) (sa : Sockaddr)
    (version : ℕ) (drawn : Nonce) (ss : List Server) where
  accepted :
      version ≤ 2
      → pcp_add_server is_linklocal findsaddr raw sa version drawn ss
        ≡ add_endpoint is_linklocal findsaddr (endpoint_of raw sa) version drawn ss
  unfolding pcp_add_server psd_add_pcp_server
  accepted le = ground arith

  -- A supported version, an IPv4 address to which there is a route, and an array in which the
  -- servers in use know their places: pcp_add_server returns the index of a server in use with
  -- the address, port and version asked for and the source of the route, about to be pinged at
  -- once, which a search by the address finds. The other servers in use are kept.
  pub pcp_add_server-IsAdded :
      (src : ℕ)
      → version ≤ 2
      → is_v4mapped (endpoint_of raw sa).ip ≡ true
      → findsaddr (endpoint_of raw sa).ip.w3 (endpoint_of raw sa).port ≡ some src
      → Indexed ss
      → let r = pcp_add_server is_linklocal findsaddr raw sa version drawn ss in
        (i : ℕ) × (r.0 ≡ pos i)
        × IsAdded is_linklocal (endpoint_of raw sa) version src i r.1
        × KeptBut i ss r.1
  pcp_add_server-IsAdded src le v4 route indexed = rw (accepted le) (
      add_endpoint-IsAdded is_linklocal findsaddr (endpoint_of raw sa) version src v4 route drawn ss
        indexed)

-- A record that is given up is not in use.
set_unitialized :
    (ss : List Server) (i : ℕ) (s : Server)
    → i < length ss
    → get_pcp_server (set ss i (record s { server_state = pss_unitialized })) i ≡ none
unfolding get_pcp_server
set_unitialized ss i s h =
    rw (get_pcp_server, get_elem?-set_self ss i (record s { server_state = pss_unitialized }) h)
      refl

given_up :
    (i : ℕ) (ss : List Server) (c : ℤ × Server)
    → (c.0 ==ℤ pos 0) ≡ false
    → i < length ss
    → ((finish_adding i ss c).0 ≡ unknown) × (get_pcp_server (finish_adding i ss c).1 i ≡ none)
unfolding finish_adding
given_up i ss (code, t) e h = rw e (refl, set_unitialized ss i t h)

not_filled :
    (findsaddr : FindSource) (s : Server)
    → findsaddr s.pcp_ip.w3 s.pcp_port ≡ none
    → ((psd_fill_pcp_server_src findsaddr s).0 ==ℤ pos 0) ≡ false
unfolding psd_fill_pcp_server_src
not_filled findsaddr s lost = ground (arith, lost)

-- The same, at a record of the array.
module _ (findsaddr : FindSource) (version i : ℕ) (ss : List Server) (s : Server)
    (at : get_elem? ss i ≡ some s) (lost : findsaddr s.pcp_ip.w3 s.pcp_port ≡ none) where
  start_server-lost :
      (is_linklocal : In6Addr → Bool)
      → ((start_server is_linklocal findsaddr version i ss).0 ≡ unknown)
        × (get_pcp_server (start_server is_linklocal findsaddr version i ss).1 i ≡ none)
  start_server-lost is_linklocal = rw (start_server_at is_linklocal findsaddr version i ss s at) (
      given_up i ss (psd_fill_pcp_server_src findsaddr (chosen_version version s))
        (not_filled findsaddr (chosen_version version s) lost) (get_elem?-lt ss i s at))

module _ (is_linklocal : In6Addr → Bool) (findsaddr : FindSource) (e : Endpoint) (version : ℕ)
    (drawn : Nonce) (ss : List Server) (i : ℕ)
    (first : find_ip is_linklocal e.ip (scope_of is_linklocal e.ip e.scope_id) ss 0 ≡ some i)
    (lost : findsaddr e.ip.w3 e.port ≡ none) where
  module _ (s : Server) (at : get_elem? ss i ≡ some s) (same : s.pcp_ip ≡ e.ip) where
    abbrev moved : Server
    moved = record s { pcp_port = e.port }

    lost_here :
        let r = add_endpoint is_linklocal findsaddr e version drawn ss in
        (r.0 ≡ unknown) × (get_pcp_server r.1 i ≡ none)
    lost_here = rw (add_endpoint_again is_linklocal findsaddr e version drawn ss i first s at) (
        start_server-lost findsaddr version i (set ss i moved) moved
          (get_elem?-set_self ss i moved (get_elem?-lt ss i s at))
          (ap (λ a. findsaddr a.w3 e.port) same ∙ lost) is_linklocal)

  add_endpoint-lost :
      let r = add_endpoint is_linklocal findsaddr e version drawn ss in
      (r.0 ≡ unknown) × (get_pcp_server r.1 i ≡ none)
  add_endpoint-lost =
      let scope = scope_of is_linklocal e.ip e.scope_id in
      let (k, s, at, there, found) = find_ip-IsFound is_linklocal e.ip scope ss 0 i first in
      let same : i ≡ k = omega (arith, at) in
      lost_here s (ap (get_elem? ss) same ∙ there) (IsFound-ip is_linklocal e.ip scope s found)

module _ (is_linklocal : In6Addr → Bool) (findsaddr : FindSource) (raw : Endpoint) (sa : Sockaddr)
    (version : ℕ) (drawn : Nonce) (ss : List Server) where
  -- A server that is in use already, and whose source address is not found any more, is released
  -- by adding it again: the call returns PCP_ERR_UNKNOWN, and the record at its index, which its
  -- flows still name, is not in use.
  pub psd_add_pcp_server-lost :
      (i : ℕ)
      → get_pcp_server_by_ip is_linklocal (endpoint_of raw sa).ip (endpoint_of raw sa).scope_id ss
        ≡ some i
      → findsaddr (endpoint_of raw sa).ip.w3 (endpoint_of raw sa).port ≡ none
      → let r = psd_add_pcp_server is_linklocal findsaddr raw sa version drawn ss in
        (r.0 ≡ unknown) × (get_pcp_server r.1 i ≡ none)
  unfolding psd_add_pcp_server get_pcp_server_by_ip
  psd_add_pcp_server-lost i first lost =
      add_endpoint-lost is_linklocal findsaddr (endpoint_of raw sa) version drawn ss i first lost

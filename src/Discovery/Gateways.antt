-- ===== src/Discovery/Gateways.antt =====
-- What psd_add_gws of lib/src/pcp_server_discovery.c leaves as it was.
use emulebb_libpcpnatpmp.Base.{
  ℕ, ◌+◌, ◌≡◌, inl, inr, ◌∙◌, Bool, ◌&&◌, ◌||◌, List, [], ◌∷◌, some, set, ◌==◌, Option-cases,
  Bool-cases,
}
use emulebb_libpcpnatpmp.Wire.{In6Addr, Nonce}
use emulebb_libpcpnatpmp.Data.{Server}
use emulebb_libpcpnatpmp.Pulse.{is_addr_any}
use emulebb_libpcpnatpmp.Interface.Address.{is_v4mapped}
use emulebb_libpcpnatpmp.ClientDb.Servers.{pcp_new_server, get_pcp_server, get_pcp_server_by_ip}
use emulebb_libpcpnatpmp.ClientDb.Allocation.{
  get_pcp_server_iff, get_elem?-set_other, pcp_new_server_lem,
}
use emulebb_libpcpnatpmp.Discovery.{Endpoint, FindSource, pcp_server_port, add_gateway, psd_add_gws}

-- Every server in use is where it was.
abbrev KeepsServers : List Server → List Server → Type 0
KeepsServers ss new =
    (j : ℕ) (t : Server) → get_pcp_server ss j ≡ some t → get_pcp_server new j ≡ some t

module _ (is_linklocal : In6Addr → Bool) (findsaddr : FindSource) where
  module _ (gw : Endpoint) (drawn : Nonce) (ss : List Server) where
    abbrev made : ℕ × List Server
    made = pcp_new_server is_linklocal gw.ip pcp_server_port gw.scope_id drawn ss

    with_gateway : (v : Server) → KeepsServers ss (set made.1 made.0 v)
    with_gateway v j t there =
        let (apart, kept) =
          (pcp_new_server_lem is_linklocal gw.ip pcp_server_port gw.scope_id drawn ss).1 j t
            there in
        let (at, used) = (get_pcp_server_iff made.1 j t).0 kept in
        (get_pcp_server_iff (set made.1 made.0 v) j t).1
          (get_elem?-set_other made.1 made.0 j v apart ∙ at, used)

    add_gateway-KeepsServers : KeepsServers ss (add_gateway is_linklocal findsaddr gw drawn ss)
    unfolding add_gateway
    add_gateway-KeepsServers j t there =
        elim (Bool-cases (is_v4mapped gw.ip && gw.ip.w3 == 0 || is_addr_any gw.ip)) [
          | inl no_address ↦ rw (add_gateway, no_address) there
          | inr address ↦
              elim (Option-cases (get_pcp_server_by_ip is_linklocal gw.ip gw.scope_id ss)) [
                | inl new ↦ rw (add_gateway, address, new) (with_gateway _ j t there)
                | inr (k, known) ↦ rw (add_gateway, address, known) there
              ]
        ]

  -- Discovering gateways changes no server that is in use, whatever gateways are listed.
  psd_add_gws-KeepsServers :
      (gws : List Endpoint) (drawn : ℕ → Nonce) (ss : List Server)
      → KeepsServers ss (psd_add_gws is_linklocal findsaddr gws drawn ss)
  unfolding psd_add_gws
  psd_add_gws-KeepsServers [] drawn ss j t there = there
  psd_add_gws-KeepsServers (gw ∷ gws) drawn ss j t there =
      psd_add_gws-KeepsServers gws (λ n. drawn (n + 1))
        (add_gateway is_linklocal findsaddr gw (drawn 0) ss) j t
        (add_gateway-KeepsServers gw (drawn 0) ss j t there)

-- ===== src/Discovery/Places.antt =====
-- Every server in use knows its place in the array, lib/src/pcp_server_discovery.c.
use emulebb_libpcpnatpmp.Base.{
  ℕ, zero, suc, ◌+◌, ◌≡◌, ◌≢◌, inl, inr, refl, sym, ap, ◌∙◌, arith, Bool, false, List, [], ◌∷◌,
  ◌++◌, Option, none, some, ℤ, pos, length, set, get_or, get_elem?, get_elem?-set_self,
  get_or-get_elem?, replicate, Option-cases, Bool-cases, ◌&&◌, ◌||◌, ◌==◌, ◌==ℤ◌,
}
use emulebb_libpcpnatpmp.Wire.{In6Addr, Nonce}
use emulebb_libpcpnatpmp.Data.{Server, pss_unitialized}
use emulebb_libpcpnatpmp.Pulse.{is_addr_any}
use emulebb_libpcpnatpmp.Interface.Address.{Sockaddr, is_v4mapped}
use emulebb_libpcpnatpmp.ClientDb.Servers.{
  is_unitialized, zero_server, scope_of, set_up, first_unused, allocated, unused_slot,
  pcp_new_server, get_pcp_server, find_ip, get_pcp_server_by_ip,
}
use emulebb_libpcpnatpmp.ClientDb.Allocation.{
  get_pcp_server_iff, unused_slot_lem, allocated_some, get_elem?-lt,
}
use emulebb_libpcpnatpmp.Interface.Delete.Freed.{get_set_cases}
use emulebb_libpcpnatpmp.Discovery.{
  Endpoint, FindSource, pcp_server_port, psd_fill_pcp_server_src, chosen_version, finish_adding,
  start_server, add_gateway, psd_add_gws, endpoint_of, add_endpoint, psd_add_pcp_server,
}
use emulebb_libpcpnatpmp.Discovery.Lookup.{find_ip-IsFound}
use emulebb_libpcpnatpmp.Discovery.Laws.{Indexed, add_endpoint_again, start_server_at}

set-Indexed :
    (ss : List Server) (i : ℕ) (s : Server) → Indexed ss → s.index ≡ i → Indexed (set ss i s)
set-Indexed ss i s ix e j t there =
    let (at, used) = (get_pcp_server_iff (set ss i s) j t).0 there in
    elim (get_set_cases ss i j s t at) [
      | inl (p, q) ↦ ap (λ x. x.index) (sym q) ∙ e ∙ p
      | inr (n, q) ↦ ix j t ((get_pcp_server_iff ss j t).1 (q, used))
    ]

-- A record of zeros is not in use.
replicate-unused : (k j : ℕ) (t : Server) → get_pcp_server (replicate k zero_server) j ≢ some t
unfolding get_pcp_server
replicate-unused zero j t e = ground arith
replicate-unused (suc k) zero t e = ground arith
replicate-unused (suc k) (suc j) t e = replicate-unused k j t e

append-used :
    (ss : List Server) (k j : ℕ) (t : Server)
    → get_pcp_server (ss ++ replicate k zero_server) j ≡ some t
    → get_pcp_server ss j ≡ some t
unfolding get_pcp_server
append-used [] k j t e = absurd (replicate-unused k j t e)
append-used (s ∷ ss) k zero t e = e
append-used (s ∷ ss) k (suc j) t e = append-used ss k j t e

allocated-Indexed : (ss : List Server) → Indexed ss → Indexed (allocated ss)
allocated-Indexed [] ix = λ j t e. absurd (replicate-unused 5 j t e)
allocated-Indexed (s ∷ ss) ix = ix

unused_slot-Indexed : (ss : List Server) → Indexed ss → Indexed (unused_slot ss).1
unfolding unused_slot
unused_slot-Indexed ss ix = elim (Option-cases (first_unused ss 0)) [
  | inl n ↦ rw (n, unused_slot) (λ j t e. ix j t (append-used ss (length ss) j t e))
  | inr (i, n) ↦ rw (n, unused_slot) ix
]

filled-index :
    (findsaddr : FindSource) (s : Server) → (psd_fill_pcp_server_src findsaddr s).1.index ≡ s.index
unfolding psd_fill_pcp_server_src
filled-index findsaddr s = ground arith

finish_adding-Indexed :
    (i : ℕ) (ss : List Server) (c : ℤ × Server)
    → Indexed ss
    → c.1.index ≡ i
    → Indexed (finish_adding i ss c).1
unfolding finish_adding
finish_adding-Indexed i ss (code, t) ix e = elim (Bool-cases (code ==ℤ pos 0)) [
  | inl b ↦ rw b (set-Indexed ss i t ix e)
  | inr b ↦ rw b (set-Indexed ss i (record t { server_state = pss_unitialized }) ix e)
]

start_server-Indexed :
    (is_linklocal : In6Addr → Bool) (findsaddr : FindSource) (version i : ℕ) (ss : List Server)
    (s : Server)
    → get_elem? ss i ≡ some s
    → s.index ≡ i
    → Indexed ss
    → Indexed (start_server is_linklocal findsaddr version i ss).1
start_server-Indexed is_linklocal findsaddr version i ss s at e ix =
    rw (start_server_at is_linklocal findsaddr version i ss s at) (
      finish_adding-Indexed i ss (psd_fill_pcp_server_src findsaddr (chosen_version version s)) ix
        (filled-index findsaddr (chosen_version version s) ∙ e))

module _ (is_linklocal : In6Addr → Bool) (findsaddr : FindSource) where
  module _ (e : Endpoint) (port : ℕ) (drawn : Nonce) (ss : List Server) (ix : Indexed ss) where
    abbrev slot : ℕ × List Server
    slot = unused_slot (allocated ss)

    abbrev new : Server
    new = set_up is_linklocal e.ip port e.scope_id drawn slot.0 (get_or slot.1 slot.0 zero_server)

    abbrev filled_array : List Server
    filled_array = set slot.1 slot.0 new

    new-there : get_elem? filled_array slot.0 ≡ some new
    new-there =
        get_elem?-set_self slot.1 slot.0 new (unused_slot_lem (allocated ss) (allocated_some ss)).0

    new-Indexed : Indexed filled_array
    new-Indexed =
        set-Indexed slot.1 slot.0 new (unused_slot-Indexed (allocated ss) (allocated-Indexed ss ix))
          refl

  module _ (e : Endpoint) (version : ℕ) (drawn : Nonce) (ss : List Server) (ix : Indexed ss) where
    abbrev found : Option ℕ
    found = find_ip is_linklocal e.ip (scope_of is_linklocal e.ip e.scope_id) ss 0

    added_new :
        found ≡ none
        → add_endpoint is_linklocal findsaddr e version drawn ss
          ≡ start_server is_linklocal findsaddr version
              (slot e e.port drawn ss ix).0
              (filled_array e e.port drawn ss ix)
    unfolding add_endpoint get_pcp_server_by_ip pcp_new_server
    added_new none_yet = rw (add_endpoint, none_yet) refl

    again-Indexed :
        (i : ℕ) (s : Server)
        → found ≡ some i
        → get_elem? ss i ≡ some s
        → is_unitialized s.server_state ≡ false
        → Indexed (add_endpoint is_linklocal findsaddr e version drawn ss).1
    again-Indexed i s first at used =
        let moved : Server = record s { pcp_port = e.port } in
        let own : s.index ≡ i = ix i s ((get_pcp_server_iff ss i s).1 (at, used)) in
        rw (add_endpoint_again is_linklocal findsaddr e version drawn ss i first s at) (
          start_server-Indexed is_linklocal findsaddr version i (set ss i moved) moved
            (get_elem?-set_self ss i moved (get_elem?-lt ss i s at)) own
            (set-Indexed ss i moved ix own))

    add_endpoint-Indexed : Indexed (add_endpoint is_linklocal findsaddr e version drawn ss).1
    add_endpoint-Indexed = elim (Option-cases found) [
      | inl none_yet ↦ rw (added_new none_yet) (
          start_server-Indexed is_linklocal findsaddr version (slot e e.port drawn ss ix).0
            (filled_array e e.port drawn ss ix) (new e e.port drawn ss ix)
            (new-there e e.port drawn ss ix) refl (new-Indexed e e.port drawn ss ix))
      | inr (j, first) ↦
          let (i, s, at, there, match) =
            find_ip-IsFound is_linklocal e.ip (scope_of is_linklocal e.ip e.scope_id) ss 0 j
              first in
          again-Indexed i s (first ∙ ap some (omega (arith, at))) there match.used
    ]

  module _ (gw : Endpoint) (drawn : Nonce) (ss : List Server) (ix : Indexed ss) where
    abbrev place : ℕ
    place = (slot gw pcp_server_port drawn ss ix).0

    abbrev with_gw : List Server
    with_gw = filled_array gw pcp_server_port drawn ss ix

    gateway-Indexed :
        Indexed (
          set with_gw place
            (psd_fill_pcp_server_src findsaddr (get_or with_gw place zero_server)).1)
    gateway-Indexed =
        let made : get_or with_gw place zero_server ≡ new gw pcp_server_port drawn ss ix =
          get_or-get_elem? with_gw place (new gw pcp_server_port drawn ss ix) zero_server
            (new-there gw pcp_server_port drawn ss ix) in
        set-Indexed with_gw place _ (new-Indexed gw pcp_server_port drawn ss ix)
          (filled-index findsaddr (get_or with_gw place zero_server) ∙ ap (λ x. x.index) made)

    add_gateway-Indexed : Indexed (add_gateway is_linklocal findsaddr gw drawn ss)
    unfolding add_gateway pcp_new_server
    add_gateway-Indexed =
        elim (Bool-cases (is_v4mapped gw.ip && gw.ip.w3 == 0 || is_addr_any gw.ip)) [
          | inl no_address ↦ rw (add_gateway, no_address) ix
          | inr address ↦
              elim (Option-cases (get_pcp_server_by_ip is_linklocal gw.ip gw.scope_id ss)) [
                | inl none_yet ↦ rw (add_gateway, address, none_yet) gateway-Indexed
                | inr (k, known) ↦ rw (add_gateway, address, known) ix
              ]
        ]

  psd_add_gws-Indexed :
      (gws : List Endpoint) (drawn : ℕ → Nonce) (ss : List Server)
      → Indexed ss
      → Indexed (psd_add_gws is_linklocal findsaddr gws drawn ss)
  unfolding psd_add_gws
  psd_add_gws-Indexed [] drawn ss ix = ix
  psd_add_gws-Indexed (gw ∷ gws) drawn ss ix =
      psd_add_gws-Indexed gws (λ n. drawn (n + 1))
        (add_gateway is_linklocal findsaddr gw (drawn 0) ss)
        (add_gateway-Indexed gw (drawn 0) ss ix)

module _ (is_linklocal : In6Addr → Bool) where
  -- The arrays that come about from the empty one by discovery and by adding servers, whether or
  -- not a source is found for them, on routes that change.
  pub data Reached : List Server → Type 0 where
    at_first : Reached []
    discovered :
        (findsaddr : FindSource) (gws : List Endpoint) (drawn : ℕ → Nonce) (ss : List Server)
        → Reached ss
        → Reached (psd_add_gws is_linklocal findsaddr gws drawn ss)
    asked_for :
        (findsaddr : FindSource) (raw : Endpoint) (sa : Sockaddr) (version : ℕ) (drawn : Nonce)
        (ss : List Server)
        → Reached ss
        → Reached (psd_add_pcp_server is_linklocal findsaddr raw sa version drawn ss).1

  -- In every array that comes about by discovering gateways and adding servers, in any order and
  -- whatever routes there are at each time, a server in use knows its place.
  pub Reached-Indexed : (ss : List Server) → Reached ss → Indexed ss
  unfolding psd_add_pcp_server
  Reached-Indexed _ at_first = λ j t e. absurd (replicate-unused 0 j t e)
  Reached-Indexed _ (discovered findsaddr gws drawn ss r) =
      psd_add_gws-Indexed is_linklocal findsaddr gws drawn ss (Reached-Indexed ss r)
  Reached-Indexed _ (asked_for findsaddr raw sa version drawn ss r) =
      add_endpoint-Indexed is_linklocal findsaddr (endpoint_of raw sa) version drawn ss
        (Reached-Indexed ss r)

-- ===== src/Discovery/Added.antt =====
-- A server that is asked for is added to the array, lib/src/pcp_server_discovery.c.
use emulebb_libpcpnatpmp.Base.{
  ℕ, ◌<◌, ◌≡◌, ◌≢◌, inl, inr, refl, ap, ◌∙◌, arith, Bool, true, List, none, some, ℤ, pos, length,
  set, get_or, get_elem?, get_elem?-set_self, Option-cases,
}
use emulebb_libpcpnatpmp.Wire.{In6Addr, Nonce}
use emulebb_libpcpnatpmp.Data.{Server}
use emulebb_libpcpnatpmp.Interface.Address.{is_v4mapped}
use emulebb_libpcpnatpmp.ClientDb.Servers.{
  zero_server, scope_of, set_up, pcp_new_server, find_ip, get_pcp_server_by_ip, unused_slot,
  allocated,
}
use emulebb_libpcpnatpmp.ClientDb.Allocation.{
  InUse, get_pcp_server_iff, get_elem?-set_other, get_elem?-lt, pcp_new_server_lem, unused_slot_lem,
  allocated_some,
}
use emulebb_libpcpnatpmp.Discovery.{Endpoint, FindSource, start_server, add_endpoint}
use emulebb_libpcpnatpmp.Discovery.Lookup.{
  IsFound, IsFound-ip, find_ip-set_first, find_ip-IsFound, unused_slot-allocated,
}
use emulebb_libpcpnatpmp.Discovery.Laws.{
  Indexed, KeptBut, IsAdded, IsReady, in6_beq_refl, start_server_lem, start_server-IsAdded,
  start_server-KeptBut, add_endpoint_again,
}

module _ (is_linklocal : In6Addr → Bool) (findsaddr : FindSource) (e : Endpoint) (version src : ℕ)
    (v4 : is_v4mapped e.ip ≡ true) (route : findsaddr e.ip.w3 e.port ≡ some src) (drawn : Nonce)
    (ss : List Server) (indexed : Indexed ss) where
  abbrev scope : ℕ
  scope = scope_of is_linklocal e.ip e.scope_id

  abbrev slot : ℕ × List Server
  slot = unused_slot (allocated ss)

  abbrev new : Server
  new = set_up is_linklocal e.ip e.port e.scope_id drawn slot.0 (get_or slot.1 slot.0 zero_server)

  slot_lem :
      (slot.0 < length slot.1)
      × ((j : ℕ) (s : Server) → InUse (allocated ss) j s → (slot.0 ≢ j) × InUse slot.1 j s)
  slot_lem = unused_slot_lem (allocated ss) (allocated_some ss)

  new-IsFound : IsFound is_linklocal e.ip scope new
  new-IsFound = record { used = refl; ip_equal = in6_beq_refl e.ip; scope_equal = ground arith }

  -- A new record is ready.
  new-IsReady :
      find_ip is_linklocal e.ip scope ss 0 ≡ none
      → IsReady is_linklocal e version src slot.0 (set slot.1 slot.0 new) new
  new-IsReady none_yet = record {
    at = get_elem?-set_self slot.1 slot.0 new slot_lem.0;
    ip = refl;
    port = refl;
    scope = refl;
    index = refl;
    alone = inr (
        find_ip-set_first is_linklocal e.ip scope slot.1 slot.0 new
          (inl (unused_slot-allocated is_linklocal e.ip scope ss none_yet)) slot_lem.0 new-IsFound);
  }

  -- The code is the index of the server that is added, and the others stay.
  abbrev pub AddedTo : ℤ × List Server → Type 0
  AddedTo r = (i : ℕ) × (r.0 ≡ pos i) × IsAdded is_linklocal e version src i r.1 × KeptBut i ss r.1

  started_at :
      (i : ℕ) (now : List Server) (s : Server)
      → IsReady is_linklocal e version src i now s
      → KeptBut i ss now
      → AddedTo (start_server is_linklocal findsaddr version i now)
  started_at i now s ready kept = (
    i,
    ap (λ r. r.0) (start_server_lem is_linklocal findsaddr e version src v4 route i now s ready),
    start_server-IsAdded is_linklocal findsaddr e version src v4 route i now s ready,
    λ j t apart there.
        start_server-KeptBut is_linklocal findsaddr e version src v4 route i now s ready j t apart
          (kept j t apart there),
  )

  added_new :
      find_ip is_linklocal e.ip scope ss 0 ≡ none
      → AddedTo (start_server is_linklocal findsaddr version slot.0 (set slot.1 slot.0 new))
  unfolding pcp_new_server
  added_new none_yet =
      started_at slot.0 (set slot.1 slot.0 new) new (new-IsReady none_yet) (λ j t apart there.
        ((pcp_new_server_lem is_linklocal e.ip e.port e.scope_id drawn ss).1 j t there).1)

  module _ (i : ℕ) (s : Server) (at : get_elem? ss i ≡ some s)
      (found : IsFound is_linklocal e.ip scope s)
      (first : find_ip is_linklocal e.ip scope ss 0 ≡ some i) where
    abbrev moved : Server
    moved = record s { pcp_port = e.port }

    moved-IsReady : IsReady is_linklocal e version src i (set ss i moved) moved
    moved-IsReady = record {
      at = get_elem?-set_self ss i moved (get_elem?-lt ss i s at);
      ip = IsFound-ip is_linklocal e.ip scope s found;
      port = refl;
      scope = ground (arith, found.scope_equal);
      index = indexed i s ((get_pcp_server_iff ss i s).1 (at, found.used));
      alone = inr (
          find_ip-set_first is_linklocal e.ip scope ss i moved (inr first) (get_elem?-lt ss i s at)
            (record {
              used = found.used;
              ip_equal = found.ip_equal;
              scope_equal = found.scope_equal;
            }));
    }

    added_again : AddedTo (start_server is_linklocal findsaddr version i (set ss i moved))
    added_again = started_at i (set ss i moved) moved moved-IsReady (λ j t apart there.
        let (here, used) = (get_pcp_server_iff ss j t).0 there in
        (get_pcp_server_iff (set ss i moved) j t).1
          (get_elem?-set_other ss i j moved apart ∙ here, used))

  abbrev asked : ℤ × List Server
  asked = add_endpoint is_linklocal findsaddr e version drawn ss

  asked-new :
      find_ip is_linklocal e.ip scope ss 0 ≡ none
      → asked ≡ start_server is_linklocal findsaddr version slot.0 (set slot.1 slot.0 new)
  unfolding add_endpoint get_pcp_server_by_ip pcp_new_server
  asked-new none_yet = rw (add_endpoint, none_yet) refl

  pub add_endpoint-IsAdded : AddedTo asked
  add_endpoint-IsAdded = elim (Option-cases (find_ip is_linklocal e.ip scope ss 0)) [
    | inl none_yet ↦ rw (asked-new none_yet) (added_new none_yet)
    | inr (j, first) ↦
        let (i, s, at, there, found) = find_ip-IsFound is_linklocal e.ip scope ss 0 j first in
        let here : find_ip is_linklocal e.ip scope ss 0 ≡ some i =
          first ∙ ap some (omega (arith, at)) in
        rw (add_endpoint_again is_linklocal findsaddr e version drawn ss i here s there)
          (added_again i s there found here)
  ]

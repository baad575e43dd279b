-- ===== src/Discovery/Lookup.antt =====
-- The search for a server by its address, lib/src/pcp_client_db.c, in an array that changes.
use emulebb_libpcpnatpmp.Base.{
  ℕ, zero, suc, ◌+◌, ◌<◌, ◌≡◌, ◌⊎◌, inl, inr, refl, ap, ◌∙◌, arith, Bool, true, false, List, [],
  ◌∷◌, ◌++◌, none, some, length, set, replicate, ◌==◌, ◌&&◌, not, get_elem?, Option-cases,
  Bool-cases,
}
use emulebb_libpcpnatpmp.Wire.{In6Addr}
use emulebb_libpcpnatpmp.Data.{Server}
use emulebb_libpcpnatpmp.ClientDb.Key.{in6_beq}
use emulebb_libpcpnatpmp.ClientDb.Servers.{
  is_unitialized, zero_server, find_ip, unused_slot, allocated, first_unused,
}

module _ (is_linklocal : In6Addr → Bool) (ip : In6Addr) (scope_id : ℕ) where
  -- The record that the search stops at.
  pub record IsFound (s : Server) : Type 0 where
    pub used : is_unitialized s.server_state ≡ false
    pub ip_equal : in6_beq ip s.pcp_ip ≡ true
    pub scope_equal : (scope_id == s.pcp_scope_id) ≡ true

  pub IsFound-ip : (s : Server) → IsFound s → s.pcp_ip ≡ ip
  IsFound-ip s h = ground (arith, h.ip_equal)

  find_ip-set :
      (ss : List Server) (n i : ℕ) (s : Server)
      → (find_ip is_linklocal ip scope_id ss n ≡ none)
        ⊎ (find_ip is_linklocal ip scope_id ss n ≡ some (n + i))
      → i < length ss
      → IsFound s
      → find_ip is_linklocal ip scope_id (set ss i s) n ≡ some (n + i)
  unfolding find_ip
  find_ip-set [] n i s e h k = absurd (omega arith)
  find_ip-set (x ∷ ss) n zero s e h k = ground (arith, k.used, k.ip_equal, k.scope_equal)
  find_ip-set (x ∷ ss) n (suc i) s e h k = ground (arith, find_ip-set ss (n + 1) i s, k)

  pub find_ip-set_first :
      (ss : List Server) (i : ℕ) (s : Server)
      → (find_ip is_linklocal ip scope_id ss 0 ≡ none)
        ⊎ (find_ip is_linklocal ip scope_id ss 0 ≡ some i)
      → i < length ss
      → IsFound s
      → find_ip is_linklocal ip scope_id (set ss i s) 0 ≡ some i
  find_ip-set_first ss i s e h k =
      let z : 0 + i ≡ i = omega arith in find_ip-set ss 0 i s (rw z e) h k ∙ ap some z

  find_ip-replicate :
      (k n : ℕ) → find_ip is_linklocal ip scope_id (replicate k zero_server) n ≡ none
  unfolding find_ip
  find_ip-replicate zero n = refl
  find_ip-replicate (suc k) n = find_ip-replicate k (n + 1)

  find_ip-append :
      (ss : List Server) (k n : ℕ)
      → find_ip is_linklocal ip scope_id ss n ≡ none
      → find_ip is_linklocal ip scope_id (ss ++ replicate k zero_server) n ≡ none
  unfolding find_ip
  find_ip-append [] k n e = find_ip-replicate k n
  find_ip-append (x ∷ ss) k n e = ground (arith, find_ip-append ss k (n + 1))

  find_ip-unused_slot :
      (ss : List Server)
      → find_ip is_linklocal ip scope_id ss 0 ≡ none
      → find_ip is_linklocal ip scope_id (unused_slot ss).1 0 ≡ none
  unfolding unused_slot
  find_ip-unused_slot ss e = elim (Option-cases (first_unused ss 0)) [
    | inl none_free ↦ rw (none_free, unused_slot) (find_ip-append ss (length ss) 0 e)
    | inr (i, free) ↦ rw (free, unused_slot) e
  ]

  find_ip-allocated :
      (ss : List Server)
      → find_ip is_linklocal ip scope_id ss 0 ≡ none
      → find_ip is_linklocal ip scope_id (allocated ss) 0 ≡ none
  find_ip-allocated [] e = find_ip-replicate 5 0
  find_ip-allocated (x ∷ ss) e = e

  -- The array with a record made ready for a new server has no match either.
  pub unused_slot-allocated :
      (ss : List Server)
      → find_ip is_linklocal ip scope_id ss 0 ≡ none
      → find_ip is_linklocal ip scope_id (unused_slot (allocated ss)).1 0 ≡ none
  unused_slot-allocated ss e = find_ip-unused_slot (allocated ss) (find_ip-allocated ss e)

  abbrev stops_at : Server → Bool
  stops_at s =
      not (is_unitialized s.server_state) && in6_beq ip s.pcp_ip && scope_id == s.pcp_scope_id

  stops_at-IsFound : (s : Server) → stops_at s ≡ true → IsFound s
  stops_at-IsFound s e = record {
    used = ground arith;
    ip_equal = ground arith;
    scope_equal = ground arith;
  }

  -- Where the search ends, a match stands.
  pub find_ip-IsFound :
      (ss : List Server) (n j : ℕ)
      → find_ip is_linklocal ip scope_id ss n ≡ some j
      → (i : ℕ) × (s : Server) × (j ≡ n + i) × (get_elem? ss i ≡ some s) × IsFound s
  unfolding find_ip
  find_ip-IsFound [] n j e = absurd (ground arith)
  find_ip-IsFound (x ∷ ss) n j e = elim (Bool-cases (stops_at x)) [
    | inl m ↦ (0, x, ground (arith, m), refl, stops_at-IsFound x m)
    | inr m ↦
        let (i, s, at, there, found) = find_ip-IsFound ss (n + 1) j (ground (arith, m)) in
        (suc i, s, omega (arith, at), there, found)
  ]

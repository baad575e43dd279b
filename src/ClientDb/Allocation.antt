-- ===== src/ClientDb/Allocation.antt =====
-- What pcp_new_server of lib/src/pcp_client_db.c promises of the server array.
use emulebb_libpcpnatpmp.Base.{
  ℕ, zero, suc, ◌+◌, ◌<◌, ◌≤◌, ◌≡◌, ◌≢◌, ◌↔◌, refl, ap, ◌∙◌, arith, Bool, false, List, [], ◌∷◌,
  ◌++◌, some, Option-cases, inl, inr, length, get_elem?, set, get_or, replicate, length-append,
  length-replicate, get_elem?-set_self,
}
use emulebb_libpcpnatpmp.Wire.{In6Addr, Nonce}
use emulebb_libpcpnatpmp.Data.{Server}
use emulebb_libpcpnatpmp.ClientDb.Servers.{
  is_unitialized, zero_server, first_unused, allocated, unused_slot, set_up, pcp_new_server,
  get_pcp_server,
}

abbrev pub InUse : List Server → ℕ → Server → Type 0
InUse ss i s = (get_elem? ss i ≡ some s) × (is_unitialized s.server_state ≡ false)

pub get_pcp_server_iff :
    (ss : List Server) (i : ℕ) (s : Server) → (get_pcp_server ss i ≡ some s) ↔ InUse ss i s
unfolding get_pcp_server
get_pcp_server_iff ss i s = ground arith

first_unused_bounds :
    (ss : List Server) (n i : ℕ) → first_unused ss n ≡ some i → (n ≤ i) × (i < n + length ss)
unfolding first_unused
first_unused_bounds [] n i e = absurd (ground arith)
first_unused_bounds (x ∷ ss) n i e = ground (arith, first_unused_bounds ss (n + 1) i)

first_unused_free :
    (ss : List Server) (n j : ℕ) (s : Server) → InUse ss j s → first_unused ss n ≢ some (n + j)
unfolding first_unused
first_unused_free [] n j s u e = absurd (ground arith)
first_unused_free (x ∷ ss) n zero s u e = ground (arith, first_unused_bounds ss (n + 1) (n + zero))
first_unused_free (x ∷ ss) n (suc j) s u e = ground (arith, first_unused_free ss (n + 1) j s)

get_elem?-append :
    (ss ts : List Server) (i : ℕ) (s : Server)
    → get_elem? ss i ≡ some s
    → get_elem? (ss ++ ts) i ≡ some s
get_elem?-append [] ts i s e = absurd (ground arith)
get_elem?-append (x ∷ ss) ts zero s e = e
get_elem?-append (x ∷ ss) ts (suc i) s e = get_elem?-append ss ts i s e

pub get_elem?-lt : (ss : List Server) (i : ℕ) (s : Server) → get_elem? ss i ≡ some s → i < length ss
get_elem?-lt [] i s e = absurd (ground arith)
get_elem?-lt (x ∷ ss) zero s e = omega arith
get_elem?-lt (x ∷ ss) (suc i) s e = omega (arith, get_elem?-lt ss i s e)

pub get_elem?-set_other :
    (ss : List Server) (i j : ℕ) (v : Server) → i ≢ j → get_elem? (set ss i v) j ≡ get_elem? ss j
get_elem?-set_other [] i j v n = refl
get_elem?-set_other (x ∷ ss) zero zero v n = absurd (n refl)
get_elem?-set_other (x ∷ ss) zero (suc j) v n = refl
get_elem?-set_other (x ∷ ss) (suc i) zero v n = refl
get_elem?-set_other (x ∷ ss) (suc i) (suc j) v n = get_elem?-set_other ss i j v (λ e. n (ap suc e))

pub allocated-InUse :
    (ss : List Server) (j : ℕ) (s : Server) → InUse ss j s → InUse (allocated ss) j s
allocated-InUse [] j s u = absurd (ground arith)
allocated-InUse (x ∷ ss) j s u = u

pub allocated_some : (ss : List Server) → 0 < length (allocated ss)
allocated_some [] = omega arith
allocated_some (x ∷ ss) = omega arith

-- The slot lies in the array and is not in use, and the records in use are where they were.
pub unused_slot_lem :
    (ss : List Server)
    → 0 < length ss
    → ((unused_slot ss).0 < length (unused_slot ss).1)
      × ((j : ℕ) (s : Server)
          → InUse ss j s
          → ((unused_slot ss).0 ≢ j) × InUse (unused_slot ss).1 j s)
unfolding unused_slot
unused_slot_lem ss h = elim (Option-cases (first_unused ss 0)) [
  | inl e ↦
      rw (e, unused_slot)
        (
          omega (
            arith,
            length-append ss (replicate (length ss) zero_server),
            length-replicate (length ss) zero_server,
          ),
          λ j s u. (
            omega (arith, get_elem?-lt ss j s u.0),
            (get_elem?-append ss (replicate (length ss) zero_server) j s u.0, u.1),
          ),
        )
  | inr (i, e) ↦
      rw (e, unused_slot)
        (
          omega (arith, first_unused_bounds ss 0 i e),
          λ j s u. (
            λ q. let r : i ≡ 0 + j = omega arith in first_unused_free ss 0 j s u (e ∙ ap some r),
            u,
          ),
        )
]

module _ (is_linklocal : In6Addr → Bool) (ip : In6Addr) (port scope_id : ℕ) (drawn : Nonce)
    (servers : List Server) where
  -- pcp_new_server returns the index of a record in use that is filled as asked, with the supported
  -- version and no epoch yet, in an array where every server that was in use is still at its index,
  -- which is another one.
  pub pcp_new_server_lem :
      let (i, ss) = pcp_new_server is_linklocal ip port scope_id drawn servers in
      ((s : Server) × (get_pcp_server ss i ≡ some (set_up is_linklocal ip port scope_id drawn i s)))
      × ((j : ℕ) (t : Server)
          → get_pcp_server servers j ≡ some t
          → (i ≢ j) × (get_pcp_server ss j ≡ some t))
  unfolding pcp_new_server
  pcp_new_server_lem =
      let slot = unused_slot (allocated servers) in
      let (lt, kept) = unused_slot_lem (allocated servers) (allocated_some servers) in
      let old = get_or slot.1 slot.0 zero_server in
      let new = set_up is_linklocal ip port scope_id drawn slot.0 old in
      (
        (old, (get_pcp_server_iff _ slot.0 new).1 (get_elem?-set_self slot.1 slot.0 new lt, refl)),
        λ j t e.
            let (other, (there, used)) =
              kept j t (allocated-InUse servers j t ((get_pcp_server_iff servers j t).0 e)) in
            (
              other,
              (get_pcp_server_iff _ j t).1
                  (get_elem?-set_other slot.1 slot.0 j new other ∙ there, used),
            ),
      )

-- ===== src/ClientDb/Removal.antt =====
-- Unlinking a flow: pcp_db_rem_flow of lib/src/pcp_client_db.c.
use emulebb_libpcpnatpmp.Base.{
  ℕ, zero, suc, ◌+◌, ◌-◌, ◌<◌, ◌≡◌, ◌≢◌, refl, sym, ap, ◌∙◌, arith, List, [], ◌∷◌, none, some, ◌==◌,
  ==_iff, if◌then◌else◌, Bool-cases, Option-cases, inl, inr, length, set, get_or-set, length-set,
}
use emulebb_libpcpnatpmp.Data.{err_success, FlowKeyData, Flow, Server}
use emulebb_libpcpnatpmp.ClientDb.Key.{compute_flow_key}
use emulebb_libpcpnatpmp.ClientDb.Flows.{
  FlowDb, update, chain_at, pcp_db_rem_flow, chain_remove, pcp_get_flow, chain_find,
}
use emulebb_libpcpnatpmp.ClientDb.Chains.{
  occurs, chain_remove-occurs, chain_remove-none, chain_find-occurs, chain_find-chain_remove,
}
use emulebb_libpcpnatpmp.ClientDb.Invariant.{IsWellFormed}
use emulebb_libpcpnatpmp.ClientDb.Lookup.{is_match-update, chain_find-heap}

in_table : (cs : List (List ℕ)) (i a : ℕ) → 0 < occurs a (chain_at cs i) → i < length cs
in_table [] i a h = absurd (omega arith)
in_table (c ∷ cs) zero a h = omega arith
in_table (c ∷ cs) (suc i) a h = omega (arith, in_table cs i a h)

-- The table after the flow was taken out of chain `i`, of which `c` is left.
abbrev pub unlinked : FlowDb → Flow → ℕ → List ℕ → FlowDb
unlinked db f i c = record db {
  heap = update db.heap f.address (some (record f { key_bucket = none }));
  flows = set db.flows i c;
  flow_cnt = db.flow_cnt - 1;
}

module _ (db : FlowDb) (w : IsWellFormed db) (f : Flow) (live : db.heap f.address ≡ some f) where
  -- A flow with a bucket is in its chain, so that it is found there and unlinked.
  pub rem_linked :
      (i : ℕ)
      → f.key_bucket ≡ some i
      → (c : List ℕ) × (chain_remove f.address (chain_at db.flows i) ≡ some c)
        × (pcp_db_rem_flow f db ≡ (err_success, unlinked db f i c))
  unfolding pcp_db_rem_flow
  rem_linked i k = elim (Option-cases (chain_remove f.address (chain_at db.flows i))) [
    | inl n ↦ absurd (
        omega (
          arith,
          chain_remove-none f.address (chain_at db.flows i) n,
          w.listed i f.address f live k,
        ))
    | inr (c, e) ↦ (c, e, rw (k, pcp_db_rem_flow) (rw e refl))
  ]

  unlinked-occurs :
      (i : ℕ) (c : List ℕ)
      → f.key_bucket ≡ some i
      → chain_remove f.address (chain_at db.flows i) ≡ some c
      → (j b : ℕ)
      → occurs b (chain_at db.flows j)
        ≡ occurs b (chain_at (set db.flows i c) j)
          + (if i == j then (if f.address == b then 1 else 0) else 0)
  unlinked-occurs i c k e j b =
      let there = in_table db.flows i f.address (w.listed i f.address f live k) in
      let now = ap (occurs b) (get_or-set db.flows i j c [] there) in
      elim (Bool-cases (i == j)) [
        | inl p ↦ ground (
          arith,
          chain_remove-occurs f.address (chain_at db.flows i) c e b,
          now,
          ap (λ x. occurs b (chain_at db.flows x)) ((==_iff i j).0 p),
        )
        | inr p ↦ ground (arith, now)
      ]

  unlinked-IsWellFormed :
      (i : ℕ) (c : List ℕ)
      → f.key_bucket ≡ some i
      → chain_remove f.address (chain_at db.flows i) ≡ some c
      → IsWellFormed (unlinked db f i c)
  unlinked-IsWellFormed i c k e =
      let o = unlinked-occurs i c k e in
      record {
        table = length-set db.flows i c ∙ w.table;
        addresses = λ a g h. ground (arith, w.addresses a g);
        linked = λ j a h.
            let (g, there, q) = w.linked j a (omega (arith, o j a)) in
            elim (Bool-cases (f.address == a)) [
              | inl p ↦ absurd (ground (arith, o j a, w.unique j a))
              | inr p ↦ (g, rw p there, q)
            ];
        listed = λ j a g h q. ground (arith, w.listed j a g, o j a);
        unique = λ j a. omega (arith, o j a, w.unique j a);
        fresh = λ a h. ground (arith, w.fresh a);
      }

  not_found :
      (i : ℕ) (c : List ℕ)
      → IsWellFormed (unlinked db f i c)
      → (kd : FlowKeyData) (s : Server) → pcp_get_flow kd s (unlinked db f i c) ≢ some f.address
  unfolding pcp_get_flow
  not_found i c v kd s found =
      let j = compute_flow_key kd in
      let (there, matches) =
        chain_find-occurs (unlinked db f i c).heap kd s.index f.address
          (chain_at (set db.flows i c) j) found in
      let (g, at_a, q) = v.linked j f.address there in ground (arith, ==_iff f.address f.address)

  still_found :
      (i : ℕ) (c : List ℕ)
      → f.key_bucket ≡ some i
      → chain_remove f.address (chain_at db.flows i) ≡ some c
      → (kd : FlowKeyData) (s : Server) (b : ℕ) → b ≢ f.address
      → pcp_get_flow kd s db ≡ some b
      → pcp_get_flow kd s (unlinked db f i c) ≡ some b
  unfolding pcp_get_flow
  still_found i c k e kd s b other found =
      let j = compute_flow_key kd in
      let d = chain_at (set db.flows i c) j in
      chain_find-heap (unlinked db f i c).heap db.heap kd s.index d
        (is_match-update db.heap f none live kd s.index)
      ∙ ap (chain_find db.heap kd s.index) (
          get_or-set db.flows i j c []
            (in_table db.flows i f.address (w.listed i f.address f live k)))
      ∙ elim (Bool-cases (i == j)) [
        | inl p ↦ rw p (
            chain_find-chain_remove db.heap kd s.index f.address b (chain_at db.flows i) c e
              (λ q. other (sym q))
              (ap (λ x. chain_find db.heap kd s.index (chain_at db.flows x)) ((==_iff i j).0 p)
                ∙ found))
        | inr p ↦ rw p found
      ]

  -- pcp_db_rem_flow of a flow of the heap, linked or not, keeps a well-formed table well-
  -- formed.
  pub pcp_db_rem_flow-IsWellFormed : IsWellFormed (pcp_db_rem_flow f db).1
  unfolding pcp_db_rem_flow
  pcp_db_rem_flow-IsWellFormed = elim (Option-cases f.key_bucket) [
    | inl n ↦ rw (n, pcp_db_rem_flow) w
    | inr (i, k) ↦ let (c, e, done) = rem_linked i k in rw done (unlinked-IsWellFormed i c k e)
  ]

  -- From a well-formed table a linked flow is removed with success and counted off: no lookup
  -- gives it any more, and every lookup that gave another flow still gives that one.
  pub pcp_db_rem_flow-get :
      f.key_bucket ≢ none
      → ((pcp_db_rem_flow f db).0 ≡ err_success)
        × ((pcp_db_rem_flow f db).1.flow_cnt ≡ db.flow_cnt - 1)
        × ((kd : FlowKeyData) (s : Server)
            → pcp_get_flow kd s (pcp_db_rem_flow f db).1 ≢ some f.address)
        × ((kd : FlowKeyData) (s : Server) (b : ℕ)
            → b ≢ f.address
            → pcp_get_flow kd s db ≡ some b
            → pcp_get_flow kd s (pcp_db_rem_flow f db).1 ≡ some b)
  pcp_db_rem_flow-get linked_now = elim (Option-cases f.key_bucket) [
    | inl n ↦ absurd (linked_now n)
    | inr (i, k) ↦
        let (c, e, done) = rem_linked i k in
        let v = unlinked-IsWellFormed i c k e in
        rw done (refl, refl, not_found i c v, still_found i c k e)
  ]

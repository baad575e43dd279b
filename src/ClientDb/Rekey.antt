-- ===== src/ClientDb/Rekey.antt =====
-- Changing the nonce of linked flows: pcp_flow_set_nonce of lib/src/pcp_api.c, and what it does to the
-- lookups of lib/src/pcp_client_db.c.
use emulebb_libpcpnatpmp.Base.{
  ℕ, zero, suc, ◌<◌, ◌≤◌, ◌≡◌, ◌≢◌, refl, sym, ap, ◌∙◌, arith, List, [], ◌∷◌, Option, none, some,
  ◌==◌, ==_iff, if◌then◌else◌, Bool-cases, inl, inr, length, ltb,
}
use mathlib.Core.Option
use mathlib.Core.Path.{subst}
use emulebb_libpcpnatpmp.Wire.{Nonce}
use emulebb_libpcpnatpmp.Data.{FlowKeyData, Flow, Server}
use emulebb_libpcpnatpmp.ClientDb.Key.{compute_flow_key}
use emulebb_libpcpnatpmp.ClientDb.Flows.{Heap, FlowDb, update, chain_at, pcp_get_flow}
use emulebb_libpcpnatpmp.ClientDb.Chains.{occurs, chain_find-occurs}
use emulebb_libpcpnatpmp.ClientDb.Invariant.{IsWellFormed}

abbrev pub with_nonce : Nonce → Flow → Flow
with_nonce n f = record f { kd = record f.kd { nonce = n } }

-- The loop along next_child; none where a link leads to no flow, or the fuel is used up.
unfoldable pub set_nonce_loop : ℕ → Nonce → Option ℕ → Heap → Option Heap
set_nonce_loop fuel n none h = some h
set_nonce_loop zero n (some a) h = none
set_nonce_loop (suc fuel) n (some a) h = elim (h a) [
  | none ↦ none
  | some f ↦ set_nonce_loop fuel n f.next_child (update h a (some (with_nonce n f)))
]

-- The result 0, and the heap put back.
abbrev pub stored : FlowDb → Heap → ℕ × FlowDb
stored db h = (0, record db { heap = h })

-- There are no more flows on a chain than addresses have been given out.
unfoldable pub pcp_flow_set_nonce : Option ℕ → Option Nonce → FlowDb → Option (ℕ × FlowDb)
unfolding set_nonce_loop
pcp_flow_set_nonce (some a) (some n) db =
    Option.map (stored db) (set_nonce_loop db.next_address n (some a) db.heap)
pcp_flow_set_nonce _ _ db = some (1, db)

-- The addresses that the next_child pointers link, from one on to the null pointer.
pub data Children (h : Heap) : Option ℕ → List ℕ → Type 0 where
  no_more : Children h none []
  child :
      {a : ℕ} {f : Flow} {cs : List ℕ}
      → h a ≡ some f
      → Children h f.next_child cs
      → Children h (some a) (a ∷ cs)

-- The heap in which the flows of a list have the nonce, and the others are cs before.
abbrev pub renonced : Nonce → List ℕ → Heap → Heap
renonced n cs h b = if ltb 0 (occurs b cs) then Option.map (with_nonce n) (h b) else h b

Children-update :
    {h : Heap} {o : Option ℕ} {cs : List ℕ} (n : Nonce) (b : ℕ) (g : Flow)
    → h b ≡ some g
    → Children h o cs
    → Children (update h b (some (with_nonce n g))) o cs
Children-update n b g e no_more = no_more
Children-update {h} {cs = _ ∷ cs} n b g e (child {a} {f} p c) = elim (Bool-cases (b == a)) [
  | inl q ↦
      let same : some g ≡ some f = sym e ∙ ap h ((==_iff b a).0 q) ∙ p in
      let next : g.next_child ≡ f.next_child = ground arith in
      child {f = with_nonce n g} (rw q refl) (
        subst (λ o. Children (update h b (some (with_nonce n g))) o cs) (sym next)
          (Children-update n b g e c))
  | inr q ↦ child {f = f} (rw q p) (Children-update n b g e c)
]

set_nonce_loop-renonced :
    (fuel : ℕ) (n : Nonce) (h : Heap) (o : Option ℕ) (cs : List ℕ)
    → Children h o cs
    → length cs ≤ fuel
    → (h' : Heap) × (set_nonce_loop fuel n o h ≡ some h') × ((b : ℕ) → h' b ≡ renonced n cs h b)
unfolding set_nonce_loop
set_nonce_loop-renonced fuel n h none [] no_more l = (h, refl, λ b. refl)
set_nonce_loop-renonced (suc fuel) n h (some _) (a ∷ cs) (child {f} p c) l =
    let (h', e, same) =
      set_nonce_loop-renonced fuel n (update h a (some (with_nonce n f))) f.next_child cs
        (Children-update n a f p c) (omega arith) in
    (
      h',
      rw (p, set_nonce_loop) e,
      λ b. same b ∙ elim (Bool-cases (a == b)) [
        | inl q ↦
            let here : h b ≡ some f = ap h (sym ((==_iff a b).0 q)) ∙ p in ground (arith, here)
        | inr q ↦ ground arith
      ],
    )
set_nonce_loop-renonced fuel n h none (a ∷ cs) c l = elim c [ ]
set_nonce_loop-renonced zero n h (some _) [] c l = elim c [ ]
set_nonce_loop-renonced (suc fuel) n h (some _) [] c l = elim c [ ]
set_nonce_loop-renonced zero n h (some _) (a ∷ cs) (child p c) l = absurd (omega arith)

-- pcp_flow_set_nonce gives the nonce to every flow that next_child links from the given one on,
-- if there are no more of them than addresses have been given out, and changes nothing else:
-- not the other flows, and not the chains of the table.
pub pcp_flow_set_nonce-renonced :
    (db : FlowDb) (a : ℕ) (n : Nonce) (cs : List ℕ)
    → Children db.heap (some a) cs
    → length cs ≤ db.next_address
    → (db' : FlowDb) × (pcp_flow_set_nonce (some a) (some n) db ≡ some (0, db'))
      × ((b : ℕ) → db'.heap b ≡ renonced n cs db.heap b)
      × (db'.flows ≡ db.flows)
unfolding pcp_flow_set_nonce
pcp_flow_set_nonce-renonced db a n cs c l =
    let (h, e, same) = set_nonce_loop-renonced db.next_address n db.heap (some a) cs c l in
    (record db { heap = h }, rw e refl, same, refl)

set_nonce-flows :
    (db db' : FlowDb) (r : ℕ) (o : Option Heap)
    → Option.map (stored db) o ≡ some (r, db')
    → db'.flows ≡ db.flows
set_nonce-flows db db' r none e = absurd (ground arith)
set_nonce-flows db db' r (some h) e = ground arith

lost :
    (db db' : FlowDb) (f : Flow) (i : ℕ) (kd : FlowKeyData)
    → IsWellFormed db
    → db.heap f.address ≡ some f
    → f.key_bucket ≡ some i
    → compute_flow_key kd ≢ i
    → db'.flows ≡ db.flows
    → (s : Server) → pcp_get_flow kd s db' ≢ some f.address
unfolding pcp_get_flow
lost db db' f i kd w live k moved kept s found =
    let (there, m) =
      chain_find-occurs db'.heap kd s.index f.address (chain_at db'.flows (compute_flow_key kd))
        found in
    let there' : 0 < occurs f.address (chain_at db.flows (compute_flow_key kd)) =
      subst (λ x. 0 < occurs f.address (chain_at x (compute_flow_key kd))) kept there in
    let (g, at_a, q) = w.linked (compute_flow_key kd) f.address there' in
    let same : some g ≡ some f = sym at_a ∙ live in
    let bucket : g.key_bucket ≡ f.key_bucket = ground arith in
    let equal : some (compute_flow_key kd) ≡ some i = sym q ∙ bucket ∙ k in moved (ground arith)

-- In a well-formed table the bucket of a linked flow is not computed again by
-- pcp_flow_set_nonce: where its key with the new nonce hashes to another bucket, no server's
-- lookup of that key finds the flow afterwards.
pub pcp_flow_set_nonce-lost :
    (db : FlowDb) (f : Flow) (n : Nonce) (db' : FlowDb) (i : ℕ)
    → IsWellFormed db
    → db.heap f.address ≡ some f
    → f.key_bucket ≡ some i
    → compute_flow_key (with_nonce n f).kd ≢ i
    → pcp_flow_set_nonce (some f.address) (some n) db ≡ some (0, db')
    → (s : Server) → pcp_get_flow (with_nonce n f).kd s db' ≢ some f.address
unfolding pcp_flow_set_nonce
pcp_flow_set_nonce-lost db f n db' i w live k moved e s =
    lost db db' f i (with_nonce n f).kd w live k moved
      (set_nonce-flows db db' 0 (set_nonce_loop db.next_address n (some f.address) db.heap) e) s

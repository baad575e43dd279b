-- ===== src/ClientDb/Chains.antt =====
-- The chains of the flow table as sequences of addresses: what searching, appending and unlinking in
-- lib/src/pcp_client_db.c do to the number of times that an address occurs.
use emulebb_libpcpnatpmp.Base.{
  ℕ, ◌+◌, ◌<◌, ◌≡◌, ◌≢◌, refl, arith, true, List, [], ◌∷◌, ◌++◌, none, some, ◌==◌, if◌then◌else◌,
  Option-cases, inl, inr,
}
use emulebb_libpcpnatpmp.Data.{FlowKeyData}
use emulebb_libpcpnatpmp.ClientDb.Flows.{Heap, is_match, chain_find, chain_remove, cut_after}

abbrev pub occurs : ℕ → List ℕ → ℕ
occurs a [] = 0
occurs a (b ∷ c) = (if b == a then 1 else 0) + occurs a c

pub occurs-append : (a : ℕ) (c d : List ℕ) → occurs a (c ++ d) ≡ occurs a c + occurs a d
occurs-append a [] d = omega arith
occurs-append a (b ∷ c) d = omega (arith, occurs-append a c d)

-- Nothing is cut off a chain that the flow is not on, or is the last one of.
pub cut_after-absent : (a : ℕ) (c : List ℕ) → occurs a c ≡ 0 → cut_after a c ≡ c
unfolding cut_after
cut_after-absent a [] e = refl
cut_after-absent a (b ∷ c) e = ground (arith, cut_after-absent a c)

pub cut_after-last : (a : ℕ) (c : List ℕ) → occurs a c ≡ 0 → cut_after a (c ++ a ∷ []) ≡ c ++ a ∷ []
unfolding cut_after
cut_after-last a [] e = ground arith
cut_after-last a (b ∷ c) e = ground (arith, cut_after-last a c)

-- What is found occurs in the chain and matches.
pub chain_find-occurs :
    (h : Heap) (kd : FlowKeyData) (i a : ℕ) (c : List ℕ)
    → chain_find h kd i c ≡ some a
    → (0 < occurs a c) × (is_match h kd i a ≡ true)
unfolding chain_find
chain_find-occurs h kd i a [] e = ground arith
chain_find-occurs h kd i a (b ∷ c) e = ground (arith, chain_find-occurs h kd i a c)

-- An address is unlinked at its first occurrence, and the others stay.
pub chain_remove-occurs :
    (a : ℕ) (c d : List ℕ)
    → chain_remove a c ≡ some d
    → (b : ℕ) → occurs b c ≡ occurs b d + (if a == b then 1 else 0)
unfolding chain_remove
chain_remove-occurs a [] d e b = ground arith
chain_remove-occurs a (x ∷ c) d e b = elim (Option-cases (chain_remove a c)) [
  | inl n ↦ ground (arith, n)
  | inr (c', n) ↦ ground (arith, n, chain_remove-occurs a c c' n b)
]

pub chain_remove-none : (a : ℕ) (c : List ℕ) → chain_remove a c ≡ none → occurs a c ≡ 0
unfolding chain_remove
chain_remove-none a [] e = refl
chain_remove-none a (x ∷ c) e = elim (Option-cases (chain_remove a c)) [
  | inl n ↦ ground (arith, n, chain_remove-none a c n)
  | inr (c', n) ↦ ground (arith, n)
]

-- Another flow is still found after one has been unlinked.
pub chain_find-chain_remove :
    (h : Heap) (kd : FlowKeyData) (i a b : ℕ) (c d : List ℕ)
    → chain_remove a c ≡ some d
    → a ≢ b
    → chain_find h kd i c ≡ some b
    → chain_find h kd i d ≡ some b
unfolding chain_find chain_remove
chain_find-chain_remove h kd i a b [] d e n f = ground arith
chain_find-chain_remove h kd i a b (x ∷ c) d e n f = elim (Option-cases (chain_remove a c)) [
  | inl q ↦ ground (arith, q)
  | inr (c', q) ↦ ground (arith, q, chain_find-chain_remove h kd i a b c c' q n)
]

-- ===== src/Interface/Terminate/Freeing.antt =====
-- What pcp_terminate of lib/src/pcp_api.c frees.
use emulebb_libpcpnatpmp.Base.{
  ℕ, zero, suc, ◌<◌, ◌≤◌, ◌≡◌, ◌⊎◌, inl, inr, refl, sym, ap, ◌∙◌, arith, List, [], ◌∷◌, some,
}
use emulebb_libpcpnatpmp.Data.{Flow}
use emulebb_libpcpnatpmp.ClientDb.Flows.{chain_at}
use emulebb_libpcpnatpmp.ClientDb.Chains.{occurs, occurs-append}
use emulebb_libpcpnatpmp.System.{Sys, ◌>>=◌, and_then}
use emulebb_libpcpnatpmp.System.Sound.{IsSound, IsLive}
use emulebb_libpcpnatpmp.System.Iterate.{flatten, foreach, flow_addresses}
use emulebb_libpcpnatpmp.Interface.Delete.{freed}
use emulebb_libpcpnatpmp.Interface.Delete.Freed.{
  OwnsPing, freed-heap, freed-OwnsPing, freed-IsSound,
}
use emulebb_libpcpnatpmp.Interface.Delete.Laws.{Deleted, intern_there}
use emulebb_libpcpnatpmp.Interface.Terminate.{delete_flow_iter, delete_all}

zero_or_pos : (n : ℕ) → (n ≡ 0) ⊎ (0 < n)
zero_or_pos n = ground arith

-- An address in no chain but the first is not in the others.
flatten-nowhere :
    (cs : List (List ℕ)) (b : ℕ)
    → ((i : ℕ) → occurs b (chain_at cs i) ≡ 0)
    → occurs b (flatten cs) ≡ 0
flatten-nowhere [] b h = refl
flatten-nowhere (c ∷ cs) b h =
    omega (arith, occurs-append b c (flatten cs), h 0, flatten-nowhere cs b (λ i. h (suc i)))

-- An address that is in one chain at most, and there once, is once among all.
flatten-once :
    (cs : List (List ℕ)) (b : ℕ)
    → ((i : ℕ) → occurs b (chain_at cs i) ≤ 1)
    → ((i j : ℕ) → 0 < occurs b (chain_at cs i) → 0 < occurs b (chain_at cs j) → i ≡ j)
    → occurs b (flatten cs) ≤ 1
flatten-once [] b h one = omega arith
flatten-once (c ∷ cs) b h one = elim (zero_or_pos (occurs b c)) [
  | inl z ↦ omega (
    arith,
    occurs-append b c (flatten cs),
    flatten-once cs b (λ i. h (suc i)) (λ i j p q. omega (arith, one (suc i) (suc j) p q)),
  )
  | inr p ↦ omega (
    arith,
    occurs-append b c (flatten cs),
    h 0,
    flatten-nowhere cs b (λ i. elim (zero_or_pos (occurs b (chain_at cs i))) [
      | inl z ↦ z
      | inr q ↦ absurd (omega (arith, one 0 (suc i) p q))
    ]),
  )
]

flatten-somewhere :
    (cs : List (List ℕ)) (b : ℕ)
    → 0 < occurs b (flatten cs)
    → (i : ℕ) × (0 < occurs b (chain_at cs i))
flatten-somewhere [] b h = absurd (omega arith)
flatten-somewhere (c ∷ cs) b h = elim (zero_or_pos (occurs b c)) [
  | inl z ↦
      let (i, p) = flatten-somewhere cs b (omega (arith, occurs-append b c (flatten cs))) in
      (suc i, p)
  | inr p ↦ (0, p)
]

flatten-chain :
    (cs : List (List ℕ)) (b i : ℕ) → 0 < occurs b (chain_at cs i) → 0 < occurs b (flatten cs)
flatten-chain [] b i p = absurd (omega arith)
flatten-chain (c ∷ cs) b zero p = omega (arith, occurs-append b c (flatten cs))
flatten-chain (c ∷ cs) b (suc i) p =
    omega (arith, occurs-append b c (flatten cs), flatten-chain cs b i p)

delete_step :
    (a : ℕ) (rest : List ℕ) (f : Flow) (c : Sys)
    → c.db.heap a ≡ some f
    → foreach delete_flow_iter (a ∷ rest) tt c ≡ foreach delete_flow_iter rest tt (freed c a f)
unfolding foreach delete_flow_iter ◌>>=◌
delete_step a rest f c e =
    ap (λ x. and_then x (λ r. foreach delete_flow_iter rest r)) (intern_there a f c e)

delete_each :
    (cs : List ℕ) (c : Sys)
    → IsSound c
    → OwnsPing c
    → ((b : ℕ) → 0 < occurs b cs → IsLive c b)
    → ((b : ℕ) → occurs b cs ≤ 1)
    → (d : Sys) × (foreach delete_flow_iter cs tt c ≡ some (tt, d))
      × IsSound d
      × OwnsPing d
      × Deleted cs c d
unfolding foreach
delete_each [] c s own live once = (c, refl, s, own, λ b. refl)
delete_each (a ∷ cs) c s own live once =
    let (f, e) = live a (ground arith) in
    let (d, ran, s', own', gone) =
      delete_each cs (freed c a f) (freed-IsSound c s own a f e) (freed-OwnsPing c s own a f e)
        (λ b o.
          let (g, p) = live b (ground arith) in
          (g, freed-heap c s a f e b ∙ ground (arith, once b)))
        (λ b. ground (arith, once b)) in
    (
      d,
      delete_step a cs f c e ∙ ran,
      s',
      own',
      λ b. gone b ∙ ground (arith, freed-heap c s a f e b),
    )

module _ (c : Sys) (s : IsSound c) (own : OwnsPing c) where
  one_bucket :
      (b i j : ℕ)
      → 0 < occurs b (chain_at c.db.flows i)
      → 0 < occurs b (chain_at c.db.flows j)
      → i ≡ j
  one_bucket b i j p q =
      let (f, at, k) = s.db.linked i b p in
      let (g, at', l) = s.db.linked j b q in
      let same : some f ≡ some g = sym at ∙ at' in ground (arith, k, l)

  listed-IsLive : (b : ℕ) → 0 < occurs b (flatten c.db.flows) → IsLive c b
  listed-IsLive b p =
      let (i, q) = flatten-somewhere c.db.flows b p in let (f, at, k) = s.db.linked i b q in (f, at)

  pub delete_all-Deleted :
      (d : Sys) × (delete_all c ≡ some (tt, d))
      × IsSound d
      × OwnsPing d
      × Deleted (flatten c.db.flows) c d
  unfolding delete_all flow_addresses ◌>>=◌
  delete_all-Deleted =
      delete_each (flatten c.db.flows) c s own listed-IsLive
        (λ b. flatten-once c.db.flows b (λ i. s.db.unique i b) (one_bucket b))

  -- A flow that is linked is among those that are deleted.
  pub linked_listed :
      (b i : ℕ) (f : Flow)
      → c.db.heap b ≡ some f
      → f.key_bucket ≡ some i
      → 0 < occurs b (flatten c.db.flows)
  linked_listed b i f e k = flatten-chain c.db.flows b i (s.db.listed i b f e k)

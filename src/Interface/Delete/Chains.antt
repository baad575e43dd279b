-- ===== src/Interface/Delete/Chains.antt =====
-- The next_child chains of lib/src/pcp_client_db.h: a chain that ends holds no flow twice.
use emulebb_libpcpnatpmp.Base.{
  ℕ, ◌<◌, ◌≤◌, ◌≡◌, ◌⊎◌, inl, inr, refl, sym, ◌∙◌, arith, List, [], ◌∷◌, Option, some, ◌==◌, ==_iff,
  Bool-cases, length,
}
use mathlib.Core.Path.{subst}
use emulebb_libpcpnatpmp.Data.{Flow}
use emulebb_libpcpnatpmp.ClientDb.Flows.{Heap}
use emulebb_libpcpnatpmp.ClientDb.Chains.{occurs}
use emulebb_libpcpnatpmp.ClientDb.Rekey.{Children, no_more, child}

Children-length :
    {h : Heap} {o : Option ℕ} {cs ds : List ℕ}
    → Children h o cs
    → Children h o ds
    → length cs ≡ length ds
Children-length no_more no_more = refl
Children-length {h} {cs = _ ∷ cs} {ds = _ ∷ ds} (child {a} {f} p c) (child {f = g} q d) =
    let same : g.next_child ≡ f.next_child = ground (arith, sym p ∙ q) in
    omega (arith, Children-length c (subst (λ x. Children h x ds) same d))
Children-length {ds = []} (child p c) d = elim d [ ]

Children-from :
    {h : Heap} {o : Option ℕ} {cs : List ℕ} (b : ℕ)
    → Children h o cs
    → 0 < occurs b cs
    → (ds : List ℕ) × Children h (some b) ds × (length ds ≤ length cs)
Children-from b no_more o = absurd (omega arith)
Children-from {h} {cs = _ ∷ cs} b (child {a} {f} p c) o = elim (Bool-cases (a == b)) [
  | inl q ↦ (
    a ∷ cs,
    subst (λ x. Children h (some x) (a ∷ cs)) ((==_iff a b).0 q) (child p c),
    omega arith,
  )
  | inr q ↦ let (ds, d, l) = Children-from b c (ground arith) in (ds, d, omega arith)
]

zero_or_pos : (n : ℕ) → (n ≡ 0) ⊎ (0 < n)
zero_or_pos n = ground arith

pub Children-once :
    (h : Heap) (a : ℕ) (f : Flow) (cs : List ℕ)
    → h a ≡ some f
    → Children h f.next_child cs
    → occurs a cs ≡ 0
Children-once h a f cs p c = elim (zero_or_pos (occurs a cs)) [
  | inl z ↦ z
  | inr o ↦
      let (ds, d, l) = Children-from a c o in absurd (omega (arith, Children-length d (child p c)))
]

-- A chain is still there when flows that are not on it have changed.
pub Children-kept :
    {h h' : Heap} {o : Option ℕ} {cs : List ℕ}
    → ((b : ℕ) → 0 < occurs b cs → h' b ≡ h b)
    → Children h o cs
    → Children h' o cs
Children-kept same no_more = no_more
Children-kept {cs = _ ∷ cs} same (child {a} {f} p c) =
    child {f = f} (same a (ground arith) ∙ p) (Children-kept (λ b o. same b (ground arith)) c)

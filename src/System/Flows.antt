-- ===== src/System/Flows.antt =====
-- Writing the fields of a flow of the database: what it leaves as it is.
use emulebb_libpcpnatpmp.Base.{
  ℕ, ◌<◌, ◌≡◌, ◌≢◌, refl, ap, ◌∙◌, arith, some, ◌==◌, ==_iff, Bool-cases, inl, inr,
}
use emulebb_libpcpnatpmp.Data.{Flow, pfs_any}
use emulebb_libpcpnatpmp.ClientDb.Invariant.{IsWellFormed}
use emulebb_libpcpnatpmp.System.{Sys, with_flow}
use emulebb_libpcpnatpmp.System.Sound.{IsSafe, IsLive, Extends}

-- The same flow, in a state that a flow can have.
pub record IsUpdate (f g : Flow) : Type 0 where
  pub address : g.address ≡ f.address
  pub key_bucket : g.key_bucket ≡ f.key_bucket
  pub next_child : g.next_child ≡ f.next_child
  pub real : g.state ≢ pfs_any

module _ (c : Sys) (a : ℕ) (f g : Flow) (live : c.db.heap a ≡ some f) where
  with_flow-IsLive : (b : ℕ) → IsLive c b → IsLive (with_flow c a g) b
  with_flow-IsLive b (h, e) = elim (Bool-cases (a == b)) [
    | inl p ↦ (g, rw p refl)
    | inr p ↦ (h, rw p e)
  ]

  pub with_flow-Extends : Extends c (with_flow c a g)
  with_flow-Extends = record { flows = with_flow-IsLive; servers = λ i s. s }

  with_flow-IsWellFormed :
      IsWellFormed c.db
      → IsUpdate (record f { next_child = g.next_child }) g
      → IsWellFormed (with_flow c a g).db
  with_flow-IsWellFormed w u = record {
    table = w.table;
    addresses = λ b h e. ground (arith, w.addresses b h, w.addresses a f, u.address);
    linked = λ i b o.
        let (h, e, k) = w.linked i b o in
        elim (Bool-cases (a == b)) [
          | inl p ↦
              let here : c.db.heap a ≡ some h = ap c.db.heap ((==_iff a b).0 p) ∙ e in
              (g, rw p refl, ground (arith, u.key_bucket))
          | inr p ↦ (h, rw p e, k)
        ];
    listed = λ i b h e k. elim (Bool-cases (a == b)) [
      | inl p ↦ ground (arith, w.listed i a f, u.key_bucket, (==_iff a b).0 p)
      | inr p ↦ ground (arith, w.listed i b h)
    ];
    unique = w.unique;
    fresh = λ b l. ground (arith, w.fresh b);
  }

  -- The write may link the flow to a later one.
  pub with_flow-IsSafe :
      IsSafe c
      → IsUpdate (record f { next_child = g.next_child }) g
      → ((b : ℕ) → g.next_child ≡ some b → (a < b) × IsLive c b)
      → IsSafe (with_flow c a g)
  with_flow-IsSafe s u later = record {
    db = with_flow-IsWellFormed s.db u;
    real = λ b h e. ground (arith, s.real b h, u.real);
    ping = λ i b t e p. with_flow-IsLive b (s.ping i b t e p);
    child = λ b d h e k. elim (Bool-cases (a == b)) [
      | inl p ↦
          let (lt, live) = later d (ground arith) in
          (ground (arith, (==_iff a b).0 p, lt), with_flow-IsLive d live)
      | inr p ↦ let (lt, live) = s.child b d h (ground arith) k in (lt, with_flow-IsLive d live)
    ];
  }

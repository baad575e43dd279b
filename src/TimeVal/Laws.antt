-- ===== src/TimeVal/Laws.antt =====
-- What the timeval helpers of lib/src/pcp_utils.h compute, in microseconds.
use emulebb_libpcpnatpmp.Base.{
  ℕ, ◌+◌, ◌*◌, ◌≡◌, ◌<◌, ◌≤◌, refl, true, false, ◌↔◌, ◌⊎◌, inl, inr, pos, negsuc, pos_part,
  neg_part, arith, -ℤ_parts,
}
use emulebb_libpcpnatpmp.TimeVal.{
  TimeVal, Difference, million, zero_time, timeval_align, timeval_order, timeval_comp,
  timeval_carry, timeval_minus, timeval_subtract,
}

-- The microseconds of a time, positive and negative parts apart.
abbrev pub gain : TimeVal → ℕ
gain x = million * pos_part x.tv_sec + pos_part x.tv_usec

abbrev pub loss : TimeVal → ℕ
loss x = million * neg_part x.tv_sec + neg_part x.tv_usec

-- Two times stand for the same number of microseconds, or for less.
abbrev pub SameInstant : TimeVal → TimeVal → Type 0
SameInstant x y = gain x + loss y ≡ gain y + loss x

abbrev pub Earlier : TimeVal → TimeVal → Type 0
Earlier x y = gain x + loss y < gain y + loss x

-- The microseconds lie in [0, 1000000).
pub record IsAligned (x : TimeVal) : Type 0 where
  pub nonneg : neg_part x.tv_usec ≡ 0
  pub small : pos_part x.tv_usec < million

pub timeval_align-IsAligned : (x : TimeVal) → IsAligned (timeval_align x)
unfolding timeval_align
timeval_align-IsAligned x = ground arith

pub timeval_align-SameInstant : (x : TimeVal) → SameInstant (timeval_align x) x
unfolding timeval_align
timeval_align-SameInstant x = ground arith

timeval_order-lt :
    (x y : TimeVal) → IsAligned x → IsAligned y → Earlier x y ↔ (timeval_order x y ≡ negsuc 0)
unfolding timeval_order
timeval_order-lt x y hx hy = ground arith

timeval_order-gt :
    (x y : TimeVal) → IsAligned x → IsAligned y → Earlier y x ↔ (timeval_order x y ≡ pos 1)
unfolding timeval_order
timeval_order-gt x y hx hy = ground arith

timeval_order-eq :
    (x y : TimeVal) → IsAligned x → IsAligned y → SameInstant x y ↔ (timeval_order x y ≡ pos 0)
unfolding timeval_order
timeval_order-eq x y hx hy = ground arith

-- timeval_comp orders the two times by their microseconds, whatever their normal form: -1 if the
-- first is earlier, 0 if they are the same, 1 if it is later; and it aligns both in place.
pub timeval_comp_lem :
    (x y : TimeVal)
    → (Earlier x y ↔ ((timeval_comp x y).order ≡ negsuc 0))
      × (SameInstant x y ↔ ((timeval_comp x y).order ≡ pos 0))
      × (Earlier y x ↔ ((timeval_comp x y).order ≡ pos 1))
      × SameInstant (timeval_comp x y).left x
      × SameInstant (timeval_comp x y).right y
unfolding timeval_comp
timeval_comp_lem x y =
    let a = timeval_align x in
    let b = timeval_align y in
    let ia = timeval_align-IsAligned x in
    let ib = timeval_align-IsAligned y in
    let sa = timeval_align-SameInstant x in
    let sb = timeval_align-SameInstant y in
    let lt = timeval_order-lt a b ia ib in
    let eq = timeval_order-eq a b ia ib in
    let gt = timeval_order-gt a b ia ib in
    (
      ((λ h. lt.0 (omega arith)), (λ e. let q = lt.1 e in omega arith)),
      ((λ h. eq.0 (omega arith)), (λ e. let q = eq.1 e in omega arith)),
      ((λ h. gt.0 (omega arith)), (λ e. let q = gt.1 e in omega arith)),
      sa,
      sb,
    )

-- The carry keeps the instant and leaves no borrow to take.
timeval_carry_lem :
    (x y : TimeVal)
    → IsAligned x
    → IsAligned y
    → SameInstant (timeval_carry x y) y
      × (pos_part (timeval_carry x y).tv_usec + neg_part x.tv_usec
          ≤ pos_part x.tv_usec + neg_part (timeval_carry x y).tv_usec)
unfolding timeval_carry
timeval_carry_lem x y hx hy = ground arith

-- What timeval_subtract promises: the difference in microseconds where the first time is later,
-- and otherwise a zero result with the flag set.
pub record Subtracts (x y : TimeVal) (d : Difference) : Type 0 where
  pub later :
      Earlier y x
      → (d.negative ≡ false)
        × IsAligned d.result
        × (gain d.result + loss x + gain y ≡ loss d.result + gain x + loss y)
  pub not_later : gain x + loss y ≤ gain y + loss x → (d.negative ≡ true) × (d.result ≡ zero_time)
  pub aligned : IsAligned d.left × SameInstant d.left x

timeval_minus_lem :
    (x y : TimeVal)
    → gain (timeval_minus x y) + loss x + gain y ≡ loss (timeval_minus x y) + gain x + loss y
unfolding timeval_minus
timeval_minus_lem x y = omega (arith, -ℤ_parts x.tv_sec y.tv_sec, -ℤ_parts x.tv_usec y.tv_usec)

timeval_comp-order :
    (x y : TimeVal)
    → (timeval_comp x y).order ≡ timeval_order (timeval_comp x y).left (timeval_comp x y).right
unfolding timeval_comp
timeval_comp-order x y = refl

timeval_comp-IsAligned :
    (x y : TimeVal) → IsAligned (timeval_comp x y).left × IsAligned (timeval_comp x y).right
unfolding timeval_comp
timeval_comp-IsAligned x y = (timeval_align-IsAligned x, timeval_align-IsAligned y)

lt_or_eq : (a b : ℕ) → a ≤ b → (a < b) ⊎ (a ≡ b)
lt_or_eq a b h = ground arith

pub timeval_subtract-left : (x y : TimeVal) → (timeval_subtract x y).left ≡ timeval_align x
unfolding timeval_subtract timeval_comp
timeval_subtract-left x y = ground arith

-- timeval_subtract gives, where the first time is later, its distance from the second in
-- microseconds, aligned and without the flag, and otherwise zero with the flag; the first time is
-- left aligned.
pub timeval_subtract-Subtracts : (x y : TimeVal) → Subtracts x y (timeval_subtract x y)
unfolding timeval_subtract
timeval_subtract-Subtracts x y =
    let (lt, eq, gt, sl, sr) = timeval_comp_lem x y in
    let (al, ar) = timeval_comp-IsAligned x y in
    let c = timeval_comp x y in
    let (sc, borrow) = timeval_carry_lem c.left c.right al ar in
    let m = timeval_minus c.left (timeval_carry c.left c.right) in
    let d = timeval_minus_lem c.left (timeval_carry c.left c.right) in
    let sd = timeval_align-SameInstant m in
    record {
      later = λ h. rw (gt.0 h) (refl, timeval_align-IsAligned m, omega arith);
      not_later = λ h. elim (lt_or_eq _ _ h) [
        | inl p ↦ rw (lt.0 p) (refl, refl)
        | inr p ↦ rw (eq.0 p) (refl, refl)
      ];
      aligned =
          rw (timeval_subtract-left x y) (timeval_align-IsAligned x, timeval_align-SameInstant x);
    }

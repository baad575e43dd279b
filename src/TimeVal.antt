-- ===== src/TimeVal.antt =====
-- struct timeval and its helpers, lib/src/pcp_utils.h: timeval_align, timeval_comp and
-- timeval_subtract. A helper returns the values that the C code writes through its pointers.
-- time_t and suseconds_t are unbounded integers here; a sum past 2^63 is not modelled.
pub mod Laws
use emulebb_libpcpnatpmp.Base.{
  ℕ, ◌+◌, ◌-◌, ◌*◌, Bool, true, false, ◌&&◌, ℤ, pos, negsuc, ◌+ℤ◌, ◌-ℤ◌, ltb_ℤ, ◌==ℤ◌, div_trunc,
  mod_trunc, if◌then◌else◌,
}

pub record TimeVal : Type 0 where
  pub tv_sec : ℤ
  pub tv_usec : ℤ

abbrev pub million : ℕ
million = 1000000

abbrev pub zero_time : TimeVal
zero_time = record { tv_sec = pos 0; tv_usec = pos 0 }

-- The test `(tv.tv_sec == 0) && (tv.tv_usec == 0)`.
abbrev pub is_zero_time : TimeVal → Bool
is_zero_time x = x.tv_sec ==ℤ pos 0 && x.tv_usec ==ℤ pos 0

unfoldable pub timeval_align : TimeVal → TimeVal
unfolding ◌+ℤ◌ ◌-ℤ◌ div_trunc mod_trunc
timeval_align x =
    let sec = x.tv_sec +ℤ div_trunc x.tv_usec million in
    let usec = mod_trunc x.tv_usec million in
    if ltb_ℤ usec (pos 0)
    then record { tv_sec = sec -ℤ pos 1; tv_usec = pos million +ℤ usec }
    else record { tv_sec = sec; tv_usec = usec }

-- The result of timeval_comp, with the two operands as it leaves them.
pub record Comparison : Type 0 where
  pub order : ℤ
  pub left : TimeVal
  pub right : TimeVal

unfoldable pub timeval_order : TimeVal → TimeVal → ℤ
timeval_order x y =
    if ltb_ℤ x.tv_sec y.tv_sec
    then negsuc 0
    else if ltb_ℤ y.tv_sec x.tv_sec
    then pos 1
    else if ltb_ℤ x.tv_usec y.tv_usec
    then negsuc 0
    else if ltb_ℤ y.tv_usec x.tv_usec
    then pos 1
    else pos 0

unfoldable pub timeval_comp : TimeVal → TimeVal → Comparison
unfolding timeval_align timeval_order
timeval_comp x y =
    let x' = timeval_align x in
    let y' = timeval_align y in record { order = timeval_order x' y'; left = x'; right = y' }

-- The result of timeval_subtract: the value returned (1 for true), `*result`, and `*x` as it is
-- left. `result` may be the same object as `y`, as it is at every call: `*y` is then `*result`.
pub record Difference : Type 0 where
  pub negative : Bool
  pub result : TimeVal
  pub left : TimeVal

unfoldable pub times_million : ℤ → ℤ
times_million (pos n) = pos (million * n)
times_million (negsuc n) = negsuc (million * n + (million - 1))

-- The carry: y borrows whole seconds, so that its microseconds do not exceed those of x.
unfoldable pub timeval_carry : TimeVal → TimeVal → TimeVal
unfolding ◌+ℤ◌ ◌-ℤ◌ div_trunc times_million
timeval_carry x y =
    let nsec = div_trunc (y.tv_usec -ℤ x.tv_usec) million +ℤ pos 1 in
    if ltb_ℤ x.tv_usec y.tv_usec
    then record { tv_sec = y.tv_sec +ℤ nsec; tv_usec = y.tv_usec -ℤ times_million nsec }
    else y

-- The fields' differences, not yet aligned.
unfoldable pub timeval_minus : TimeVal → TimeVal → TimeVal
unfolding ◌-ℤ◌
timeval_minus x y = record { tv_sec = x.tv_sec -ℤ y.tv_sec; tv_usec = x.tv_usec -ℤ y.tv_usec }

unfoldable pub timeval_subtract : TimeVal → TimeVal → Difference
timeval_subtract x y =
    let c = timeval_comp x y in
    if ltb_ℤ (pos 0) c.order
    then record {
      negative = false;
      result = timeval_align (timeval_minus c.left (timeval_carry c.left c.right));
      left = c.left;
    }
    else record { negative = true; result = zero_time; left = c.left }

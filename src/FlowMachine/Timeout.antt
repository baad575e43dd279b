-- ===== src/FlowMachine/Timeout.antt =====
-- Retransmission times: PCP_RT of lib/src/pcp_event_handler.c with the constants of
-- lib/default_config.h.
use Prim.Native.Nat.{max}
use emulebb_libpcpnatpmp.Base.{ℕ, ◌+◌, ◌-◌, ◌*◌, ◌/◌, ◌%◌, ◌≤◌, ◌<◌, ◌≡◌, arith, ltb, if◌then◌else◌}

abbrev pub pcp_retx_irt : ℕ
pcp_retx_irt = 3000

abbrev pub pcp_retx_mrt : ℕ
pcp_retx_mrt = 1024000

abbrev pub pcp_retx_mrc : ℕ
pcp_retx_mrc = 3

abbrev pub u32 : ℕ → ℕ
u32 n = n % 4294967296

-- The previous time doubled, and held between the initial and the maximal one.
abbrev pub clamped_rt : ℕ → ℕ
clamped_rt rtprev =
    let doubled = u32 (rtprev * 2) in
    let low = if ltb pcp_retx_irt doubled then doubled else pcp_retx_irt in
    if ltb low pcp_retx_mrt then low else pcp_retx_mrt

-- In units of 2^-13, between 7169 and 9216.
abbrev pub jitter : ℕ → ℕ
jitter rand = 8192 + 1024 - rand % 2048

unfoldable pub pcp_rt : ℕ → ℕ → ℕ
pcp_rt rand rtprev = u32 (jitter rand * clamped_rt rtprev) / 8192

clamped_rt-max : (rtprev : ℕ) → rtprev ≤ 233016 → clamped_rt rtprev ≡ max (rtprev * 2) pcp_retx_irt
clamped_rt-max rtprev h = ground arith

mul_bounds : (j x : ℕ) → 7169 ≤ j → j ≤ 9216 → (7169 * x ≤ j * x) × (j * x ≤ 9216 * x)
mul_bounds j x lo hi = grind arith

scaled_bounds :
    (j x : ℕ)
    → 7169 ≤ j
    → j ≤ 9216
    → x ≤ 466032
    → (7 * x ≤ 8 * (u32 (j * x) / 8192) + 8) × (8 * (u32 (j * x) / 8192) ≤ 9 * x)
scaled_bounds j x lo hi h = let (l, u) = mul_bounds j x lo hi in omega arith

-- Up to a previous time of 233016 ms nothing wraps: the new time is the previous one doubled, but
-- at least 3000 ms, give or take an eighth.
pub pcp_rt_bounds :
    (rand rtprev : ℕ)
    → rtprev ≤ 233016
    → let x = max (rtprev * 2) pcp_retx_irt in
      (7 * x ≤ 8 * pcp_rt rand rtprev + 8) × (8 * pcp_rt rand rtprev ≤ 9 * x)
unfolding pcp_rt
pcp_rt_bounds rand rtprev h = rw (clamped_rt-max rtprev h) (
    scaled_bounds (jitter rand) (max (rtprev * 2) pcp_retx_irt) (omega arith) (omega arith)
      (omega arith))

-- From half of PCP_RETX_MRT on the 32-bit product wraps: the new time is at most 524287 ms, and
-- never within an eighth of the maximum of 1024000 ms that it is meant to be held at.
pub pcp_rt_wraps :
    (rand rtprev : ℕ)
    → 512000 ≤ rtprev
    → rtprev < 2147483648
    → (clamped_rt rtprev ≡ pcp_retx_mrt) × (8 * pcp_rt rand rtprev < 7 * pcp_retx_mrt)
unfolding pcp_rt
pcp_rt_wraps rand rtprev h k = ground arith

-- ===== src/TestServer/Walks.antt =====
-- How the walk over the options of a request ends, test-server/pcp-server.c.
use emulebb_libpcpnatpmp.Base.{
  ℕ, zero, suc, ◌≤◌, ◌<◌, ◌≡◌, ◌≢◌, ◌⊎◌, inl, inr, refl, arith, true, false, ◌==◌,
}
use emulebb_libpcpnatpmp.Wire.{Buffer}
use emulebb_libpcpnatpmp.FlowMachine.Table.{res_success}
use emulebb_libpcpnatpmp.TestServer.Analysis.{analyze_options}
use emulebb_libpcpnatpmp.TestServer.Options.{
  Walk, print_pcp_options, print_options, third_party_option, prefer_fail_option, filter_option,
  metadata_option,
}

-- A step has made the remaining part shorter.
abbrev Shorter : Walk → ℕ × Walk → Type 0
Shorter w c = c.1.remaining < w.remaining

module _ (m : Buffer) (w : Walk) (more : w.remaining ≢ 0) where
  pub print_pcp_options-Shorter : Shorter w (print_pcp_options m w)
  unfolding print_pcp_options third_party_option prefer_fail_option filter_option metadata_option
  print_pcp_options-Shorter = ground arith

-- With as much fuel as bytes remain, the walk ends with nothing remaining.
pub print_options-ends :
    (n : ℕ) (m : Buffer) (c : ℕ × Walk) → c.1.remaining ≤ n → (print_options n m c).1.remaining ≡ 0
unfolding print_options
print_options-ends zero m (r, w) h = omega arith
print_options-ends (suc n) m (r, w) h =
    ground (arith, print_options-ends n m (print_pcp_options m w), print_pcp_options-Shorter m w)

zero_or_more : (n : ℕ) → ((n == 0) ≡ true) ⊎ ((n ≢ 0) × ((n == 0) ≡ false))
zero_or_more zero = inl refl
zero_or_more (suc n) = inr (λ e. omega arith, ground arith)

-- The loop's runs: from one result code and walk to another by options, each met while bytes
-- remain.
pub data Reaches (m : Buffer) : ℕ × Walk → ℕ × Walk → Type 0 where
  here : (c : ℕ × Walk) → Reaches m c c
  onward :
      (c d : ℕ × Walk) → c.1.remaining ≢ 0 → Reaches m (print_pcp_options m c.1) d → Reaches m c d

pub print_options-Reaches : (n : ℕ) (m : Buffer) (c : ℕ × Walk) → Reaches m c (print_options n m c)
unfolding print_options
print_options-Reaches zero m (r, w) = here (r, w)
print_options-Reaches (suc n) m (r, w) = elim (zero_or_more w.remaining) [
  | inl e ↦ rw (print_options, e) (here (r, w))
  | inr e ↦
      rw (print_options, e.1)
        (onward (r, w) _ e.0 (print_options-Reaches n m (print_pcp_options m w)))
]

-- There is one run to the end.
pub print_options_unique :
    (m : Buffer) (n : ℕ) (c d : ℕ × Walk)
    → Reaches m c d
    → d.1.remaining ≡ 0
    → c.1.remaining ≤ n
    → print_options n m c ≡ d
unfolding print_options
print_options_unique m zero (r, w) _ (here _) e h = refl
print_options_unique m (suc n) (r, w) _ (here _) e h = ground arith
print_options_unique m zero (r, w) d (onward _ _ more k) e h = absurd (omega arith)
print_options_unique m (suc n) (r, w) d (onward _ _ more k) e h = ground (
  arith,
  print_options_unique m n (print_pcp_options m w) d k e,
  print_pcp_options-Shorter m w more,
)

pub Reaches-trans : {m : Buffer} {c d e : ℕ × Walk} → Reaches m c d → Reaches m d e → Reaches m c e
Reaches-trans (here _) k = k
Reaches-trans (onward _ _ more h) k = onward _ _ more (Reaches-trans h k)

-- A run in which no METADATA option is longer than the buffer that it is copied to.
pub data RunsInBounds (m : Buffer) : ℕ × Walk → ℕ × Walk → Type 0 where
  ended : (c : ℕ × Walk) → c.1.overrun ≡ false → RunsInBounds m c c
  copied :
      (c d : ℕ × Walk)
      → c.1.remaining ≢ 0
      → c.1.overrun ≡ false
      → RunsInBounds m (print_pcp_options m c.1) d
      → RunsInBounds m c d

module _ (m : Buffer) (w : Walk) where
  -- An overrun is not forgotten.
  overrun-before : (print_pcp_options m w).1.overrun ≡ false → w.overrun ≡ false
  unfolding print_pcp_options third_party_option prefer_fail_option filter_option metadata_option
  overrun-before e = ground arith

starts_in_bounds : {m : Buffer} {c d : ℕ × Walk} → RunsInBounds m c d → c.1.overrun ≡ false
starts_in_bounds (ended _ e) = e
starts_in_bounds (copied _ _ more e k) = e

Reaches-RunsInBounds :
    {m : Buffer} {c d : ℕ × Walk} → Reaches m c d → d.1.overrun ≡ false → RunsInBounds m c d
Reaches-RunsInBounds (here c) e = ended c e
Reaches-RunsInBounds {m} (onward c d more h) e =
    let k = Reaches-RunsInBounds h e in
    copied c d more (overrun-before m c.1 (starts_in_bounds k)) k

-- The analysis of the options of a request in which no METADATA option is found to be longer than
-- the buffer that it is copied to ends: the loop is left where its own condition fails, no byte
-- remaining, after the options that it met one after another, with no copy behind the buffer at any
-- of them.
pub analyze_options-Reaches :
    (m : Buffer) (w : Walk)
    → (analyze_options m w).1.overrun ≡ false
    → RunsInBounds m (res_success, w) (analyze_options m w)
      × ((analyze_options m w).1.remaining ≡ 0)
unfolding analyze_options
analyze_options-Reaches m w fits = (
  Reaches-RunsInBounds (print_options-Reaches w.remaining m (res_success, w)) fits,
  print_options-ends w.remaining m (res_success, w) (omega arith),
)

-- When the loop comes to an option after which no byte remains, the code of the whole request is
-- that option's, whatever code it has by then: an error in an option before is forgotten.
pub analyze_options-last :
    (m : Buffer) (w : Walk) (c : ℕ × Walk)
    → Reaches m (res_success, w) c
    → c.1.remaining ≢ 0
    → (print_pcp_options m c.1).1.remaining ≡ 0
    → analyze_options m w ≡ print_pcp_options m c.1
unfolding analyze_options
analyze_options-last m w c h more e =
    print_options_unique m w.remaining (res_success, w) (print_pcp_options m c.1)
      (Reaches-trans h (onward c (print_pcp_options m c.1) more (here (print_pcp_options m c.1)))) e
      (omega arith)

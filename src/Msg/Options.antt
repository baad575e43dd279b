-- ===== src/Msg/Options.antt =====
-- Where the options of a request stand in its message, lib/src/pcp_msg.c.
use emulebb_libpcpnatpmp.Base.{ℕ, ◌+◌, ◌≡◌, arith, true, if◌then◌else◌}
use emulebb_libpcpnatpmp.Wire.{Buffer}
use emulebb_libpcpnatpmp.Data.{Flow}
use emulebb_libpcpnatpmp.Msg.Build.{
  Cursor, add_filter_option, add_prefer_failure_option, add_third_party_option, add_options,
}

abbrev pub filter_len : Flow → ℕ
filter_len f = if f.filter_option_present then 24 else 0

abbrev pub prefer_failure_len : Flow → ℕ
prefer_failure_len f = if f.pfailure_option_present then 4 else 0

-- From `p` on, the buffer holds the codes of the options that are present.
pub record HoldsOptions (f : Flow) (p : ℕ) (m : Buffer) : Type 0 where
  pub filter : f.filter_option_present ≡ true → m p ≡ 3
  pub prefer_failure : f.pfailure_option_present ≡ true → m (p + filter_len f) ≡ 2
  pub third_party :
      f.third_party_option_present ≡ true → m (p + filter_len f + prefer_failure_len f) ≡ 1

pub add_options-HoldsOptions : (f : Flow) (c : Cursor) → HoldsOptions f c.1 (add_options f c).0
unfolding add_options add_filter_option add_prefer_failure_option add_third_party_option
add_options-HoldsOptions f c = record {
  filter = λ e. ground arith;
  prefer_failure = λ e. ground arith;
  third_party = λ e. ground arith;
}

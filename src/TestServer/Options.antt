-- ===== src/TestServer/Options.antt =====
-- print_PCP_options of test-server/pcp-server.c and the loop that calls it.
use emulebb_libpcpnatpmp.Base.{
  ℕ, zero, suc, ◌+◌, ◌-◌, ◌%◌, Bool, true, false, ◌||◌, ltb, ◌==◌, if◌then◌else◌,
}
use emulebb_libpcpnatpmp.Wire.{Buffer, peek16}
use emulebb_libpcpnatpmp.Data.{opcode_map, pcp_max_len}
use emulebb_libpcpnatpmp.FlowMachine.Table.{res_success, res_malformed_request}
use emulebb_libpcpnatpmp.TestServer.{OptionsOccur, res_malformed_option}

-- What the loop over the options carries. `remaining` is remainingSize; a negative one ends the
-- loop as zero does, and is zero here. `overrun` says that more bytes were copied into
-- `metadata`, of PCP_MAX_LEN bytes, than it has.
pub record Walk : Type 0 where
  pub remaining : ℕ
  pub processed : ℕ
  pub opt_occ : OptionsOccur
  pub overrun : Bool

-- remain -= n; processed += n
abbrev pub advance : ℕ → Walk → Walk
advance n w = record w { remaining = w.remaining - n; processed = w.processed + n }

abbrev pub request_opcode : Buffer → ℕ
request_opcode m = m 1 % 128

unfoldable pub third_party_option : Walk → ℕ × Walk
third_party_option w =
    let next = record w { opt_occ = record w.opt_occ { third_party_occur = true } } in
    ((if w.opt_occ.third_party_occur then res_malformed_option else res_success), advance 20 next)

unfoldable pub prefer_fail_option : Buffer → Walk → ℕ × Walk
prefer_fail_option m w =
    let next = record w { opt_occ = record w.opt_occ { pfailure_occur = true } } in
    (
      (if w.opt_occ.pfailure_occur
          then res_malformed_option
          else if request_opcode m == opcode_map
          then res_success
          else res_malformed_request),
      advance 4 next,
    )

unfoldable pub filter_option : Buffer → Walk → ℕ × Walk
filter_option m w =
    ((if request_opcode m == opcode_map then res_success else res_malformed_request), advance 24 w)

unfoldable pub metadata_option : Buffer → Walk → ℕ × Walk
metadata_option m w =
    let len = peek16 m (w.processed + 2) in
    (res_success, advance (4 + len) (record w { overrun = w.overrun || ltb pcp_max_len len }))

-- The switch on the option's code. An unknown option ends the walk.
unfoldable pub print_pcp_options : Buffer → Walk → ℕ × Walk
print_pcp_options m w =
    let code = m w.processed in
    if code == 1
    then third_party_option w
    else if code == 2
    then prefer_fail_option m w
    else if code == 3
    then filter_option m w
    else if code == 99
    then (res_success, advance 8 w)
    else if code == 100
    then metadata_option m w
    else if code == 97 || code == 96
    then (res_success, advance 36 w)
    else if code == 98
    then (res_success, advance 516 w)
    else (res_success, record w { remaining = 0 })

-- while (remainingSize > 0) pcp_return_val = print_PCP_options(...), on fuel.
unfoldable pub print_options : ℕ → Buffer → ℕ × Walk → ℕ × Walk
print_options zero m (r, w) = (r, w)
print_options (suc n) m (r, w) = elim (w.remaining == 0) [
  | true ↦ (r, w)
  | false ↦ print_options n m (print_pcp_options m w)
]

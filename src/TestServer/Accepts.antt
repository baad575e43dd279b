-- ===== src/TestServer/Accepts.antt =====
-- The options that lib/src/pcp_msg.c appends to a MAP request, as print_PCP_options of
-- test-server/pcp-server.c walks over them.
use emulebb_libpcpnatpmp.Base.{◌≡◌, ◌≢◌, refl, ap, arith, Bool, true, false, if◌then◌else◌}
use emulebb_libpcpnatpmp.Wire.{Buffer}
use emulebb_libpcpnatpmp.Data.{Flow}
use emulebb_libpcpnatpmp.Msg.Lengths.{options_len}
use emulebb_libpcpnatpmp.Msg.Options.{HoldsOptions}
use emulebb_libpcpnatpmp.FlowMachine.Table.{res_success}
use emulebb_libpcpnatpmp.TestServer.{reset_option_occur}
use emulebb_libpcpnatpmp.TestServer.Options.{
  Walk, advance, request_opcode, print_pcp_options, third_party_option, prefer_fail_option,
  filter_option,
}
use emulebb_libpcpnatpmp.TestServer.Analysis.{analyze_options}
use emulebb_libpcpnatpmp.TestServer.Walks.{
  Reaches, here, onward, Reaches-trans, print_options_unique,
}

abbrev Passes : Buffer → Walk → Walk → Type 0
Passes m w w' = Reaches m (res_success, w) (res_success, w')

one_option :
    (b : Bool) (m : Buffer) (w w' : Walk)
    → (b ≡ true → w.remaining ≢ 0)
    → (b ≡ true → print_pcp_options m w ≡ (res_success, w'))
    → Passes m w (if b then w' else w)
one_option true m w w' more e =
    onward (res_success, w) (res_success, w') (more refl) (rw (e refl) (here (res_success, w')))
one_option false m w w' more e = here (res_success, w)

abbrev past_filter : Flow → Walk → Walk
past_filter f w = if f.filter_option_present then advance 24 w else w

abbrev past_prefer_fail : Flow → Walk → Walk
past_prefer_fail f w =
    if f.pfailure_option_present
    then advance 4 (record w { opt_occ = record w.opt_occ { pfailure_occur = true } })
    else w

abbrev past_third_party : Flow → Walk → Walk
past_third_party f w =
    if f.third_party_option_present
    then advance 20 (record w { opt_occ = record w.opt_occ { third_party_occur = true } })
    else w

module _ (f : Flow) (m : Buffer) (w : Walk) (op : request_opcode m ≡ 1)
    (clean : w.opt_occ ≡ reset_option_occur) (left : w.remaining ≡ options_len f)
    (h : HoldsOptions f w.processed m) where
  filter_met : Passes m w (past_filter f w)
  unfolding print_pcp_options filter_option
  filter_met =
      one_option f.filter_option_present m w (advance 24 w) (λ e n. ground arith)
        (λ e. ground (arith, h.filter e))

  abbrev w1 : Walk
  w1 = past_filter f w

  not_seen : w.opt_occ.pfailure_occur ≡ false
  unfolding reset_option_occur
  not_seen = ap (λ o. o.pfailure_occur) clean

  prefer_fail_met : Passes m w1 (past_prefer_fail f w1)
  unfolding print_pcp_options prefer_fail_option
  prefer_fail_met =
      one_option f.pfailure_option_present m w1 _ (λ e n. ground arith)
        (λ e. ground (arith, h.prefer_failure e, not_seen))

  abbrev w2 : Walk
  w2 = past_prefer_fail f w1

  not_seen_either : w.opt_occ.third_party_occur ≡ false
  unfolding reset_option_occur
  not_seen_either = ap (λ o. o.third_party_occur) clean

  third_party_met : Passes m w2 (past_third_party f w2)
  unfolding print_pcp_options third_party_option
  third_party_met =
      one_option f.third_party_option_present m w2 _ (λ e n. ground arith)
        (λ e. ground (arith, h.third_party e, not_seen_either))

  -- The options that a flow's MAP request has are all accepted.
  pub analyze_options-HoldsOptions : (analyze_options m w).0 ≡ res_success
  unfolding analyze_options
  analyze_options-HoldsOptions =
      ap (λ c. c.0)
        (print_options_unique m w.remaining (res_success, w) (res_success, past_third_party f w2)
          (Reaches-trans filter_met (Reaches-trans prefer_fail_met third_party_met)) (ground arith)
          (omega arith))

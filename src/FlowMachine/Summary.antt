-- ===== src/FlowMachine/Summary.antt =====
-- What pcp_eval_flow_state of lib/src/pcp_api.c says of a flow and its children.
use emulebb_libpcpnatpmp.Base.{
  ℕ, suc, ◌+◌, ◌≡◌, arith, Bool, true, false, ◌||◌, ◌&&◌, List, [], ◌∷◌, if◌then◌else◌,
}
use emulebb_libpcpnatpmp.Data.{
  FlowState, pfs_wait_after_short_life_error, pfs_wait_for_lifetime_renew, pfs_failed, FState,
  pcp_state_processing, pcp_state_succeeded, pcp_state_partial_result,
  pcp_state_short_lifetime_error, pcp_state_failed,
}
use emulebb_libpcpnatpmp.FlowMachine.Machine.{
  Tally, tally, no_tally, tally_state, pcp_eval_flow_state,
}

abbrev pub is_mapped : FlowState → Bool
is_mapped pfs_wait_for_lifetime_renew = true
is_mapped _ = false

abbrev pub is_failed : FlowState → Bool
is_failed pfs_failed = true
is_failed _ = false

-- The states in which the application has its answer.
abbrev pub is_final : FlowState → Bool
is_final pfs_wait_for_lifetime_renew = true
is_final pfs_failed = true
is_final pfs_wait_after_short_life_error = true
is_final _ = false

abbrev pub any_of : (FlowState → Bool) → List FlowState → Bool
any_of p [] = false
any_of p (s ∷ ss) = p s || any_of p ss

abbrev pub all_of : (FlowState → Bool) → List FlowState → Bool
all_of p [] = true
all_of p (s ∷ ss) = p s && all_of p ss

abbrev pub count_of : (FlowState → Bool) → List FlowState → ℕ
count_of p [] = 0
count_of p (s ∷ ss) = if p s then suc (count_of p ss) else count_of p ss

-- The state of the whole, from those of the parts.
abbrev pub summary : List FlowState → FState
summary ss =
    if any_of is_mapped ss
    then (if all_of is_final ss then pcp_state_succeeded else pcp_state_partial_result)
    else if all_of is_final ss
    then (if any_of is_failed ss then pcp_state_failed else pcp_state_short_lifetime_error)
    else pcp_state_processing

-- What a tally has seen, beside the flows still to come.
record Counts (ss : List FlowState) (t u : Tally) : Type 0 where
  exits : u.nexit_states ≡ t.nexit_states + count_of is_final ss
  mapped : u.fsuccess ≡ (t.fsuccess || any_of is_mapped ss)
  failed : u.ffailed ≡ (t.ffailed || any_of is_failed ss)
  open_ : u.fpresent_no_exit_state ≡ (if all_of is_final ss then t.fpresent_no_exit_state else true)

tally-Counts : (ss : List FlowState) (t : Tally) → Counts ss t (tally ss t)
unfolding tally
tally-Counts [] t = ground arith
tally-Counts (pfs_wait_for_lifetime_renew ∷ ss) t =
    let t' : Tally = record t { fsuccess = true; nexit_states = t.nexit_states + 1 } in
    ground (arith, tally-Counts ss t')
tally-Counts (pfs_failed ∷ ss) t =
    let t' : Tally = record t { ffailed = true; nexit_states = t.nexit_states + 1 } in
    ground (arith, tally-Counts ss t')
tally-Counts (pfs_wait_after_short_life_error ∷ ss) t =
    let t' : Tally = record t { nexit_states = t.nexit_states + 1 } in
    ground (arith, tally-Counts ss t')
tally-Counts (_ ∷ ss) t =
    let t' : Tally = record t { fpresent_no_exit_state = true } in
    ground (arith, tally-Counts ss t')

-- The count is that of the flows with an answer, and the state is success where one flow is mapped
-- and all are answered, a partial result where one is mapped and some are not answered, failure or
-- a short-lifetime error where none is mapped and all are answered, and processing otherwise.
pub pcp_eval_flow_state-summary :
    (ss : List FlowState) → pcp_eval_flow_state ss ≡ (count_of is_final ss, summary ss)
unfolding pcp_eval_flow_state tally_state
pcp_eval_flow_state-summary ss = ground (arith, tally-Counts ss no_tally)

-- ===== src/FlowMachine/Machine.antt =====
-- handle_flow_event of lib/src/pcp_event_handler.c and pcp_eval_flow_state of lib/src/pcp_api.c.
use emulebb_libpcpnatpmp.Base.{
  ℕ, zero, suc, ◌+◌, Bool, true, false, ◌||◌, ◌&&◌, not, List, [], ◌∷◌, Option, none, some, ◌==◌,
  if◌then◌else◌,
}
use emulebb_libpcpnatpmp.Wire.{In6Addr}
use emulebb_libpcpnatpmp.Data.{
  FlowState, pfs_wait_after_short_life_error, pfs_wait_for_lifetime_renew, pfs_failed, FlowEvent,
  fev_none, FState, pcp_state_processing, pcp_state_succeeded, pcp_state_partial_result,
  pcp_state_short_lifetime_error, pcp_state_failed, Flow, Server, RecvMsg,
}
use emulebb_libpcpnatpmp.FlowMachine.Table.{next_state, transition_handler, same_event}
use emulebb_libpcpnatpmp.FlowMachine.Send.{Io}
use emulebb_libpcpnatpmp.FlowMachine.Handlers.{run_handler}

-- What pcp_eval_flow_state counts over a flow and its children.
pub record Tally : Type 0 where
  pub nexit_states : ℕ
  pub fpresent_no_exit_state : Bool
  pub fsuccess : Bool
  pub ffailed : Bool

unfoldable pub tally : List FlowState → Tally → Tally
tally [] t = t
tally (pfs_wait_for_lifetime_renew ∷ ss) t =
    tally ss (record t { fsuccess = true; nexit_states = t.nexit_states + 1 })
tally (pfs_failed ∷ ss) t =
    tally ss (record t { ffailed = true; nexit_states = t.nexit_states + 1 })
tally (pfs_wait_after_short_life_error ∷ ss) t =
    tally ss (record t { nexit_states = t.nexit_states + 1 })
tally (_ ∷ ss) t = tally ss (record t { fpresent_no_exit_state = true })

abbrev pub no_tally : Tally
no_tally = record {
  nexit_states = 0;
  fpresent_no_exit_state = false;
  fsuccess = false;
  ffailed = false;
}

unfoldable pub tally_state : Tally → FState
tally_state t =
    if t.fpresent_no_exit_state
    then (if t.fsuccess then pcp_state_partial_result else pcp_state_processing)
    else if t.fsuccess
    then pcp_state_succeeded
    else if t.ffailed
    then pcp_state_failed
    else pcp_state_short_lifetime_error

-- The states of a flow and of the flows on its next_child chain: how many are final, and *fstate.
unfoldable pub pcp_eval_flow_state : List FlowState → ℕ × FState
unfolding tally tally_state
pcp_eval_flow_state ss = let t = tally ss no_tally in (t.nexit_states, tally_state t)

-- A run of the machine: it ends, or follows a null pointer, or its fuel runs out.
pub data Run : Type 0 where
  done : Flow → ℕ → Run
  null_dereference : Run
  out_of_fuel : Run

abbrev pub is_none : FlowEvent → Bool
is_none ev = same_event ev fev_none

-- What the handlers get from outside, by the number of the call.
abbrev pub World : Type 0
World = ℕ → Io

module _ (world : World) (s : Option Server) (msg : Option RecvMsg) where
  -- The `for (;;)` of handle_flow_event; `done` says how many handlers have been called.
  unfoldable pub event_loop : ℕ → ℕ → FlowState → FlowEvent → Flow → Run
  event_loop zero n cur ev f = out_of_fuel
  event_loop (suc fuel) n cur ev f = elim (next_state cur ev) [
    | none ↦ done f n
    | some next ↦
        let g : Flow = record f { state = next } in
        elim (transition_handler cur next) [
          | none ↦ done g n
          | some handler ↦ elim (run_handler handler (world n) s msg g) [
            | none ↦ null_dereference
            | some (h, ev') ↦
                let rest = event_loop fuel (n + 1) next ev' h in
                if is_none ev' then done h (n + 1) else rest
          ]
        ]
  ]

abbrev pub in6_equal : In6Addr → In6Addr → Bool
in6_equal a b = a.w0 == b.w0 && a.w1 == b.w1 && a.w2 == b.w2 && a.w3 == b.w3

abbrev pub fstate_num : FState → ℕ
fstate_num pcp_state_processing = 0
fstate_num pcp_state_succeeded = 1
fstate_num pcp_state_partial_result = 2
fstate_num pcp_state_short_lifetime_error = 3
fstate_num pcp_state_failed = 4

-- What flow_change_notify is called with, if it is called; `children` are the states of the other
-- flows on the chain.
unfoldable pub notification : List FlowState → Flow → Flow → Option FState
unfolding pcp_eval_flow_state
notification children before after =
    let old = (pcp_eval_flow_state (before.state ∷ children)).1 in
    let new = (pcp_eval_flow_state (after.state ∷ children)).1 in
    if not (fstate_num old == fstate_num new)
      || not (in6_equal before.ext_ip after.ext_ip)
      || not (before.ext_port == after.ext_port)
    then some new
    else none

-- No run takes more than four rounds that call a handler, and one that does not.
abbrev pub event_fuel : ℕ
event_fuel = 5

-- The loop of handle_flow_event, from the state of the flow on. The evaluations of the chain before and
-- after it are in System.
unfoldable pub handle_flow_event : World → Option Server → Option RecvMsg → FlowEvent → Flow → Run
unfolding event_loop
handle_flow_event world s msg ev f = event_loop world s msg event_fuel 0 f.state ev f

-- ===== src/FlowMachine/Rounds.antt =====
-- One round of the `for (;;)` of handle_flow_event in lib/src/pcp_event_handler.c.
use emulebb_libpcpnatpmp.Base.{
  ℕ, suc, ◌+◌, ◌≤◌, ◌≡◌, ◌≢◌, ◌∙◌, arith, Option, none, some, if◌then◌else◌,
}
use emulebb_libpcpnatpmp.Data.{FlowState, pfs_any, FlowEvent, Flow, Server, RecvMsg}
use emulebb_libpcpnatpmp.FlowMachine.Table.{Handler, next_state, transition_handler}
use emulebb_libpcpnatpmp.FlowMachine.Diagram.{entry, transition_handler-entry}
use emulebb_libpcpnatpmp.FlowMachine.Handlers.{run_handler}
use emulebb_libpcpnatpmp.FlowMachine.Outcomes.{Keeps, Emits, Quiet}
use emulebb_libpcpnatpmp.FlowMachine.Machine.{World, done, event_loop, is_none}
use emulebb_libpcpnatpmp.FlowMachine.Rest.{IsResting, EndsAtRest, goto, rest_here}

module _ (world : World) (s : Option Server) (msg : Option RecvMsg) where
  -- A round that calls a handler goes on as the handler's event says.
  pub loop_step :
      (P : FlowEvent → Type 0) (bound fuel n : ℕ) (cur next : FlowState) (ev : FlowEvent) (f : Flow)
      (h : Handler)
      → next_state cur ev ≡ some next
      → transition_handler cur next ≡ some h
      → Emits P (goto next f) (run_handler h (world n) s msg (goto next f))
      → ((g : Flow) (e : FlowEvent)
          → Keeps (goto next f) g
          → P e
          → EndsAtRest bound f
              (if is_none e then done g (n + 1) else event_loop world s msg fuel (n + 1) next e g))
      → EndsAtRest bound f (event_loop world s msg (suc fuel) n cur ev f)
  unfolding event_loop
  loop_step P bound fuel n cur next ev f h en eh (g, e, run, k, p) go =
      rw (en, event_loop) (rw (eh, event_loop) (rw (run, event_loop) (go g e k p)))

  pub loop_stop :
      (bound fuel n : ℕ) (cur next : FlowState) (ev : FlowEvent) (f : Flow)
      → next_state cur ev ≡ some next
      → transition_handler cur next ≡ none
      → IsResting next
      → n ≤ bound
      → EndsAtRest bound f (event_loop world s msg (suc fuel) n cur ev f)
  unfolding event_loop
  loop_stop bound fuel n cur next ev f en eh rest le =
      rw (en, event_loop)
        (rw (eh, event_loop) (rest_here bound n f (goto next f) next rest le (ground arith)))

  pub silent_round :
      (bound fuel n : ℕ) (cur next : FlowState) (ev : FlowEvent) (f : Flow) (h : Handler)
      → next_state cur ev ≡ some next
      → transition_handler cur next ≡ some h
      → Emits Quiet (goto next f) (run_handler h (world n) s msg (goto next f))
      → IsResting next
      → n + 1 ≤ bound
      → EndsAtRest bound f (event_loop world s msg (suc fuel) n cur ev f)
  silent_round bound fuel n cur next ev f h en eh em rest le =
      loop_step Quiet bound fuel n cur next ev f h en eh em
        (λ g e k p. rw p (rest_here bound (n + 1) f g next rest le k))

  -- The handler of the diagram, where its states are real.
  pub handler_of :
      (cur next : FlowState) {h : Option Handler}
      → cur ≢ pfs_any
      → next ≢ pfs_any
      → entry cur next ≡ h
      → transition_handler cur next ≡ h
  handler_of cur next c d e = transition_handler-entry cur next c d ∙ e

-- ===== src/FlowMachine/Termination.antt =====
-- The `for (;;)` of handle_flow_event in lib/src/pcp_event_handler.c ends, and where it ends.
use emulebb_libpcpnatpmp.Base.{
  ℕ, suc, ◌+◌, ◌≤◌, ◌≡◌, ◌≢◌, inl, inr, refl, arith, Option, none, some, Option-cases,
  if◌then◌else◌,
}
use emulebb_libpcpnatpmp.Data.{
  FlowState, pfs_any, pfs_idle, pfs_wait_for_server_init, pfs_send, pfs_wait_resp,
  pfs_wait_after_short_life_error, pfs_wait_for_lifetime_renew, pfs_send_renew, pfs_failed,
  FlowEvent, fev_msg_sent, fev_failed, fev_ignored, Flow, Server, RecvMsg,
}
use emulebb_libpcpnatpmp.FlowMachine.Table.{
  fhndl_send, fhndl_resend, fhndl_send_renew, fhndl_shortlifeerror, fhndl_received_success,
  fhndl_clear_timeouts, fhndl_waitresp, next_state,
}
use emulebb_libpcpnatpmp.FlowMachine.Diagram.{diagram, entry, next_state-diagram, diagram_of_found}
use emulebb_libpcpnatpmp.FlowMachine.Handlers.{run_handler}
use emulebb_libpcpnatpmp.FlowMachine.Outcomes.{
  Keeps, AfterSend, AfterRenew, AfterWait, send_handler-Emits, resend_handler-Emits,
  send_renew_handler-Emits, waitresp_handler-Emits, clear_timeouts_handler-Emits,
  shortlifeerror_handler-Emits, received_success_handler-Emits,
}
use emulebb_libpcpnatpmp.FlowMachine.Machine.{World, done, event_loop, is_none, handle_flow_event}
use emulebb_libpcpnatpmp.FlowMachine.Rest.{
  for_server, for_response, after_error, for_renewal, given_up, EndsAtRest, HasMsg, goto, rest_here,
  carry, msg_of, error-IsRes, granted-IsRes, never_idle, never_any, sent_only,
}
use emulebb_libpcpnatpmp.FlowMachine.Rounds.{loop_step, loop_stop, silent_round, handler_of}

module _ (world : World) (s : Option Server) (msg : Option RecvMsg) where
  failed_round :
      (bound fuel n : ℕ) (cur : FlowState) (ev : FlowEvent) (f : Flow)
      → cur ≢ pfs_any
      → next_state cur ev ≡ some pfs_failed
      → n + 1 ≤ bound
      → EndsAtRest bound f (event_loop world s msg (suc fuel) n cur ev f)
  unfolding run_handler
  failed_round bound fuel n cur ev f c en le =
      silent_round world s msg bound fuel n cur pfs_failed ev f fhndl_clear_timeouts en
        (handler_of world s msg cur pfs_failed c (λ e. cc) refl)
        (clear_timeouts_handler-Emits msg _) given_up le

  -- After a message is sent the response is awaited, unless its time has passed already.
  await_round :
      (bound fuel n : ℕ) (f : Flow)
      → n + 2 ≤ bound
      → EndsAtRest bound f (event_loop world s msg (suc (suc fuel)) n pfs_send fev_msg_sent f)
  unfolding run_handler
  await_round bound fuel n f le =
      loop_step world s msg AfterWait bound (suc fuel) n pfs_send pfs_wait_resp fev_msg_sent f
        fhndl_waitresp (next_state-diagram pfs_send fev_msg_sent (λ e. cc))
        (handler_of world s msg pfs_send pfs_wait_resp (λ e. cc) (λ e. cc) refl)
        (waitresp_handler-Emits (world n) _)
        (λ g e k. elim [
          | inl p ↦ rw p (
              carry k (
                failed_round bound fuel (n + 1) pfs_wait_resp fev_failed g (λ e. cc)
                  (next_state-diagram pfs_wait_resp fev_failed (λ e. cc)) (omega arith)))
          | inr p ↦ rw p (rest_here bound (n + 1) f g pfs_wait_resp for_response (omega arith) k)
        ])

  -- What follows the attempt to send.
  sent_round :
      (bound fuel n : ℕ) (f g : Flow) (e : FlowEvent)
      → Keeps (goto pfs_send f) g
      → AfterSend e
      → n + 3 ≤ bound
      → EndsAtRest bound f (
          if is_none e
          then done g (n + 1)
          else event_loop world s msg (suc (suc fuel)) (n + 1) pfs_send e g)
  sent_round bound fuel n f g e k (inl p) le = rw p (
      carry k (
        failed_round bound (suc fuel) (n + 1) pfs_send fev_failed g (λ e. cc)
          (next_state-diagram pfs_send fev_failed (λ e. cc)) (omega arith)))
  sent_round bound fuel n f g e k (inr (inl p)) le = rw p (
      carry k (
        loop_stop world s msg bound (suc fuel) (n + 1) pfs_send pfs_wait_for_lifetime_renew
          fev_ignored g (next_state-diagram pfs_send fev_ignored (λ e. cc))
          (handler_of world s msg pfs_send pfs_wait_for_lifetime_renew (λ e. cc) (λ e. cc) refl)
          for_renewal (omega arith)))
  sent_round bound fuel n f g e k (inr (inr p)) le =
      rw p (carry k (await_round bound fuel (n + 1) g (omega arith)))

  send_round :
      (bound fuel n : ℕ) (cur : FlowState) (ev : FlowEvent) (f : Flow)
      → cur ≢ pfs_any
      → next_state cur ev ≡ some pfs_send
      → n + 3 ≤ bound
      → EndsAtRest bound f (event_loop world s msg (suc (suc (suc fuel))) n cur ev f)
  unfolding run_handler
  send_round bound fuel n pfs_wait_resp ev f c en le =
      loop_step world s msg AfterSend bound (suc (suc fuel)) n pfs_wait_resp pfs_send ev f
        fhndl_resend en (handler_of world s msg pfs_wait_resp pfs_send c (λ e. cc) refl)
        (resend_handler-Emits (world n) s _) (λ g e k p. sent_round bound fuel n f g e k p le)
  send_round bound fuel n cur ev f c en le =
      loop_step world s msg AfterSend bound (suc (suc fuel)) n cur pfs_send ev f fhndl_send en
        (handler_of world s msg cur pfs_send c (λ e. cc) refl) (send_handler-Emits (world n) s _)
        (λ g e k p. sent_round bound fuel n f g e k p le)

  renew_round :
      (bound fuel n : ℕ) (cur : FlowState) (ev : FlowEvent) (f : Flow)
      → cur ≢ pfs_any
      → next_state cur ev ≡ some pfs_send_renew
      → n + 4 ≤ bound
      → EndsAtRest bound f (event_loop world s msg (suc (suc (suc (suc fuel)))) n cur ev f)
  unfolding run_handler
  renew_round bound fuel n cur ev f c en le =
      loop_step world s msg AfterRenew bound (suc (suc (suc fuel))) n cur pfs_send_renew ev f
        fhndl_send_renew en (handler_of world s msg cur pfs_send_renew c (λ e. cc) refl)
        (send_renew_handler-Emits (world n) s _)
        (λ g e k. elim [
          | inl p ↦ rw p (
              carry k (
                send_round bound fuel (n + 1) pfs_send_renew fev_failed g (λ e. cc)
                  (next_state-diagram pfs_send_renew fev_failed (λ e. cc)) (omega arith)))
          | inr p ↦ rw p (
              carry k (
                loop_stop world s msg bound (suc (suc fuel)) (n + 1) pfs_send_renew
                  pfs_wait_for_lifetime_renew fev_msg_sent g
                  (next_state-diagram pfs_send_renew fev_msg_sent (λ e. cc))
                  (handler_of world s msg pfs_send_renew pfs_wait_for_lifetime_renew (λ e. cc)
                    (λ e. cc) refl)
                  for_renewal (omega arith)))
        ])

  error_round :
      (cur : FlowState) (ev : FlowEvent) (f : Flow)
      → cur ≢ pfs_any
      → next_state cur ev ≡ some pfs_wait_after_short_life_error
      → (m : RecvMsg) × (msg ≡ some m)
      → EndsAtRest 4 f (event_loop world s msg 5 0 cur ev f)
  unfolding run_handler
  error_round cur ev f c en (m, e) =
      silent_round world s msg 4 4 0 cur pfs_wait_after_short_life_error ev f fhndl_shortlifeerror
        en (handler_of world s msg cur pfs_wait_after_short_life_error c (λ e. cc) refl)
        (rw e (shortlifeerror_handler-Emits (world 0) m _)) after_error (omega arith)

  granted_round :
      (cur : FlowState) (ev : FlowEvent) (f : Flow)
      → cur ≢ pfs_any
      → next_state cur ev ≡ some pfs_wait_for_lifetime_renew
      → entry cur pfs_wait_for_lifetime_renew ≡ some fhndl_received_success
      → (m : RecvMsg) × (msg ≡ some m)
      → EndsAtRest 4 f (event_loop world s msg 5 0 cur ev f)
  unfolding run_handler
  granted_round cur ev f c en h (m, e) =
      silent_round world s msg 4 4 0 cur pfs_wait_for_lifetime_renew ev f fhndl_received_success en
        (handler_of world s msg cur pfs_wait_for_lifetime_renew c (λ e. cc) h)
        (rw e (received_success_handler-Emits (world 0) m _)) for_renewal (omega arith)

  round_to :
      (next cur : FlowState) (ev : FlowEvent) (f : Flow)
      → cur ≢ pfs_any
      → HasMsg ev msg
      → next_state cur ev ≡ some next
      → diagram cur ev ≡ some next
      → EndsAtRest 4 f (event_loop world s msg 5 0 cur ev f)
  unfolding run_handler
  round_to pfs_any cur ev f c hm en ed = absurd (never_any cur ev ed)
  round_to pfs_idle cur ev f c hm en ed = absurd (never_idle cur ev ed)
  round_to pfs_wait_for_server_init cur ev f c hm en ed =
      silent_round world s msg 4 4 0 cur pfs_wait_for_server_init ev f fhndl_clear_timeouts en
        (handler_of world s msg cur pfs_wait_for_server_init c (λ e. cc) refl)
        (clear_timeouts_handler-Emits msg _) for_server (omega arith)
  round_to pfs_send cur ev f c hm en ed = send_round 4 2 0 cur ev f c en (omega arith)
  round_to pfs_wait_resp cur ev f c hm en ed =
      let (p, q) = sent_only cur ev ed in rw (p, q) (await_round 4 3 0 f (omega arith))
  round_to pfs_wait_after_short_life_error cur ev f c hm en ed =
      error_round cur ev f c en (msg_of ev msg (error-IsRes cur ev ed) hm)
  round_to pfs_wait_for_lifetime_renew pfs_wait_resp ev f c hm en ed =
      granted_round pfs_wait_resp ev f c en refl
        (msg_of ev msg (granted-IsRes _ ev ed (inl refl)) hm)
  round_to pfs_wait_for_lifetime_renew pfs_wait_for_lifetime_renew ev f c hm en ed =
      granted_round pfs_wait_for_lifetime_renew ev f c en refl
        (msg_of ev msg (granted-IsRes _ ev ed (inr refl)) hm)
  round_to pfs_wait_for_lifetime_renew cur ev f c hm en ed =
      loop_stop world s msg 4 4 0 cur pfs_wait_for_lifetime_renew ev f en
        (handler_of world s msg cur pfs_wait_for_lifetime_renew c (λ e. cc) refl) for_renewal
        (omega arith)
  round_to pfs_send_renew cur ev f c hm en ed = renew_round 4 1 0 cur ev f c en (omega arith)
  round_to pfs_failed cur ev f c hm en ed = failed_round 4 4 0 cur ev f c en (omega arith)

module _ (world : World) (s : Option Server) (msg : Option RecvMsg) (ev : FlowEvent)
    (f : Flow) where
  -- An event that has a transition in the flow's state, which is not the wildcard pfs_any, is
  -- handled by four handlers at most, without following a null message, whatever the network,
  -- the clock and the server do: the flow ends in a state in which it waits for a server, a
  -- response, the end of an error's time or a renewal, or has failed, and its identity is kept.
  -- A response event has to come with its message.
  pub handle_flow_event-EndsAtRest :
      f.state ≢ pfs_any
      → HasMsg ev msg
      → next_state f.state ev ≢ none
      → EndsAtRest 4 f (handle_flow_event world s msg ev f)
  unfolding handle_flow_event
  handle_flow_event-EndsAtRest real hm moves = elim (Option-cases (next_state f.state ev)) [
    | inl none_here ↦ absurd (moves none_here)
    | inr (next, en) ↦
        round_to world s msg next f.state ev f real hm en (diagram_of_found f.state ev next real en)
  ]

  -- An event that has none leaves the flow as it is.
  pub handle_flow_event-ignored :
      next_state f.state ev ≡ none → handle_flow_event world s msg ev f ≡ done f 0
  unfolding handle_flow_event event_loop
  handle_flow_event-ignored en = rw (en, event_loop)

-- ===== src/FlowMachine/Diagram.antt =====
-- The state diagram that the tables of lib/src/pcp_event_handler.c spell.
use emulebb_libpcpnatpmp.Base.{
  ℕ, Bool, false, ◌≡◌, ◌≢◌, refl, sym, ◌∙◌, arith, ◌||◌, Option, none, some, ◌==◌, leb,
  if◌then◌else◌,
}
use emulebb_libpcpnatpmp.Data.{
  FlowState, pfs_any, pfs_idle, pfs_wait_for_server_init, pfs_send, pfs_wait_resp,
  pfs_wait_after_short_life_error, pfs_wait_for_lifetime_renew, pfs_send_renew, pfs_failed,
  FlowEvent, fev_flow_timedout, fev_server_initialized, fev_send, fev_msg_sent, fev_failed,
  fev_none, fev_server_restarted, fev_ignored, fev_res,
}
use emulebb_libpcpnatpmp.FlowMachine.Table.{
  Handler, fhndl_send, fhndl_resend, fhndl_send_renew, fhndl_shortlifeerror, fhndl_received_success,
  fhndl_clear_timeouts, fhndl_waitresp, next_state, transition_handler,
}

-- What a result code means to a client, after RFC 6887, section 7.4. Code 6 is MALFORMED_OPTION, an
-- error of a long lifetime.
pub data Reaction : Type 0 where
  granted other_version short_error long_error unknown_code : Reaction

abbrev pub reaction : ℕ → Reaction
reaction r =
    if r == 0
    then granted
    else if r == 1
    then other_version
    else if r == 7 || r == 8 || r == 10 || r == 13
    then short_error
    else if leb r 12
    then long_error
    else unknown_code

-- A response is heard while one is awaited, and while a mapping is held.
abbrev pub respond : FlowState → Reaction → Option FlowState
respond pfs_wait_resp granted = some pfs_wait_for_lifetime_renew
respond pfs_wait_resp other_version = some pfs_wait_for_server_init
respond pfs_wait_resp short_error = some pfs_wait_after_short_life_error
respond pfs_wait_resp long_error = some pfs_failed
respond pfs_wait_for_lifetime_renew granted = some pfs_wait_for_lifetime_renew
respond pfs_wait_for_lifetime_renew other_version = some pfs_wait_for_server_init
respond pfs_wait_for_lifetime_renew short_error = some pfs_send_renew
respond pfs_wait_for_lifetime_renew long_error = some pfs_failed
respond _ _ = none

abbrev pub diagram : FlowState → FlowEvent → Option FlowState
diagram _ fev_send = some pfs_send
diagram _ fev_server_restarted = some pfs_send
diagram _ fev_none = none
diagram pfs_wait_for_lifetime_renew fev_failed = some pfs_send
diagram pfs_send_renew fev_failed = some pfs_send
diagram _ fev_failed = some pfs_failed
diagram pfs_wait_for_server_init fev_server_initialized = some pfs_send
diagram pfs_wait_resp fev_server_initialized = some pfs_send
diagram pfs_send fev_server_initialized = some pfs_send
diagram _ fev_server_initialized = none
diagram pfs_wait_resp fev_flow_timedout = some pfs_send
diagram pfs_send fev_flow_timedout = some pfs_send
diagram pfs_wait_after_short_life_error fev_flow_timedout = some pfs_send
diagram pfs_wait_for_lifetime_renew fev_flow_timedout = some pfs_send_renew
diagram pfs_send_renew fev_flow_timedout = some pfs_send_renew
diagram _ fev_flow_timedout = none
diagram pfs_send fev_msg_sent = some pfs_wait_resp
diagram pfs_send_renew fev_msg_sent = some pfs_wait_for_lifetime_renew
diagram _ fev_msg_sent = none
diagram pfs_send fev_ignored = some pfs_wait_for_lifetime_renew
diagram _ fev_ignored = none
diagram cur (fev_res r) = respond cur (reaction r)

-- The event of the result code MALFORMED_OPTION.
abbrev pub is_malformed_option : FlowEvent → Bool
is_malformed_option (fev_res r) = r == 6
is_malformed_option _ = false

pub next_state-diagram :
    (cur : FlowState) (ev : FlowEvent)
    → cur ≢ pfs_any
    → next_state cur ev ≡ (if is_malformed_option ev then none else diagram cur ev)
unfolding next_state
next_state-diagram pfs_idle fev_flow_timedout h = refl
next_state-diagram pfs_any _ h = absurd (h refl)
next_state-diagram _ (fev_res r) h = ground arith
next_state-diagram _ _ h = refl

some_unless :
    (b : Bool) (d : Option FlowState) (next : FlowState)
    → (if b then none else d) ≡ some next
    → d ≡ some next
some_unless b d next e = ground arith

pub diagram_of_found :
    (cur : FlowState) (ev : FlowEvent) (next : FlowState)
    → cur ≢ pfs_any
    → next_state cur ev ≡ some next
    → diagram cur ev ≡ some next
diagram_of_found cur ev next real e =
    some_unless (is_malformed_option ev) (diagram cur ev) next
      (sym (next_state-diagram cur ev real) ∙ e)

-- What a flow does on entering a state, from the state that it leaves.
abbrev pub entry : FlowState → FlowState → Option Handler
entry cur pfs_wait_resp = some fhndl_waitresp
entry pfs_wait_resp pfs_send = some fhndl_resend
entry _ pfs_send = some fhndl_send
entry _ pfs_wait_after_short_life_error = some fhndl_shortlifeerror
entry pfs_wait_resp pfs_wait_for_lifetime_renew = some fhndl_received_success
entry pfs_wait_for_lifetime_renew pfs_wait_for_lifetime_renew = some fhndl_received_success
entry _ pfs_wait_for_lifetime_renew = none
entry _ pfs_send_renew = some fhndl_send_renew
entry _ pfs_wait_for_server_init = some fhndl_clear_timeouts
entry _ pfs_failed = some fhndl_clear_timeouts
entry _ pfs_idle = none
entry _ pfs_any = none

-- The search in the transition table finds the handler of the diagram, for every two real states.
pub transition_handler-entry :
    (cur next : FlowState)
    → cur ≢ pfs_any
    → next ≢ pfs_any
    → transition_handler cur next ≡ entry cur next
unfolding transition_handler
transition_handler-entry pfs_any pfs_idle h k = absurd (h refl)
transition_handler-entry pfs_any _ h k = absurd (h refl)
transition_handler-entry _ pfs_any h k = absurd (k refl)
transition_handler-entry pfs_idle pfs_idle h k = refl
transition_handler-entry _ _ h k = refl

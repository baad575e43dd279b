-- ===== src/FlowMachine/Table.antt =====
-- The two tables of the flow state machine, flow_transitions and flow_events_sm of
-- lib/src/pcp_event_handler.c, and the searches that handle_flow_event makes in them.
use emulebb_libpcpnatpmp.Base.{
  ℕ, ◌+◌, Bool, ◌&&◌, ◌||◌, List, [], ◌∷◌, Option, none, some, ◌==◌, if◌then◌else◌,
}
use emulebb_libpcpnatpmp.Data.{
  FlowState, pfs_any, pfs_idle, pfs_wait_for_server_init, pfs_send, pfs_wait_resp,
  pfs_wait_after_short_life_error, pfs_wait_for_lifetime_renew, pfs_send_renew, pfs_failed,
  FlowEvent, fev_flow_timedout, fev_server_initialized, fev_send, fev_msg_sent, fev_failed,
  fev_none, fev_server_restarted, fev_ignored, fev_res,
}

-- Numbers of the enumerations; pfs_any, which is -1, comes last.
abbrev pub flow_state_num : FlowState → ℕ
flow_state_num pfs_idle = 0
flow_state_num pfs_wait_for_server_init = 1
flow_state_num pfs_send = 2
flow_state_num pfs_wait_resp = 3
flow_state_num pfs_wait_after_short_life_error = 4
flow_state_num pfs_wait_for_lifetime_renew = 5
flow_state_num pfs_send_renew = 6
flow_state_num pfs_failed = 7
flow_state_num pfs_any = 8

abbrev pub flow_event_num : FlowEvent → ℕ
flow_event_num fev_flow_timedout = 0
flow_event_num fev_server_initialized = 1
flow_event_num fev_send = 2
flow_event_num fev_msg_sent = 3
flow_event_num fev_failed = 4
flow_event_num fev_none = 5
flow_event_num fev_server_restarted = 6
flow_event_num fev_ignored = 7
flow_event_num (fev_res r) = 8 + r

abbrev pub same_state : FlowState → FlowState → Bool
same_state a b = flow_state_num a == flow_state_num b

abbrev pub same_event : FlowEvent → FlowEvent → Bool
same_event a b = flow_event_num a == flow_event_num b

abbrev pub matches_state : FlowState → FlowState → Bool
matches_state row cur = same_state row cur || same_state row pfs_any

pub data Handler : Type 0 where
  fhndl_send fhndl_resend fhndl_send_renew fhndl_shortlifeerror : Handler
  fhndl_received_success fhndl_clear_timeouts fhndl_waitresp : Handler

-- pcp_flow_state_trans_t: from, to, handler.
unfoldable pub flow_transitions : List (FlowState × FlowState × Handler)
flow_transitions =
    (pfs_any, pfs_wait_resp, fhndl_waitresp)
    ∷ (pfs_wait_resp, pfs_send, fhndl_resend)
    ∷ (pfs_any, pfs_send, fhndl_send)
    ∷ (pfs_any, pfs_wait_after_short_life_error, fhndl_shortlifeerror)
    ∷ (pfs_wait_resp, pfs_wait_for_lifetime_renew, fhndl_received_success)
    ∷ (pfs_any, pfs_send_renew, fhndl_send_renew)
    ∷ (pfs_wait_for_lifetime_renew, pfs_wait_for_lifetime_renew, fhndl_received_success)
    ∷ (pfs_any, pfs_wait_for_server_init, fhndl_clear_timeouts)
    ∷ (pfs_any, pfs_failed, fhndl_clear_timeouts)
    ∷ []

-- Result codes, PCP_RES_*.
abbrev pub res_success : ℕ
res_success = 0

abbrev pub res_unsupp_version : ℕ
res_unsupp_version = 1

abbrev pub res_not_authorized : ℕ
res_not_authorized = 2

abbrev pub res_malformed_request : ℕ
res_malformed_request = 3

abbrev pub res_unsupp_opcode : ℕ
res_unsupp_opcode = 4

abbrev pub res_unsupp_option : ℕ
res_unsupp_option = 5

abbrev pub res_network_failure : ℕ
res_network_failure = 7

abbrev pub res_no_resources : ℕ
res_no_resources = 8

abbrev pub res_unsupp_protocol : ℕ
res_unsupp_protocol = 9

abbrev pub res_user_ex_quota : ℕ
res_user_ex_quota = 10

abbrev pub res_cant_provide_ext : ℕ
res_cant_provide_ext = 11

abbrev pub res_address_mismatch : ℕ
res_address_mismatch = 12

abbrev pub res_exc_remote_peers : ℕ
res_exc_remote_peers = 13

-- pcp_flow_state_events_t: state, event, new state. The first row that matches counts.
unfoldable pub flow_events_sm : List (FlowState × FlowEvent × FlowState)
flow_events_sm =
    (pfs_any, fev_send, pfs_send)
    ∷ (pfs_wait_for_server_init, fev_server_initialized, pfs_send)
    ∷ (pfs_wait_resp, fev_res res_success, pfs_wait_for_lifetime_renew)
    ∷ (pfs_wait_resp, fev_res res_unsupp_version, pfs_wait_for_server_init)
    ∷ (pfs_wait_resp, fev_res res_network_failure, pfs_wait_after_short_life_error)
    ∷ (pfs_wait_resp, fev_res res_no_resources, pfs_wait_after_short_life_error)
    ∷ (pfs_wait_resp, fev_res res_exc_remote_peers, pfs_wait_after_short_life_error)
    ∷ (pfs_wait_resp, fev_res res_user_ex_quota, pfs_wait_after_short_life_error)
    ∷ (pfs_wait_resp, fev_flow_timedout, pfs_send)
    ∷ (pfs_wait_resp, fev_server_initialized, pfs_send)
    ∷ (pfs_send, fev_server_initialized, pfs_send)
    ∷ (pfs_send, fev_msg_sent, pfs_wait_resp)
    ∷ (pfs_send, fev_flow_timedout, pfs_send)
    ∷ (pfs_wait_after_short_life_error, fev_flow_timedout, pfs_send)
    ∷ (pfs_wait_for_lifetime_renew, fev_flow_timedout, pfs_send_renew)
    ∷ (pfs_wait_for_lifetime_renew, fev_res res_success, pfs_wait_for_lifetime_renew)
    ∷ (pfs_wait_for_lifetime_renew, fev_res res_unsupp_version, pfs_wait_for_server_init)
    ∷ (pfs_wait_for_lifetime_renew, fev_res res_network_failure, pfs_send_renew)
    ∷ (pfs_wait_for_lifetime_renew, fev_res res_no_resources, pfs_send_renew)
    ∷ (pfs_wait_for_lifetime_renew, fev_res res_exc_remote_peers, pfs_send_renew)
    ∷ (pfs_wait_for_lifetime_renew, fev_failed, pfs_send)
    ∷ (pfs_wait_for_lifetime_renew, fev_res res_user_ex_quota, pfs_send_renew)
    ∷ (pfs_send_renew, fev_msg_sent, pfs_wait_for_lifetime_renew)
    ∷ (pfs_send_renew, fev_flow_timedout, pfs_send_renew)
    ∷ (pfs_send_renew, fev_failed, pfs_send)
    ∷ (pfs_send, fev_ignored, pfs_wait_for_lifetime_renew)
    ∷ (pfs_any, fev_server_restarted, pfs_send)
    ∷ (pfs_any, fev_failed, pfs_failed)
    ∷ (pfs_wait_resp, fev_res res_not_authorized, pfs_failed)
    ∷ (pfs_wait_resp, fev_res res_malformed_request, pfs_failed)
    ∷ (pfs_wait_resp, fev_res res_unsupp_opcode, pfs_failed)
    ∷ (pfs_wait_resp, fev_res res_unsupp_option, pfs_failed)
    ∷ (pfs_wait_resp, fev_res res_unsupp_protocol, pfs_failed)
    ∷ (pfs_wait_resp, fev_res res_cant_provide_ext, pfs_failed)
    ∷ (pfs_wait_resp, fev_res res_address_mismatch, pfs_failed)
    ∷ (pfs_wait_for_lifetime_renew, fev_res res_not_authorized, pfs_failed)
    ∷ (pfs_wait_for_lifetime_renew, fev_res res_malformed_request, pfs_failed)
    ∷ (pfs_wait_for_lifetime_renew, fev_res res_unsupp_opcode, pfs_failed)
    ∷ (pfs_wait_for_lifetime_renew, fev_res res_unsupp_option, pfs_failed)
    ∷ (pfs_wait_for_lifetime_renew, fev_res res_unsupp_protocol, pfs_failed)
    ∷ (pfs_wait_for_lifetime_renew, fev_res res_cant_provide_ext, pfs_failed)
    ∷ (pfs_wait_for_lifetime_renew, fev_res res_address_mismatch, pfs_failed)
    ∷ []

unfoldable pub find_event :
    FlowState → FlowEvent → List (FlowState × FlowEvent × FlowState) → Option FlowState
find_event cur ev [] = none
find_event cur ev ((state, event, new_state) ∷ rows) =
    if matches_state state cur && same_event event ev
    then some new_state
    else find_event cur ev rows

unfoldable pub find_transition :
    FlowState → FlowState → List (FlowState × FlowState × Handler) → Option Handler
find_transition cur next [] = none
find_transition cur next ((from, to, handler) ∷ rows) =
    if matches_state from cur && same_state to next
    then some handler
    else find_transition cur next rows

-- The new state of an event, and the handler of a change of state.
unfoldable pub next_state : FlowState → FlowEvent → Option FlowState
unfolding flow_events_sm find_event
next_state cur ev = find_event cur ev flow_events_sm

unfoldable pub transition_handler : FlowState → FlowState → Option Handler
unfolding flow_transitions find_transition
transition_handler cur next = find_transition cur next flow_transitions

-- ===== src/Tests/Machine.antt =====
-- The theorems on the flow machine, at concrete values.
use Prim.Native.Nat.{max}
use emulebb_libpcpnatpmp.Base.{
  ℕ, ◌+◌, ◌*◌, ◌≤◌, ◌≡◌, ◌≢◌, inl, inr, refl, arith, none, some, true, pos, ◌<ℤ◌, ◌+ℤ◌, [], ◌∷◌,
}
use emulebb_libpcpnatpmp.Data.{
  err_success, pfs_idle, pfs_wait_resp, pfs_send, pfs_wait_for_lifetime_renew, fev_send, fev_none,
  fev_msg_sent, Flow,
}
use emulebb_libpcpnatpmp.FlowMachine.Table.{next_state, transition_handler}
use emulebb_libpcpnatpmp.FlowMachine.Timeout.{pcp_rt, pcp_retx_irt, pcp_rt_bounds}
use emulebb_libpcpnatpmp.FlowMachine.Diagram.{entry, transition_handler-entry}
use emulebb_libpcpnatpmp.FlowMachine.Send.{send_loop, pcp_flow_send_msg, send_built}
use emulebb_libpcpnatpmp.FlowMachine.Sending.{
  pcp_flow_send_msg-pcp_calls, pcp_flow_send_msg-natpmp_silent,
}
use emulebb_libpcpnatpmp.FlowMachine.Handlers.{
  received_success_handler, send_renew_handler, long_max, sent_ok,
}
use emulebb_libpcpnatpmp.FlowMachine.Machine.{handle_flow_event, pcp_eval_flow_state}
use emulebb_libpcpnatpmp.FlowMachine.Rest.{EndsAtRest}
use emulebb_libpcpnatpmp.FlowMachine.Termination.{handle_flow_event-EndsAtRest}
use emulebb_libpcpnatpmp.FlowMachine.Renewal.{
  IsLesser, IsMiddle, received_success_handler_bounds, send_renew_handler-expired,
}
use emulebb_libpcpnatpmp.FlowMachine.Summary.{
  count_of, is_final, summary, pcp_eval_flow_state-summary,
}
use emulebb_libpcpnatpmp.Msg.Build.{
  build_pcp_msg, build_pcp_request, build_pcp_map, keep_msg, build_pcp_options, add_options,
  add_prefer_failure_option, put_map_v1, put_request_header,
}
use emulebb_libpcpnatpmp.Msg.Lengths.{IsPcpRequest}
use emulebb_libpcpnatpmp.Msg.Natpmp.{IsUnsupported}
use emulebb_libpcpnatpmp.Tests.{map_flow, peer_flow, pcp_server, natpmp_server, test_msg, io_at}

pcp_rt_example :
    (7 * max (4000 * 2) pcp_retx_irt ≤ 8 * pcp_rt 500 4000 + 8)
    × (8 * pcp_rt 500 4000 ≤ 9 * max (4000 * 2) pcp_retx_irt)
pcp_rt_example = pcp_rt_bounds 500 4000 (omega arith)

transition_handler_example :
    transition_handler pfs_wait_resp pfs_send ≡ entry pfs_wait_resp pfs_send
transition_handler_example = transition_handler-entry pfs_wait_resp pfs_send (λ e. cc) (λ e. cc)

abbrev left_over : ℕ
left_over = 60

map_IsPcpRequest : IsPcpRequest pcp_server map_flow
map_IsPcpRequest = record { version = inr refl; operation = inl refl }

pcp_calls_example : 1 ≤ (pcp_flow_send_msg (io_at 7) pcp_server map_flow).calls
pcp_calls_example = pcp_flow_send_msg-pcp_calls (io_at 7) pcp_server map_flow map_IsPcpRequest

peer_IsUnsupported : IsUnsupported peer_flow
peer_IsUnsupported = ground arith

natpmp_silent_example :
    ((pcp_flow_send_msg (io_at 7) natpmp_server peer_flow).errno ≡ err_success)
    × ((pcp_flow_send_msg (io_at 7) natpmp_server peer_flow).calls ≡ 0)
natpmp_silent_example =
    pcp_flow_send_msg-natpmp_silent (io_at 7) natpmp_server peer_flow refl peer_IsUnsupported refl

idle_can_send : next_state pfs_idle fev_send ≢ none
unfolding next_state
idle_can_send e = ground arith

handle_flow_event_example :
    EndsAtRest 4 map_flow
      (handle_flow_event (λ n. io_at n) (some pcp_server) none fev_send map_flow)
handle_flow_event_example =
    handle_flow_event-EndsAtRest (λ n. io_at n) (some pcp_server) none fev_send map_flow (λ e. cc)
      tt idle_can_send

received_success_example :
    (g : Flow) × (received_success_handler (io_at 60) (some test_msg) map_flow ≡ some (g, fev_none))
    × IsLesser (test_msg.received_time +ℤ pos test_msg.recv_lifetime) long_max g.recv_lifetime
    × IsMiddle (io_at 60).now.tv_sec g.recv_lifetime g.timeout.tv_sec
unfolding ◌+ℤ◌
received_success_example =
    received_success_handler_bounds (io_at 60) test_msg map_flow (omega arith) (omega arith)
      (omega arith)

renew_sent : sent_ok (pcp_flow_send_msg (io_at 60) pcp_server map_flow) ≡ true
unfolding pcp_flow_send_msg send_built send_loop build_pcp_msg build_pcp_request build_pcp_map
    keep_msg build_pcp_options add_options add_prefer_failure_option put_map_v1 put_request_header
renew_sent = refl

send_renew_example :
    (g : Flow) × (send_renew_handler (io_at 60) (some pcp_server) map_flow ≡ some (g, fev_msg_sent))
    × (g.timeout.tv_sec <ℤ (io_at 60).now.tv_sec)
send_renew_example =
    send_renew_handler-expired (io_at 60) pcp_server map_flow renew_sent (omega arith)

summary_example : pcp_eval_flow_state (pfs_send ∷ pfs_wait_for_lifetime_renew ∷ []) ≡ (
  count_of is_final (pfs_send ∷ pfs_wait_for_lifetime_renew ∷ []),
  summary (pfs_send ∷ pfs_wait_for_lifetime_renew ∷ []),
)
summary_example = pcp_eval_flow_state-summary (pfs_send ∷ pfs_wait_for_lifetime_renew ∷ [])

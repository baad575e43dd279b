-- ===== src/ServerMachine/Dispatch.antt =====
-- Which handler run_server_state_machine of lib/src/pcp_event_handler.c calls.
use emulebb_libpcpnatpmp.Base.{◌≡◌, arith, some}
use emulebb_libpcpnatpmp.Data.{
  ServerState, pss_allocated, pss_ping, pss_wait_ping_resp, pss_version_negotiation,
  pss_send_all_msgs, pss_wait_io, pss_wait_io_calc_nearest_timeout, pss_server_restart,
  pss_server_reping, pss_set_not_working, pss_not_working, PcpEvent, pcpe_timeout, pcpe_io_event,
  pcpe_terminate,
}
use emulebb_libpcpnatpmp.ServerMachine.Table.{
  ServerHandler, pcp_terminate_server, handle_server_ping, handle_wait_ping_resp_timeout,
  handle_wait_ping_resp_recv, handle_version_negotiation, handle_send_all_msgs,
  handle_wait_io_receive_msg, handle_wait_io_timeout, handle_server_restart, handle_server_reping,
  handle_server_set_not_working, handle_server_not_working, ignore_events,
  log_unexepected_state_event, server_handler,
}

-- What a server does with an event in a state. Only the two states that wait tell the events apart,
-- beside the termination.
abbrev pub reaction_of : ServerState → PcpEvent → ServerHandler
reaction_of _ pcpe_terminate = pcp_terminate_server
reaction_of pss_allocated _ = ignore_events
reaction_of pss_ping _ = handle_server_ping
reaction_of pss_wait_ping_resp pcpe_timeout = handle_wait_ping_resp_timeout
reaction_of pss_wait_ping_resp pcpe_io_event = handle_wait_ping_resp_recv
reaction_of pss_version_negotiation _ = handle_version_negotiation
reaction_of pss_send_all_msgs _ = handle_send_all_msgs
reaction_of pss_wait_io pcpe_timeout = handle_wait_io_timeout
reaction_of pss_wait_io pcpe_io_event = handle_wait_io_receive_msg
reaction_of pss_wait_io_calc_nearest_timeout _ = handle_wait_io_timeout
reaction_of pss_server_restart _ = handle_server_restart
reaction_of pss_server_reping _ = handle_server_reping
reaction_of pss_set_not_working _ = handle_server_set_not_working
reaction_of pss_not_working _ = handle_server_not_working
reaction_of _ _ = log_unexepected_state_event

-- The search in server_sm finds a handler for every state and event, and it is the one of this
-- description.
pub server_handler-reaction_of :
    (cur : ServerState) (ev : PcpEvent) → server_handler cur ev ≡ some (reaction_of cur ev)
unfolding server_handler
server_handler-reaction_of cur ev = ground arith

-- ===== src/ServerMachine/Safety.antt =====
-- The handlers of the server state machine in lib/src/pcp_event_handler.c follow no pointer to
-- nothing, and lead to the states that are told here.
pub mod Broadcast
pub mod Ping
pub mod Rounds
pub mod Negotiation
pub mod Receive
pub mod Delivery
pub mod Machine
use emulebb_libpcpnatpmp.Base.{Bool, true, false}
use emulebb_libpcpnatpmp.Data.{
  ServerState, pss_allocated, pss_ping, pss_wait_ping_resp, pss_version_negotiation,
  pss_send_all_msgs, pss_wait_io, pss_wait_io_calc_nearest_timeout, pss_server_restart,
  pss_server_reping, pss_set_not_working, pss_not_working, PcpEvent,
}
use emulebb_libpcpnatpmp.ServerMachine.Table.{
  ServerHandler, pcp_terminate_server, handle_server_ping, handle_wait_ping_resp_timeout,
  handle_wait_ping_resp_recv, handle_version_negotiation, handle_send_all_msgs,
  handle_wait_io_receive_msg, handle_wait_io_timeout, handle_server_restart, handle_server_reping,
  handle_server_set_not_working, handle_server_not_working, ignore_events,
  log_unexepected_state_event, same_server_state,
}
use emulebb_libpcpnatpmp.ServerMachine.Dispatch.{reaction_of}

-- The states that a handler leads to, from the server's state.
abbrev pub leads_to : ServerState → ServerHandler → ServerState → Bool
leads_to cur pcp_terminate_server pss_allocated = true
leads_to cur handle_server_ping pss_wait_ping_resp = true
leads_to cur handle_server_ping pss_ping = true
leads_to cur handle_wait_ping_resp_timeout pss_wait_ping_resp = true
leads_to cur handle_wait_ping_resp_timeout pss_ping = true
leads_to cur handle_wait_ping_resp_timeout pss_set_not_working = true
leads_to cur handle_wait_ping_resp_recv pss_send_all_msgs = true
leads_to cur handle_wait_ping_resp_recv pss_version_negotiation = true
leads_to cur handle_wait_ping_resp_recv pss_set_not_working = true
leads_to cur handle_wait_ping_resp_recv pss_server_restart = true
leads_to cur handle_version_negotiation pss_wait_ping_resp = true
leads_to cur handle_version_negotiation pss_ping = true
leads_to cur handle_version_negotiation pss_set_not_working = true
leads_to cur handle_send_all_msgs pss_wait_io_calc_nearest_timeout = true
leads_to cur handle_wait_io_receive_msg pss_wait_io_calc_nearest_timeout = true
leads_to cur handle_wait_io_receive_msg pss_version_negotiation = true
leads_to cur handle_wait_io_receive_msg pss_set_not_working = true
leads_to cur handle_wait_io_receive_msg pss_server_restart = true
leads_to cur handle_wait_io_timeout pss_wait_io = true
leads_to cur handle_server_restart pss_wait_io_calc_nearest_timeout = true
leads_to cur handle_server_reping pss_ping = true
leads_to cur handle_server_set_not_working pss_not_working = true
leads_to cur handle_server_not_working pss_not_working = true
leads_to cur handle_server_not_working pss_server_restart = true
leads_to cur handle_server_not_working pss_server_reping = true
leads_to cur ignore_events next = same_server_state next cur
leads_to cur log_unexepected_state_event pss_set_not_working = true
leads_to _ _ _ = false

-- The state diagram of a server.
abbrev pub may_enter : ServerState → PcpEvent → ServerState → Bool
may_enter cur ev next = leads_to cur (reaction_of cur ev) next

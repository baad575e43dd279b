-- ===== src/ServerMachine/Table.antt =====
-- The table server_sm of lib/src/pcp_event_handler.c, and the search that run_server_state_machine
-- makes in it.
use emulebb_libpcpnatpmp.Base.{
  ℕ, Bool, ◌&&◌, ◌||◌, List, [], ◌∷◌, Option, none, some, ◌==◌, if◌then◌else◌,
}
use emulebb_libpcpnatpmp.Data.{
  ServerState, pss_any, pss_unitialized, pss_allocated, pss_ping, pss_wait_ping_resp,
  pss_version_negotiation, pss_send_all_msgs, pss_wait_io, pss_wait_io_calc_nearest_timeout,
  pss_server_restart, pss_server_reping, pss_set_not_working, pss_not_working, PcpEvent, pcpe_any,
  pcpe_timeout, pcpe_io_event, pcpe_terminate,
}

-- Numbers of the enumerations; pss_any, which is -1, comes last.
abbrev pub server_state_num : ServerState → ℕ
server_state_num pss_unitialized = 0
server_state_num pss_allocated = 1
server_state_num pss_ping = 2
server_state_num pss_wait_ping_resp = 3
server_state_num pss_version_negotiation = 4
server_state_num pss_send_all_msgs = 5
server_state_num pss_wait_io = 6
server_state_num pss_wait_io_calc_nearest_timeout = 7
server_state_num pss_server_restart = 8
server_state_num pss_server_reping = 9
server_state_num pss_set_not_working = 10
server_state_num pss_not_working = 11
server_state_num pss_any = 12

abbrev pub pcp_event_num : PcpEvent → ℕ
pcp_event_num pcpe_any = 0
pcp_event_num pcpe_timeout = 1
pcp_event_num pcpe_io_event = 2
pcp_event_num pcpe_terminate = 3

pub data ServerHandler : Type 0 where
  pcp_terminate_server handle_server_ping handle_wait_ping_resp_timeout : ServerHandler
  handle_wait_ping_resp_recv handle_version_negotiation handle_send_all_msgs : ServerHandler
  handle_wait_io_receive_msg handle_wait_io_timeout handle_server_restart : ServerHandler
  handle_server_reping handle_server_set_not_working handle_server_not_working : ServerHandler
  ignore_events log_unexepected_state_event : ServerHandler

-- pcp_server_state_machine_t: state, event, handler.
unfoldable pub server_sm : List (ServerState × PcpEvent × ServerHandler)
server_sm =
    (pss_any, pcpe_terminate, pcp_terminate_server)
    ∷ (pss_ping, pcpe_any, handle_server_ping)
    ∷ (pss_wait_ping_resp, pcpe_timeout, handle_wait_ping_resp_timeout)
    ∷ (pss_wait_ping_resp, pcpe_io_event, handle_wait_ping_resp_recv)
    ∷ (pss_version_negotiation, pcpe_any, handle_version_negotiation)
    ∷ (pss_send_all_msgs, pcpe_any, handle_send_all_msgs)
    ∷ (pss_wait_io, pcpe_io_event, handle_wait_io_receive_msg)
    ∷ (pss_wait_io, pcpe_timeout, handle_wait_io_timeout)
    ∷ (pss_wait_io_calc_nearest_timeout, pcpe_any, handle_wait_io_timeout)
    ∷ (pss_server_restart, pcpe_any, handle_server_restart)
    ∷ (pss_server_reping, pcpe_any, handle_server_reping)
    ∷ (pss_set_not_working, pcpe_any, handle_server_set_not_working)
    ∷ (pss_not_working, pcpe_any, handle_server_not_working)
    ∷ (pss_allocated, pcpe_any, ignore_events)
    ∷ (pss_any, pcpe_any, log_unexepected_state_event)
    ∷ []

abbrev pub same_server_state : ServerState → ServerState → Bool
same_server_state a b = server_state_num a == server_state_num b

abbrev pub same_pcp_event : PcpEvent → PcpEvent → Bool
same_pcp_event a b = pcp_event_num a == pcp_event_num b

unfoldable pub find_server_handler :
    ServerState → PcpEvent → List (ServerState × PcpEvent × ServerHandler) → Option ServerHandler
find_server_handler cur ev [] = none
find_server_handler cur ev ((state, event, handler) ∷ rows) =
    if (same_server_state state cur || same_server_state state pss_any)
      && (same_pcp_event event pcpe_any || same_pcp_event event ev)
    then some handler
    else find_server_handler cur ev rows

-- The handler that run_server_state_machine calls.
unfoldable pub server_handler : ServerState → PcpEvent → Option ServerHandler
unfolding server_sm find_server_handler
server_handler cur ev = find_server_handler cur ev server_sm

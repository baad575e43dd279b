-- ===== src/ServerMachine/Machine.antt =====
-- run_server_state_machine of lib/src/pcp_event_handler.c: the handler that the table gives, and the
-- state that it returns.
use emulebb_libpcpnatpmp.Base.{ℕ, Option, none, some}
use emulebb_libpcpnatpmp.Data.{Server, ServerState, PcpEvent}
use emulebb_libpcpnatpmp.System.{Action, pure, ◌>>=◌, ◌>>◌, gettimeofday, load_server, store_server}
use emulebb_libpcpnatpmp.ServerMachine.Table.{
  ServerHandler, pcp_terminate_server, handle_server_ping, handle_wait_ping_resp_timeout,
  handle_wait_ping_resp_recv, handle_version_negotiation, handle_send_all_msgs,
  handle_wait_io_receive_msg, handle_wait_io_timeout, handle_server_restart, handle_server_reping,
  handle_server_set_not_working, handle_server_not_working, ignore_events,
  log_unexepected_state_event, server_handler,
}
use emulebb_libpcpnatpmp.ServerMachine.Simple.{
  Step, server_reping, terminate_server, ignored_event, unexpected_event,
}
use emulebb_libpcpnatpmp.ServerMachine.Broadcast.{
  send_all_msgs, server_restart, wait_io_timeout, server_set_not_working,
}
use emulebb_libpcpnatpmp.ServerMachine.Ping.{
  server_ping, wait_ping_resp_timeout, version_negotiation,
}
use emulebb_libpcpnatpmp.ServerMachine.Receive.{
  wait_ping_resp_recv, wait_io_receive_msg, server_not_working,
}

-- A handler that reads and writes nothing but the server.
unfoldable pub take_step : ℕ → (Server → Step) → Action ServerState
take_step i g = do s ← load_server i; let (st, t) = g s; store_server i t; pure st

unfoldable pub call_handler : ServerHandler → ℕ → Action ServerState
unfolding take_step
call_handler pcp_terminate_server i = take_step i terminate_server
call_handler handle_server_ping i = server_ping i
call_handler handle_wait_ping_resp_timeout i = wait_ping_resp_timeout i
call_handler handle_wait_ping_resp_recv i = wait_ping_resp_recv i
call_handler handle_version_negotiation i = version_negotiation i
call_handler handle_send_all_msgs i = send_all_msgs i
call_handler handle_wait_io_receive_msg i = wait_io_receive_msg i
call_handler handle_wait_io_timeout i = wait_io_timeout i
call_handler handle_server_restart i = server_restart i
call_handler handle_server_reping i = do now ← gettimeofday; take_step i (server_reping now)
call_handler handle_server_set_not_working i = server_set_not_working i
call_handler handle_server_not_working i = server_not_working i
call_handler ignore_events i = take_step i ignored_event
call_handler log_unexepected_state_event i = do
  now ← gettimeofday
  take_step i (unexpected_event now)

unfoldable pub enter_state : ℕ → ServerState → Action (Unit {0})
enter_state i st = do s ← load_server i; store_server i (record s { server_state = st })

unfoldable pub run_server_handler : ℕ → Option ServerHandler → Action (Unit {0})
unfolding call_handler enter_state
run_server_handler i none = pure tt
run_server_handler i (some h) = do st ← call_handler h i; enter_state i st

unfoldable pub run_server_state_machine : ℕ → PcpEvent → Action (Unit {0})
unfolding run_server_handler
run_server_state_machine i ev = do
  s ← load_server i
  run_server_handler i (server_handler s.server_state ev)

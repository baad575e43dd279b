-- ===== src/ServerMachine/Broadcast.antt =====
-- The handlers of the server state machine in lib/src/pcp_event_handler.c that go through all flows. A
-- handler gets the server's place in the array, and returns the state that the server is to go to.
use emulebb_libpcpnatpmp.Base.{ℕ, none, pos, ◌+ℤ◌, if◌then◌else◌}
use emulebb_libpcpnatpmp.TimeVal.{TimeVal, zero_time, is_zero_time, timeval_align}
use emulebb_libpcpnatpmp.Data.{
  ServerState, pss_wait_io, pss_wait_io_calc_nearest_timeout, pss_not_working,
  fev_server_initialized, fev_server_restarted, fev_failed,
}
use emulebb_libpcpnatpmp.System.{Action, pure, ◌>>=◌, ◌>>◌, gettimeofday, load_server, store_server}
use emulebb_libpcpnatpmp.System.Iterate.{flow_addresses, foreach, check_flow_timeout, send_to_all}

unfoldable pub set_next_timeout : ℕ → TimeVal → Action (Unit {0})
set_next_timeout i t = do s ← load_server i; store_server i (record s { next_timeout = t })

unfoldable pub set_timeout_now : ℕ → Action (Unit {0})
unfolding set_next_timeout
set_timeout_now i = do t ← gettimeofday; set_next_timeout i t

unfoldable pub send_all_msgs : ℕ → Action ServerState
unfolding set_timeout_now
send_all_msgs i = do
  send_to_all i fev_server_initialized
  set_timeout_now i
  pure pss_wait_io_calc_nearest_timeout

unfoldable pub server_restart : ℕ → Action ServerState
server_restart i = do
  send_to_all i fev_server_restarted
  s ← load_server i
  store_server i (record s { restart_flow_msg = none })
  set_timeout_now i
  pure pss_wait_io_calc_nearest_timeout

-- The sum of two times, field by field, and then aligned.
abbrev pub time_after : TimeVal → TimeVal → TimeVal
time_after t now =
    timeval_align (record { tv_sec = t.tv_sec +ℤ now.tv_sec; tv_usec = t.tv_usec +ℤ now.tv_usec })

unfoldable pub set_nearest : ℕ → TimeVal → Action (Unit {0})
set_nearest i t =
    if is_zero_time t
    then set_next_timeout i t
    else do now ← gettimeofday; set_next_timeout i (time_after t now)

-- All flows are checked, also those of other servers.
unfoldable pub wait_io_timeout : ℕ → Action ServerState
unfolding set_nearest
wait_io_timeout i = do
  flows ← flow_addresses
  t ← foreach check_flow_timeout flows zero_time
  set_nearest i t
  pure pss_wait_io

-- PCP_SERVER_DISCOVERY_RETRY_DELAY, in seconds
abbrev pub retry_delay : ℕ
retry_delay = 3600

unfoldable pub server_set_not_working : ℕ → Action ServerState
server_set_not_working i = do
  send_to_all i fev_failed
  now ← gettimeofday
  set_next_timeout i (record now { tv_sec = now.tv_sec +ℤ pos retry_delay })
  pure pss_not_working

-- ===== src/TestServer/Running.antt =====
-- The life of a test server, test-server/pcp-server.c: pcp_test_server_start, _is_running, _stop
-- and _pulse, and execPCPServer.
use emulebb_libpcpnatpmp.Base.{
  ℕ, ◌/◌, ◌%◌, ◌*◌, Bool, true, false, not, Option, none, some, List, [], ◌∷◌, ℤ, pos, negsuc, ◌+ℤ◌,
  ◌-ℤ◌, ◌==ℤ◌, ltb_ℤ, div_trunc, mod_trunc, ◌==◌, if◌then◌else◌,
}
use emulebb_libpcpnatpmp.TimeVal.{TimeVal, million, is_zero_time, timeval_comp, timeval_subtract}
use emulebb_libpcpnatpmp.Wire.{Buffer}
use emulebb_libpcpnatpmp.TestServer.{ServerInfo, TestServer, reset_option_occur}
use emulebb_libpcpnatpmp.TestServer.Analysis.{print_pcp_req}
use emulebb_libpcpnatpmp.TestServer.Response.{create_response}

-- What select and recvfrom report. `expired` has the time after the wait; a datagram has its
-- size, the buffer as recvfrom leaves it, and the time at which the response is made.
pub data Arrival : Type 0 where
  select_failed : Arrival
  expired : TimeVal → Arrival
  recv_failed : Arrival
  datagram : ℕ → Buffer → ℕ → Arrival

-- The system in one pulse: the time at its start, and what comes within a time of waiting.
pub record PulseIo : Type 0 where
  pub tod : TimeVal
  pub wait : TimeVal → Arrival

-- What a pulse returns, the datagram that it sends, and the server as it leaves it.
pub record Pulsed : Type 0 where
  pub ret : ℤ
  pub sent : Option (ℕ × Buffer)
  pub server : TestServer

-- A socket is opened, and bound, by the system.
unfoldable pub pcp_test_server_start : TimeVal → ServerInfo → TestServer
unfolding ◌+ℤ◌ div_trunc mod_trunc
pcp_test_server_start tod info =
    let usec = tod.tv_usec +ℤ info.tv.tv_usec in
    record {
      server_info = info;
      timeout_time = record {
        tv_sec = (tod.tv_sec +ℤ info.tv.tv_sec) +ℤ div_trunc usec million;
        tv_usec = mod_trunc usec million;
      };
      remaining_messages = if info.end_after_recv == 0 then negsuc 0 else pos info.end_after_recv;
      running = true;
    }

abbrev pub pcp_test_server_is_running : TestServer → Bool
pcp_test_server_is_running v = v.running

unfoldable pub pcp_test_server_stop : TestServer → TestServer
pcp_test_server_stop v = record v { running = false }

-- timeout_ms, as a time.
unfoldable pub of_milliseconds : ℤ → TimeVal
of_milliseconds (pos n) = record { tv_sec = pos (n / 1000); tv_usec = pos (n % 1000 * 1000) }
of_milliseconds (negsuc n) = record { tv_sec = pos 3600; tv_usec = pos 0 }

-- The shorter of the time left and of the time asked for, which counts unless it is negative.
unfoldable pub shorter_wait : ℤ → TimeVal → TimeVal
unfolding timeval_comp of_milliseconds
shorter_wait (pos n) end_time =
    let c = timeval_comp (of_milliseconds (pos n)) end_time in
    if ltb_ℤ c.order (pos 0) then c.left else c.right
shorter_wait (negsuc n) end_time = end_time

-- One message less to wait for, when they are counted.
unfoldable pub count_message : TestServer → TestServer
unfolding ◌-ℤ◌ pcp_test_server_stop
count_message v =
    let left = v.remaining_messages -ℤ pos 1 in
    let counted = record v { remaining_messages = left } in
    if ltb_ℤ (pos 0) v.remaining_messages
    then (if left ==ℤ pos 0 then pcp_test_server_stop counted else counted)
    else v

-- A request received: it is analyzed, and its response has its size.
unfoldable pub answer_request : TestServer → ℕ → Buffer → ℕ → Pulsed
unfolding print_pcp_req create_response count_message reset_option_occur
answer_request v size m time =
    let info = v.server_info in
    let analyzed = (print_pcp_req m size reset_option_occur info.server_version).0 in
    let code = if info.default_result_code == 255 then analyzed else info.default_result_code in
    record {
      ret = pos 1;
      sent = some (size, create_response time m code info);
      server = count_message v;
    }

unfoldable pub handle_arrival : TestServer → Arrival → Pulsed
unfolding answer_request pcp_test_server_stop timeval_comp
handle_arrival v select_failed = record { ret = negsuc 0; sent = none; server = v }
handle_arrival v (expired tod) =
    let c = timeval_comp tod v.timeout_time in
    let late = record v { timeout_time = c.right } in
    record {
      ret = pos 0;
      sent = none;
      server =
          if is_zero_time v.server_info.tv
          then v
          else if ltb_ℤ c.order (pos 0)
          then late
          else pcp_test_server_stop late;
    }
handle_arrival v recv_failed = record { ret = negsuc 0; sent = none; server = v }
handle_arrival v (datagram size m time) = answer_request v size m time

-- timeval_subtract aligns the server's timeout_time in its place.
unfoldable pub pcp_test_server_pulse : PulseIo → ℤ → TestServer → Pulsed
unfolding handle_arrival shorter_wait of_milliseconds timeval_subtract pcp_test_server_stop
pcp_test_server_pulse io timeout_ms v =
    let d = timeval_subtract v.timeout_time io.tod in
    let aligned = record v { timeout_time = d.left } in
    if not v.running
    then record { ret = pos 0; sent = none; server = v }
    else if is_zero_time v.server_info.tv
    then handle_arrival v (io.wait (shorter_wait timeout_ms (of_milliseconds timeout_ms)))
    else if d.negative
    then record { ret = pos 0; sent = none; server = pcp_test_server_stop aligned }
    else handle_arrival aligned (io.wait (shorter_wait timeout_ms d.result))

-- The responses that execPCPServer sends while it is given what each of its pulses meets, and
-- the server as it is left.
pub record Executed : Type 0 where
  pub responses : List (ℕ × Buffer)
  pub server : TestServer

abbrev pub without_response : TestServer → Executed
without_response v = record { responses = []; server = v }

unfoldable pub with_response : Option (ℕ × Buffer) → Executed → Executed
with_response none e = e
with_response (some r) e = record e { responses = r ∷ e.responses }

-- A pulse that fails stops the server.
unfoldable pub after_pulse : Pulsed → Executed → Executed
unfolding pcp_test_server_stop with_response
after_pulse p later =
    if ltb_ℤ p.ret (pos 0)
    then without_response (pcp_test_server_stop p.server)
    else with_response p.sent later

unfoldable pub exec_pulses : List PulseIo → TestServer → Executed
unfolding pcp_test_server_pulse after_pulse
exec_pulses [] v = without_response v
exec_pulses (io ∷ rest) v =
    let p = pcp_test_server_pulse io (negsuc 0) v in
    let later = exec_pulses rest p.server in
    if pcp_test_server_is_running v then after_pulse p later else without_response v

unfoldable pub exec_pcp_server : List PulseIo → TimeVal → ServerInfo → Executed
unfolding exec_pulses pcp_test_server_start
exec_pcp_server ios tod info = exec_pulses ios (pcp_test_server_start tod info)

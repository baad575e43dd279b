-- ===== src/Pulse.antt =====
-- pcp_pulse of lib/src/pcp_event_handler.c, with hserver_iter and read_msg: a message is received,
-- parsed and given to its server, and then the timeouts of all servers are handled.
pub mod Safety
use emulebb_libpcpnatpmp.Base.{
  ℕ, zero, suc, ◌+◌, ◌*◌, Bool, true, false, ◌&&◌, ◌||◌, List, [], ◌∷◌, Option, none, some, ℤ, pos,
  ◌+ℤ◌, div_trunc, ltb, ◌==◌, length, if◌then◌else◌,
}
use emulebb_libpcpnatpmp.TimeVal.{TimeVal, zero_time, is_zero_time, timeval_subtract, times_million}
use emulebb_libpcpnatpmp.Wire.{Buffer, In6Addr, zero_in6, zero_buffer}
use emulebb_libpcpnatpmp.Data.{
  PcpErrno, err_success, zero_key, RecvMsg, Server, ServerState, PcpEvent, pcpe_timeout,
  pcpe_io_event,
}
use emulebb_libpcpnatpmp.Msg.Parse.{validate_pcp_msg, parse_response}
use emulebb_libpcpnatpmp.ClientDb.Key.{in6_beq}
use emulebb_libpcpnatpmp.ClientDb.Servers.{is_unitialized, get_pcp_server_by_ip}
use emulebb_libpcpnatpmp.System.{
  Sys, Action, pure, ◌>>=◌, ◌>>◌, gettimeofday, load_server, store_server,
}
use emulebb_libpcpnatpmp.System.Iterate.{sooner}
use emulebb_libpcpnatpmp.ServerMachine.Table.{same_pcp_event}
use emulebb_libpcpnatpmp.ServerMachine.Receive.{the_msg, put_msg}
use emulebb_libpcpnatpmp.ServerMachine.Machine.{run_server_state_machine}

-- The `while (1)` of hserver_iter: the time that is left, or the current time if there is no timeout.
-- It is left undone when the fuel is used up.
unfoldable pub timeouts_loop : ℕ → ℕ → Action (Option TimeVal)
timeouts_loop zero i = pure none
timeouts_loop (suc fuel) i = do
  let again = timeouts_loop fuel i
  ctv ← gettimeofday
  s ← load_server i
  if is_zero_time s.next_timeout then pure (some ctv) else do
    let d = timeval_subtract s.next_timeout ctv
    store_server i (record s { next_timeout = d.left })
    if d.negative then (do run_server_state_machine i pcpe_timeout; again) else pure (some d.result)

-- The nearest timeout so far, and the server's; none where the loop was left undone.
unfoldable pub merge_timeout : Server → Option TimeVal → TimeVal → TimeVal
merge_timeout s none t = t
merge_timeout s (some ctv) t = if is_zero_time s.next_timeout then t else sooner ctv t

unfoldable pub handle_server : ℕ → PcpEvent → ℕ → TimeVal → Action TimeVal
unfolding timeouts_loop merge_timeout
handle_server fuel ev i t = do
  (if same_pcp_event ev pcpe_timeout then pure tt else run_server_state_machine i ev)
  left ← timeouts_loop fuel i
  s ← load_server i
  pure (merge_timeout s left t)

-- A server that is not in use is passed over.
unfoldable pub hserver_iter : ℕ → PcpEvent → ℕ → TimeVal → Action TimeVal
unfolding handle_server
hserver_iter fuel ev i t = do
  s ← load_server i
  if is_unitialized s.server_state then pure t else handle_server fuel ev i t

unfoldable pub foreach_server : ℕ → ℕ → ℕ → TimeVal → Action TimeVal
unfolding hserver_iter
foreach_server fuel zero i t = pure t
foreach_server fuel (suc n) i t = do
  r ← hserver_iter fuel pcpe_timeout i t
  foreach_server fuel n (i + 1) r

unfoldable pub count_servers : Action ℕ
count_servers c = some (length c.servers, c)

-- What pcp_socket_recvfrom gives: at most PCP_MAX_LEN bytes, the two addresses and the time.
pub record Datagram : Type 0 where
  pub len : ℕ
  pub bytes : Buffer
  pub from_ip : In6Addr
  pub from_scope : ℕ
  pub to_ip : In6Addr
  pub to_scope : ℕ
  pub time : ℤ

-- The message as read_msg clears it.
abbrev pub cleared_msg : RecvMsg
cleared_msg = record {
  kd = zero_key;
  assigned_ext_ip = zero_in6;
  assigned_ext_port = 0;
  recv_version = 0;
  recv_epoch = 0;
  recv_lifetime = 0;
  recv_result = 0;
  received_time = pos 0;
  pcp_msg_len = 0;
  pcp_msg_buffer = zero_buffer;
}

-- The message after read_msg, with the time of its arrival.
abbrev pub read_msg : Datagram → RecvMsg
read_msg d = record cleared_msg {
  received_time = d.time;
  pcp_msg_len = d.len;
  pcp_msg_buffer = d.bytes;
}

-- IPV6_IS_ADDR_ANY of lib/src/pcp_utils.h: `::` or `::ffff:0.0.0.0`
abbrev pub is_addr_any : In6Addr → Bool
is_addr_any a = a.w0 == 0 && a.w1 == 0 && (a.w2 == 0 || a.w2 == 65535) && a.w3 == 0

-- The addresses of the key, and the nonce that a response before version 2 does not carry.
unfoldable pub complete_key : Datagram → Server → RecvMsg → RecvMsg
complete_key d s m =
    let any = is_addr_any d.to_ip in
    record m {
      kd = record m.kd {
        pcp_server_ip = s.pcp_ip;
        src_ip = if any then s.src_ip else d.to_ip;
        scope_id = if any then d.from_scope else d.to_scope;
        nonce = if ltb m.recv_version 2 then s.nonce else m.kd.nonce;
      };
    }

abbrev pub is_success : PcpErrno → Bool
is_success err_success = true
is_success _ = false

module _ (is_linklocal : In6Addr → Bool) where
  unfoldable pub server_of : Datagram → Action (Option ℕ)
  server_of d c = some (get_pcp_server_by_ip is_linklocal d.from_ip d.from_scope c.servers, c)

  unfoldable pub give_to_server : ℕ → Datagram → RecvMsg → Option ℕ → Action (Unit {0})
  unfolding complete_key
  give_to_server fuel d m none = put_msg m
  give_to_server fuel d m (some i) = do
    s ← load_server i
    put_msg (complete_key d s m)
    t ← hserver_iter fuel pcpe_io_event i zero_time
    pure tt

  unfoldable pub receive : ℕ → Option Datagram → Action (Unit {0})
  unfolding give_to_server server_of
  receive fuel none = put_msg cleared_msg
  receive fuel (some d) = do
    let m = read_msg d
    let (errno, parsed) = parse_response m
    if validate_pcp_msg m
        then (if is_success errno
            then (do found ← server_of d; give_to_server fuel d parsed found)
            else put_msg parsed)
        else put_msg m

  -- The timeout that `*next_timeout` points to, as it is found and as it is left. The value returned
  -- is this one in milliseconds.
  unfoldable pub pcp_pulse : ℕ → Option Datagram → TimeVal → Action TimeVal
  unfolding receive foreach_server count_servers
  pcp_pulse fuel d next_timeout = do
    receive fuel d
    n ← count_servers
    foreach_server fuel n 0 next_timeout

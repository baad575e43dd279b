-- ===== src/FlowMachine/Send.antt =====
-- Sending a flow's message: pcp_flow_send_msg of lib/src/pcp_event_handler.c and
-- pcp_flow_clear_msg_buf of lib/src/pcp_client_db.c, over what the outside gives.
use emulebb_libpcpnatpmp.Base.{
  ℕ, zero, suc, ◌+◌, ◌-◌, ◌≤◌, Bool, true, none, some, ℤ, pos, pos_part, ltb_ℤ, ◌==◌, if◌then◌else◌,
}
use emulebb_libpcpnatpmp.TimeVal.{TimeVal}
use emulebb_libpcpnatpmp.Data.{PcpErrno, err_success, err_send_failed, Flow, Server}
use emulebb_libpcpnatpmp.Msg.Build.{build_pcp_msg}

-- What one handler gets from outside: gettimeofday, rand, and what pcp_socket_sendto returns for
-- the bytes from an offset on. As documented it reports at most as many bytes as it is given.
pub record Io : Type 0 where
  pub now : TimeVal
  pub rand : ℕ
  pub sendto : ℕ → ℕ → ℤ
  pub sendto-le : (offset len : ℕ) → pos_part (sendto offset len) ≤ len

unfoldable pub pcp_flow_clear_msg_buf : Flow → Flow
pcp_flow_clear_msg_buf f = record f { pcp_msg_buffer = none; pcp_msg_len = 0 }

-- The loop over to_send_count: the error code, and how often the socket was called. Each call
-- sends one byte at least, so that `len` rounds are enough.
unfoldable pub send_loop : ℕ → Io → ℕ → ℕ → ℕ → PcpErrno × ℕ
send_loop zero io len to_send calls =
    if to_send == 0 then (err_success, calls) else (err_send_failed, calls)
send_loop (suc fuel) io len to_send calls =
    let ret = io.sendto (len - to_send) to_send in
    let rest = send_loop fuel io len (to_send - pos_part ret) (calls + 1) in
    if to_send == 0
    then (err_success, calls)
    else if ltb_ℤ (pos 0) ret
    then rest
    else (err_send_failed, calls + 1)

abbrev pub has_no_msg : Flow → Bool
has_no_msg f = elim f.pcp_msg_buffer [ none ↦ true | some _ ↦ f.pcp_msg_len == 0 ]

-- The message is built if there is none, or an empty one.
abbrev pub ensure_msg : Server → Flow → Flow
ensure_msg s f = if has_no_msg f then build_pcp_msg (some s) f else f

pub record Sent : Type 0 where
  pub errno : PcpErrno
  pub flow : Flow
  pub calls : ℕ

unfoldable pub send_built : Io → Flow → Sent
unfolding send_loop pcp_flow_clear_msg_buf
send_built io g =
    let (errno, calls) = send_loop g.pcp_msg_len io g.pcp_msg_len g.pcp_msg_len 0 in
    elim errno [
      | err_success ↦ record { errno = err_success; flow = pcp_flow_clear_msg_buf g; calls = calls }
      | _ ↦ record { errno = err_send_failed; flow = g; calls = calls }
    ]

unfoldable pub pcp_flow_send_msg : Io → Server → Flow → Sent
pcp_flow_send_msg io s f =
    let g = ensure_msg s f in
    let sent = send_built io g in
    elim g.pcp_msg_buffer [
      | none ↦ record { errno = err_send_failed; flow = g; calls = 0 }
      | some _ ↦ sent
    ]

-- ===== src/ServerMachine/Receive.antt =====
-- Received messages: server_process_rcvd_pcp_msg and the handlers of lib/src/pcp_event_handler.c that
-- call it. The message is the one of the context.
use emulebb_libpcpnatpmp.Base.{ℕ, Bool, Option, none, some, pos, ltb_ℤ, ◌==◌, if◌then◌else◌}
use emulebb_libpcpnatpmp.TimeVal.{timeval_comp}
use emulebb_libpcpnatpmp.Wire.{In6Addr}
use emulebb_libpcpnatpmp.Data.{
  Flow, fev_res, RecvMsg, Server, ServerState, pss_wait_ping_resp, pss_version_negotiation,
  pss_send_all_msgs, pss_wait_io, pss_wait_io_calc_nearest_timeout, pss_server_restart,
  pss_server_reping, pss_set_not_working, pss_not_working, opcode_announce,
}
use emulebb_libpcpnatpmp.Epoch.{compare_epochs}
use emulebb_libpcpnatpmp.FlowMachine.Table.{res_unsupp_version, res_address_mismatch}
use emulebb_libpcpnatpmp.ClientDb.Flows.{pcp_get_flow}
use emulebb_libpcpnatpmp.System.{
  Action, pure, ◌>>=◌, ◌>>◌, gettimeofday, load, load_server, store_server, send_event,
}
use emulebb_libpcpnatpmp.ServerMachine.Versions.{unsupp_version}
use emulebb_libpcpnatpmp.ServerMachine.Broadcast.{set_timeout_now, set_next_timeout}

-- The context's message.
unfoldable pub the_msg : Action RecvMsg
the_msg c = some (c.msg, c)

unfoldable pub put_msg : RecvMsg → Action (Unit {0})
put_msg m c = some (tt, record c { msg = m })

unfoldable pub find_flow : RecvMsg → Server → Action (Option ℕ)
find_flow m s c = some (pcp_get_flow m.kd s c.db, c)

-- ::ffff:0:0 with an IPv4 address
abbrev pub mapped_ip : ℕ → In6Addr
mapped_ip w = record { w0 = 0; w1 = 0; w2 = 65535; w3 = w }

abbrev pub is_announce : Flow → Bool
is_announce f = f.kd.operation == opcode_announce

-- The flow that an announcement of a NAT-PMP server answers.
unfoldable pub announced : Server → Option ℕ → Action (Option ℕ)
announced s none = pure none
announced s (some a) =
    if s.pcp_version == 0
    then (do f ← load a; pure (if is_announce f then some a else none))
    else pure none

-- The flow that a message is for. A NAT-PMP response carries no address of its own.
unfoldable pub flow_of_msg : ℕ → Server → RecvMsg → Action (Option ℕ)
unfolding announced put_msg find_flow
flow_of_msg i s m =
    if m.recv_version == 0
    then (if m.kd.operation == opcode_announce
        then (do
          store_server i (record s { natpmp_ext_addr = m.assigned_ext_ip.w3 })
          announced s s.ping_flow_msg)
        else (do
          put_msg (record m { assigned_ext_ip = mapped_ip s.natpmp_ext_addr })
          find_flow m s))
    else find_flow m s

unfoldable pub deliver : Option ℕ → Action (Option ℕ)
unfolding the_msg
deliver none = pure none
deliver (some a) = do m ← the_msg; st ← send_event a (fev_res m.recv_result) (some m); pure (some a)

unfoldable pub process_rcvd_pcp_msg : ℕ → Action (Option ℕ)
unfolding the_msg flow_of_msg deliver
process_rcvd_pcp_msg i = do s ← load_server i; m ← the_msg; found ← flow_of_msg i s m; deliver found

-- The server has restarted: its flows are sent again, but for the one that was heard.
unfoldable pub note_restart : ℕ → Option ℕ → Action ServerState
unfolding the_msg
note_restart i found = do
  m ← the_msg
  s ← load_server i
  store_server i
      (record s { epoch = m.recv_epoch; cepoch = m.received_time; restart_flow_msg = found })
  set_timeout_now i
  pure pss_server_restart

unfoldable pub heard : ℕ → Action ServerState
unfolding process_rcvd_pcp_msg note_restart the_msg
heard i = do
  found ← process_rcvd_pcp_msg i
  m ← the_msg
  s ← load_server i
  let (restarted, t) = compare_epochs m s
  store_server i t
  if restarted
      then note_restart i found
      else do set_timeout_now i; pure pss_wait_io_calc_nearest_timeout

unfoldable pub wait_io_receive_msg : ℕ → Action ServerState
unfolding heard the_msg
wait_io_receive_msg i = do
  m ← the_msg
  if m.recv_result == res_unsupp_version
      then (do
        set_timeout_now i
        s ← load_server i
        store_server i (unsupp_version m.recv_version s)
        pure pss_version_negotiation)
      else if m.recv_result == res_address_mismatch
      then (do set_timeout_now i; pure pss_set_not_working)
      else heard i

abbrev pub after_ping_resp : ServerState → ServerState
after_ping_resp pss_wait_io_calc_nearest_timeout = pss_send_all_msgs
after_ping_resp pss_wait_io = pss_wait_ping_resp
after_ping_resp st = st

unfoldable pub wait_ping_resp_recv : ℕ → Action ServerState
unfolding wait_io_receive_msg
wait_ping_resp_recv i = do st ← wait_io_receive_msg i; pure (after_ping_resp st)

unfoldable pub heard_again : ℕ → Action ServerState
unfolding process_rcvd_pcp_msg note_restart
heard_again i = do found ← process_rcvd_pcp_msg i; note_restart i found

unfoldable pub server_not_working : ℕ → Action ServerState
unfolding heard_again the_msg
server_not_working i = do
  now ← gettimeofday
  s ← load_server i
  let r = timeval_comp now s.next_timeout
  store_server i (record s { next_timeout = r.right })
  m ← the_msg
  if ltb_ℤ r.order (pos 0)
      then (if m.recv_result == res_unsupp_version
          then pure pss_not_working
          else if m.recv_result == res_address_mismatch
          then pure pss_not_working
          else heard_again i)
      else (do set_next_timeout i r.left; pure pss_server_reping)

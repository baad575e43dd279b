-- ===== src/FlowMachine/Handlers.antt =====
-- The handlers of the flow state machine in lib/src/pcp_event_handler.c. A handler returns the
-- flow and the next event, or none where it would follow a null message.
use emulebb_libpcpnatpmp.Base.{
  ℕ, ◌+◌, ◌*◌, ◌/◌, ◌%◌, ◌^◌, ◌-◌, Bool, true, false, ◌||◌, Option, none, some, ℤ, pos, ◌+ℤ◌, ◌-ℤ◌,
  ltb_ℤ, ◌==ℤ◌, shr_one, leb, ◌==◌, if◌then◌else◌,
}
use emulebb_libpcpnatpmp.TimeVal.{zero_time, timeval_comp}
use emulebb_libpcpnatpmp.Data.{
  err_success, Flow, Server, RecvMsg, FlowEvent, fev_failed, fev_ignored, fev_msg_sent, fev_none,
  opcode_map, opcode_peer,
}
use emulebb_libpcpnatpmp.FlowMachine.Table.{
  Handler, fhndl_send, fhndl_resend, fhndl_send_renew, fhndl_shortlifeerror, fhndl_received_success,
  fhndl_clear_timeouts, fhndl_waitresp,
}
use emulebb_libpcpnatpmp.FlowMachine.Send.{Io, Sent, pcp_flow_send_msg, pcp_flow_clear_msg_buf}
use emulebb_libpcpnatpmp.FlowMachine.Timeout.{u32, pcp_retx_irt, pcp_retx_mrc, pcp_rt}

abbrev pub Handled : Type 0
Handled = Option (Flow × FlowEvent)

abbrev pub ok : Flow → FlowEvent → Handled
ok f ev = some (f, ev)

-- f->timeout = now + resend_timeout milliseconds
unfoldable pub set_resend : Io → ℕ → Flow → Flow
set_resend io ms f = record f {
  resend_timeout = ms;
  timeout = record {
    tv_sec = io.now.tv_sec +ℤ pos (ms / 1000);
    tv_usec = io.now.tv_usec +ℤ pos (ms % 1000 * 1000);
  };
}

abbrev pub is_restart_flow : Server → Flow → Bool
is_restart_flow s f = elim s.restart_flow_msg [ none ↦ false | some a ↦ a == f.address ]

abbrev pub sent_ok : Sent → Bool
sent_ok r = elim r.errno [ err_success ↦ true | _ ↦ false ]

-- fhndl_send
unfoldable pub send_handler : Io → Option Server → Flow → Handled
send_handler io none f = ok f fev_failed
send_handler io (some s) f =
    let r = pcp_flow_send_msg io s f in
    if is_restart_flow s f
    then ok f fev_ignored
    else if sent_ok r
    then ok (set_resend io pcp_retx_irt r.flow) fev_msg_sent
    else ok r.flow fev_failed

-- fhndl_resend; PCP_RETX_MRD is 0, so there is no bound on the duration.
unfoldable pub resend_handler : Io → Option Server → Flow → Handled
resend_handler io none f = ok f fev_failed
resend_handler io (some s) f =
    let g : Flow = record f { retry_count = u32 (f.retry_count + 1) } in
    let r = pcp_flow_send_msg io s g in
    if leb pcp_retx_mrc g.retry_count
    then ok g fev_failed
    else if sent_ok r
    then ok (set_resend io (pcp_rt io.rand r.flow.resend_timeout) r.flow) fev_msg_sent
    else ok r.flow fev_failed

-- fhndl_shortlifeerror
unfoldable pub shortlifeerror_handler : Io → Option RecvMsg → Flow → Handled
shortlifeerror_handler io none f = none
shortlifeerror_handler io (some msg) f =
    ok
      (record f {
        recv_result = msg.recv_result;
        timeout = record {
          tv_sec = io.now.tv_sec +ℤ pos msg.recv_lifetime;
          tv_usec = io.now.tv_usec;
        };
      })
      fev_none

-- LONG_MAX of a 64-bit long
abbrev pub long_max : ℤ
long_max = pos (2 ^ 63 - 1)

-- The end of the mapping's lifetime, held at LONG_MAX.
unfoldable pub lifetime_end : RecvMsg → ℤ
lifetime_end msg =
    if ltb_ℤ (long_max -ℤ msg.received_time) (pos msg.recv_lifetime)
    then long_max
    else msg.received_time +ℤ pos msg.recv_lifetime

abbrev pub has_mapping : Flow → Bool
has_mapping f = f.kd.operation == opcode_map || f.kd.operation == opcode_peer

-- fhndl_received_success
unfoldable pub received_success_handler : Io → Option RecvMsg → Flow → Handled
received_success_handler io none f = none
received_success_handler io (some msg) f =
    let end = lifetime_end msg in
    let mapped = has_mapping f in
    ok
      (record f {
        recv_lifetime = end;
        ext_ip = if mapped then msg.assigned_ext_ip else f.ext_ip;
        ext_port = if mapped then msg.assigned_ext_port else f.ext_port;
        recv_result = msg.recv_result;
        timeout = if msg.recv_lifetime == 0 then zero_time else record {
          tv_sec = io.now.tv_sec +ℤ shr_one (end -ℤ io.now.tv_sec);
          tv_usec = io.now.tv_usec;
        };
      })
      fev_none

-- fhndl_send_renew
unfoldable pub send_renew_handler : Io → Option Server → Flow → Handled
send_renew_handler io none f = ok f fev_failed
send_renew_handler io (some s) f =
    let r = pcp_flow_send_msg io s f in
    let g = r.flow in
    let timeout_add = shr_one (g.recv_lifetime -ℤ io.now.tv_sec) in
    if sent_ok r
    then (if timeout_add ==ℤ pos 0
        then ok (record g { timeout = io.now }) fev_failed
        else ok
            (record g {
              timeout = record { tv_sec = io.now.tv_sec +ℤ timeout_add; tv_usec = io.now.tv_usec };
            })
            fev_msg_sent)
    else ok g fev_failed

-- fhndl_clear_timeouts
unfoldable pub clear_timeouts_handler : Option RecvMsg → Flow → Handled
clear_timeouts_handler msg f =
    let result : ℕ = elim msg [ none ↦ f.recv_result | some m ↦ m.recv_result ] in
    let g : Flow = pcp_flow_clear_msg_buf (record f { recv_result = result }) in
    ok (record g { timeout = zero_time }) fev_none

-- fhndl_waitresp; timeval_comp aligns the flow's timeout.
unfoldable pub waitresp_handler : Io → Flow → Handled
waitresp_handler io f =
    let c = timeval_comp f.timeout io.now in
    let g : Flow = record f { timeout = c.left } in
    if ltb_ℤ c.order (pos 0) then ok g fev_failed else ok g fev_none

-- The call through the table's function pointer.
unfoldable pub run_handler : Handler → Io → Option Server → Option RecvMsg → Flow → Handled
run_handler fhndl_send io s msg f = send_handler io s f
run_handler fhndl_resend io s msg f = resend_handler io s f
run_handler fhndl_send_renew io s msg f = send_renew_handler io s f
run_handler fhndl_shortlifeerror io s msg f = shortlifeerror_handler io msg f
run_handler fhndl_received_success io s msg f = received_success_handler io msg f
run_handler fhndl_clear_timeouts io s msg f = clear_timeouts_handler msg f
run_handler fhndl_waitresp io s msg f = waitresp_handler io f

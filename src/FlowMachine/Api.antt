-- ===== src/FlowMachine/Api.antt =====
-- What the application does to a flow: pcp_flow_updated of lib/src/pcp_event_handler.c, and init_flow,
-- the setters and pcp_close_flow_intern of lib/src/pcp_api.c, at one flow of a next_child chain. The
-- server is the one of the flow's index, none where get_pcp_server finds none.
use emulebb_libpcpnatpmp.Base.{ℕ, Bool, true, false, Option, if◌then◌else◌}
use mathlib.Core.Option
use emulebb_libpcpnatpmp.TimeVal.{TimeVal}
use emulebb_libpcpnatpmp.Wire.{In6Addr}
use emulebb_libpcpnatpmp.Data.{
  FlowState, pfs_idle, pfs_wait_for_server_init, pfs_send, pfs_failed, Flow, Server,
}
use emulebb_libpcpnatpmp.FlowMachine.Send.{pcp_flow_clear_msg_buf}

-- A flow and its server.
abbrev pub FlowAndServer : Type 0
FlowAndServer = Flow × Option Server

-- The states in which nothing has been asked of the server, or nothing more is.
abbrev pub is_inactive : FlowState → Bool
is_inactive pfs_wait_for_server_init = true
is_inactive pfs_idle = true
is_inactive pfs_failed = true
is_inactive _ = false

abbrev pub wake : TimeVal → Server → Server
wake now s = record s { next_timeout = now }

unfoldable pub pcp_flow_updated : TimeVal → FlowAndServer → FlowAndServer
unfolding pcp_flow_clear_msg_buf
pcp_flow_updated now (f, s) =
    let g = pcp_flow_clear_msg_buf f in
    (
      record g { timeout = now; state = if is_inactive f.state then f.state else pfs_send },
      Option.map (wake now) s,
    )

unfoldable pub set_lifetime : ℕ → TimeVal → FlowAndServer → FlowAndServer
set_lifetime lifetime now (f, s) = pcp_flow_updated now (record f { lifetime = lifetime }, s)

unfoldable pub set_3rd_party_opt : In6Addr → TimeVal → FlowAndServer → FlowAndServer
set_3rd_party_opt ip now (f, s) =
    pcp_flow_updated now (record f { third_party_option_present = true; third_party_ip = ip }, s)

unfoldable pub set_filter_opt : In6Addr → ℕ → ℕ → TimeVal → FlowAndServer → FlowAndServer
set_filter_opt ip port prefix now (f, s) = pcp_flow_updated now (
  record f {
    filter_option_present = true;
    filter_ip = ip;
    filter_port = port;
    filter_prefix = prefix;
  },
  s,
)

unfoldable pub set_prefer_failure_opt : TimeVal → FlowAndServer → FlowAndServer
set_prefer_failure_opt now (f, s) =
    if f.pfailure_option_present
    then (f, s)
    else pcp_flow_updated now (record f { pfailure_option_present = true }, s)

-- The switch of pcp_close_flow_intern, and the test that follows it.
unfoldable pub begin_close : TimeVal → FlowAndServer → FlowAndServer
begin_close now (f, s) =
    if is_inactive f.state
    then (record f { state = pfs_failed }, s)
    else pcp_flow_updated now (record f { lifetime = 0 }, s)

unfoldable pub end_close : TimeVal → FlowAndServer → FlowAndServer
end_close now (f, s) =
    if is_inactive f.state
    then (record f { state = pfs_failed }, s)
    else pcp_flow_updated now (record f { lifetime = 0 }, s)

unfoldable pub pcp_close_flow_intern : TimeVal → TimeVal → FlowAndServer → FlowAndServer
unfolding begin_close end_close
pcp_close_flow_intern now later p = end_close later (begin_close now p)

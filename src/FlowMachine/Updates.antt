-- ===== src/FlowMachine/Updates.antt =====
-- What follows from a change or the closing of a flow by the application, lib/src/pcp_api.c.
use emulebb_libpcpnatpmp.Base.{ℕ, ◌≡◌, refl, arith, true, false, Option, none, some}
use mathlib.Core.Option
use emulebb_libpcpnatpmp.TimeVal.{TimeVal}
use emulebb_libpcpnatpmp.Wire.{In6Addr}
use emulebb_libpcpnatpmp.Data.{pfs_send, pfs_failed, fev_flow_timedout, Flow, Server}
use emulebb_libpcpnatpmp.FlowMachine.Table.{next_state, transition_handler, fhndl_send}
use emulebb_libpcpnatpmp.FlowMachine.Send.{pcp_flow_clear_msg_buf, ensure_msg}
use emulebb_libpcpnatpmp.Msg.Build.{build_pcp_msg}
use emulebb_libpcpnatpmp.FlowMachine.Api.{
  FlowAndServer, is_inactive, wake, pcp_flow_updated, begin_close, end_close, pcp_close_flow_intern,
  set_lifetime, set_filter_opt, set_3rd_party_opt, set_prefer_failure_opt,
}

-- A flow that is due to be asked for anew: its timeout is reached and its server is due, and what is
-- sent then is a message that is built from the flow as it is.
pub record IsDue (now : TimeVal) (p : FlowAndServer) : Type 0 where
  pub due : p.0.timeout ≡ now
  pub sends : next_state p.0.state fev_flow_timedout ≡ some pfs_send
  pub handler : transition_handler p.0.state pfs_send ≡ some fhndl_send
  pub rebuilt : (s : Server) → ensure_msg s p.0 ≡ build_pcp_msg (some s) p.0
  pub server : (s : Server) → p.1 ≡ some s → s.next_timeout ≡ now

server_wake :
    (now : TimeVal) (s : Option Server) (t : Server)
    → Option.map (wake now) s ≡ some t
    → t.next_timeout ≡ now
server_wake now none t e = absurd (ground arith)
server_wake now (some s) t e = ground arith

sending-IsDue :
    (now : TimeVal) (f : Flow) (s : Option Server)
    → is_inactive f.state ≡ false
    → IsDue now (pcp_flow_updated now (f, s))
unfolding pcp_flow_updated pcp_flow_clear_msg_buf next_state transition_handler
sending-IsDue now f s a = record {
  due = refl;
  sends = rw a refl;
  handler = rw a refl;
  rebuilt = λ t. refl;
  server = λ t e. server_wake now s t e;
}

updated_active :
    (now : TimeVal) (f : Flow) (s : Option Server)
    → is_inactive f.state ≡ false
    → is_inactive (pcp_flow_updated now (f, s)).0.state ≡ false
unfolding pcp_flow_updated
updated_active now f s a = rw a refl

pcp_flow_updated-lifetime :
    (now : TimeVal) (f : Flow) (s : Option Server)
    → (pcp_flow_updated now (f, s)).0.lifetime ≡ f.lifetime
unfolding pcp_flow_updated pcp_flow_clear_msg_buf
pcp_flow_updated-lifetime now f s = refl

-- A change of the lifetime, of the filter or of the third party of a flow that has been asked for, or
-- a prefer-failure option that it did not have, makes the flow due.
pub updated-IsDue :
    (now : TimeVal) (f : Flow) (s : Option Server)
    → is_inactive f.state ≡ false
    → ((n : ℕ) → IsDue now (set_lifetime n now (f, s)))
      × ((ip : In6Addr) → IsDue now (set_3rd_party_opt ip now (f, s)))
      × ((ip : In6Addr) (port prefix : ℕ) → IsDue now (set_filter_opt ip port prefix now (f, s)))
      × (f.pfailure_option_present ≡ false → IsDue now (set_prefer_failure_opt now (f, s)))
unfolding set_lifetime set_3rd_party_opt set_filter_opt set_prefer_failure_opt
updated-IsDue now f s a = (
  λ n. sending-IsDue now (record f { lifetime = n }) s a,
  λ ip. sending-IsDue now (record f { third_party_option_present = true; third_party_ip = ip }) s a,
  λ ip port prefix. sending-IsDue now _ s a,
  λ e. rw e (sending-IsDue now (record f { pfailure_option_present = true }) s a),
)

closed_twice :
    (later : TimeVal) (p : FlowAndServer)
    → is_inactive p.0.state ≡ false
    → IsDue later (end_close later p) × ((end_close later p).0.lifetime ≡ 0)
unfolding end_close
closed_twice later p a =
    let g : Flow = record p.0 { lifetime = 0 } in
    rw a (sending-IsDue later g p.1 a, pcp_flow_updated-lifetime later g p.1)

-- Closing a flow that has been asked for makes it due with a lifetime of zero, which asks the server
-- to delete the mapping; one for which nothing is at the server is failed at once, and its server is
-- left alone.
pub pcp_close_flow_intern_lem :
    (now later : TimeVal) (f : Flow) (s : Option Server)
    → (is_inactive f.state ≡ false
        → IsDue later (pcp_close_flow_intern now later (f, s))
          × ((pcp_close_flow_intern now later (f, s)).0.lifetime ≡ 0))
      × (is_inactive f.state ≡ true
          → pcp_close_flow_intern now later (f, s) ≡ (record f { state = pfs_failed }, s))
unfolding pcp_close_flow_intern begin_close end_close
pcp_close_flow_intern_lem now later f s = (
  λ a. rw a (
      closed_twice later (pcp_flow_updated now (record f { lifetime = 0 }, s))
        (updated_active now (record f { lifetime = 0 }) s a)),
  λ a. rw a refl,
)

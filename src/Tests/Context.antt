-- ===== src/Tests/Context.antt =====
-- The theorems on the context, at one with a server and a flow.
use emulebb_libpcpnatpmp.Base.{
  List, zero, suc, ◌+◌, ◌≤◌, ap, sym, ◌∙◌, ◌≡◌, refl, arith, true, false, [], ◌∷◌, none, some, pos,
  ◌==◌, if◌then◌else◌,
}
use emulebb_libpcpnatpmp.TimeVal.{zero_time}
use emulebb_libpcpnatpmp.Data.{Flow, Server, pcpe_timeout, pss_ping}
use emulebb_libpcpnatpmp.ClientDb.Key.{compute_flow_key}
use emulebb_libpcpnatpmp.ClientDb.Flows.{
  FlowDb, empty_db, fresh_flow, pcp_create_flow, pcp_db_add_flow, pcp_get_flow,
}
use emulebb_libpcpnatpmp.ClientDb.Invariant.{
  empty_db-IsWellFormed, pcp_create_flow-IsWellFormed, pcp_db_add_flow-IsWellFormed,
}
use emulebb_libpcpnatpmp.ClientDb.Rekey.{no_more, child}
use emulebb_libpcpnatpmp.ClientDb.Servers.{is_unitialized}
use emulebb_libpcpnatpmp.System.{Sys}
use emulebb_libpcpnatpmp.System.Sound.{IsSound, IsSafe, Runs, Always}
use emulebb_libpcpnatpmp.ServerMachine.Table.{handle_server_ping}
use emulebb_libpcpnatpmp.ServerMachine.Ping.{server_ping}
use emulebb_libpcpnatpmp.ServerMachine.Receive.{process_rcvd_pcp_msg}
use emulebb_libpcpnatpmp.ServerMachine.Machine.{run_server_state_machine}
use emulebb_libpcpnatpmp.ServerMachine.Safety.{leads_to, may_enter}
use emulebb_libpcpnatpmp.ServerMachine.Safety.Rounds.{server_ping-Runs}
use emulebb_libpcpnatpmp.ServerMachine.Safety.Negotiation.{Usable}
use emulebb_libpcpnatpmp.ServerMachine.Safety.Delivery.{
  OnlyTouches, process_rcvd_pcp_msg-OnlyTouches,
}
use emulebb_libpcpnatpmp.ServerMachine.Safety.Machine.{InState, run_server_state_machine-Runs}
use emulebb_libpcpnatpmp.Pulse.{Datagram, pcp_pulse}
use emulebb_libpcpnatpmp.Pulse.Safety.{pcp_pulse-Runs}
use emulebb_libpcpnatpmp.Interface.Address.{inet}
use emulebb_libpcpnatpmp.Interface.Close.{pcp_close_flow}
use emulebb_libpcpnatpmp.Interface.Close.Safety.{pcp_close_flow-Runs}
use emulebb_libpcpnatpmp.Interface.Create.{pcp_new_flow}
use emulebb_libpcpnatpmp.Interface.Create.Safety.{pcp_new_flow-Runs}
use emulebb_libpcpnatpmp.Interface.Delete.{pcp_delete_flow}
use emulebb_libpcpnatpmp.Interface.Delete.Freed.{OwnsPing}
use emulebb_libpcpnatpmp.Interface.Delete.Laws.{Deleted, pcp_delete_flow-Deleted}
use emulebb_libpcpnatpmp.Interface.Told.{FlowInfo, AllTold}
use emulebb_libpcpnatpmp.Interface.Info.{pcp_flow_get_info, pcp_flow_get_info-told}
use emulebb_libpcpnatpmp.Interface.Terminate.{pcp_terminate}
use emulebb_libpcpnatpmp.Interface.Terminate.Laws.{AllFreed, pcp_terminate-AllFreed}
use emulebb_libpcpnatpmp.Tests.{test_ip, test_nonce, map_key, pcp_server, test_msg, io_at}

-- A server whose ping message is its flow.
abbrev ctx_server : Server
ctx_server = record pcp_server {
  src_ip = test_ip 2;
  nonce = test_nonce;
  ping_flow_msg = some 0;
  next_timeout = record { tv_sec = pos 10; tv_usec = pos 0 };
}

abbrev new_db : FlowDb
new_db = (pcp_create_flow ctx_server map_key empty_db).1

abbrev new_flow : Flow
new_flow = fresh_flow 0 ctx_server map_key

new_flow_there : new_db.heap new_flow.address ≡ some new_flow
unfolding pcp_create_flow
new_flow_there = refl

abbrev ctx : Sys
ctx = record {
  db = pcp_db_add_flow new_flow new_db;
  servers = ctx_server ∷ [];
  msg = test_msg;
  outside = λ n. io_at (100 + n);
}

abbrev ctx_flow : Flow
ctx_flow = record new_flow { key_bucket = some (compute_flow_key map_key) }

ctx_flow_there : ctx.db.heap 0 ≡ some ctx_flow
unfolding pcp_create_flow pcp_db_add_flow
ctx_flow_there = refl

ctx_small : 1 ≤ ctx.db.next_address
unfolding pcp_create_flow pcp_db_add_flow
ctx_small = omega arith

ctx_owned : OwnsPing ctx
ctx_owned zero b t e p =
    let same : ctx_server ≡ t = ground arith in
    let is : 0 ≡ b = ground (arith, ap (λ x. x.ping_flow_msg) same) in
    (
      ctx_flow,
      ap ctx.db.heap (sym is) ∙ ctx_flow_there,
      refl,
      ap (λ x. is_unitialized x.server_state) (sym same),
    )
ctx_owned (suc i) b t e p = absurd (ground arith)

ctx-IsSound : IsSound ctx
unfolding pcp_create_flow pcp_db_add_flow
ctx-IsSound = record {
  db =
      pcp_db_add_flow-IsWellFormed new_db
        (pcp_create_flow-IsWellFormed empty_db empty_db-IsWellFormed ctx_server map_key) new_flow
        new_flow_there refl;
  real = λ a f e. ground arith;
  ping = λ i a t e p. let (f, there, own, used) = ctx_owned i a t e p in (f, there);
}

ctx-IsSafe : IsSafe ctx
unfolding pcp_create_flow pcp_db_add_flow
ctx-IsSafe = record {
  db = ctx-IsSound.db;
  real = ctx-IsSound.real;
  ping = ctx-IsSound.ping;
  child = λ a b f e k. absurd (ground arith);
}

-- An announcement of the server.
abbrev announcement : Datagram
announcement = record {
  len = 12;
  bytes = λ i. if i == 1 then 128 else 0;
  from_ip = test_ip 1;
  from_scope = 0;
  to_ip = test_ip 2;
  to_scope = 0;
  time = pos 100;
}

pcp_pulse_example : Runs (pcp_pulse (λ ip. false) 4 (some announcement) zero_time) Always ctx
pcp_pulse_example = pcp_pulse-Runs (λ ip. false) 4 (some announcement) zero_time ctx ctx-IsSafe

server_machine_example :
    Runs
      (run_server_state_machine 0 pcpe_timeout)
      (λ x d. InState 0 (λ st. may_enter ctx_server.server_state pcpe_timeout st ≡ true) d)
      ctx
server_machine_example = run_server_state_machine-Runs 0 pcpe_timeout ctx_server ctx ctx-IsSafe refl

server_ping_example :
    Runs (server_ping 0) (λ st d. leads_to pss_ping handle_server_ping st ≡ true) ctx
server_ping_example = server_ping-Runs 0 pss_ping ctx ctx-IsSafe (ctx_server, refl)

process_example :
    Runs
      (process_rcvd_pcp_msg 0)
      (λ r d.
        (r ≡ pcp_get_flow test_msg.kd ctx_server ctx.db)
        × OnlyTouches (pcp_get_flow test_msg.kd ctx_server ctx.db) ctx d)
      ctx
process_example = process_rcvd_pcp_msg-OnlyTouches 0 ctx_server ctx ctx-IsSafe refl refl

delete_example :
    (d : Sys) × (pcp_delete_flow (some 0) ctx ≡ some (tt, d))
    × IsSound d
    × OwnsPing d
    × Deleted (0 ∷ []) ctx d
delete_example =
    pcp_delete_flow-Deleted (some 0) (0 ∷ []) ctx ctx-IsSound ctx_owned
      (child ctx_flow_there no_more) ctx_small

terminate_example :
    (d : Sys) × (pcp_terminate (λ ip. false) 3 none false ctx ≡ some (tt, d)) × AllFreed ctx d
terminate_example = pcp_terminate-AllFreed (λ ip. false) 3 none ctx ctx-IsSound ctx_owned

new_flow_example :
    Runs
      (pcp_new_flow (λ to ip. ip) (λ to p. p) (some (inet 3221225986 8080)) none none 6 3600)
      Usable
      ctx
new_flow_example =
    pcp_new_flow-Runs (λ to ip. ip) (λ to p. p) (some (inet 3221225986 8080)) none none 6 3600 ctx
      ctx-IsSafe

get_info_example :
    (is : List FlowInfo) × (pcp_flow_get_info (some 0) ctx.db ≡ some (is, 1))
    × AllTold ctx.db.heap (0 ∷ []) is
get_info_example =
    pcp_flow_get_info-told (some 0) (0 ∷ []) ctx.db (child ctx_flow_there no_more) ctx_small
      (omega arith)

close_flow_example : Runs (pcp_close_flow (λ ip. false) 4 (some announcement) (some 0)) Always ctx
close_flow_example =
    pcp_close_flow-Runs (λ ip. false) 4 (some announcement) (some 0) (0 ∷ []) ctx ctx-IsSafe
      (child ctx_flow_there no_more) ctx_small

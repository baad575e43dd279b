-- ===== src/ServerMachine/Safety/Receive.antt =====
-- The handlers of lib/src/pcp_event_handler.c that process a received message run.
use emulebb_libpcpnatpmp.Base.{
  ℕ, ◌≡◌, refl, arith, true, Option, none, some, ◌==◌, get_elem?, ltb_ℤ, pos,
}
use emulebb_libpcpnatpmp.TimeVal.{timeval_comp}
use emulebb_libpcpnatpmp.Data.{
  Flow, FlowKeyData, fev_res, RecvMsg, Server, ServerState, pss_version_negotiation,
  pss_wait_io_calc_nearest_timeout, pss_server_restart, pss_server_reping, pss_set_not_working,
  pss_not_working, opcode_announce,
}
use emulebb_libpcpnatpmp.Epoch.{compare_epochs, init_epoch}
use emulebb_libpcpnatpmp.FlowMachine.Table.{res_unsupp_version, res_address_mismatch}
use emulebb_libpcpnatpmp.ClientDb.Flows.{matches_flow, is_match, pcp_get_flow, chain_at}
use emulebb_libpcpnatpmp.ClientDb.Key.{compute_flow_key}
use emulebb_libpcpnatpmp.ClientDb.Chains.{chain_find-occurs}
use emulebb_libpcpnatpmp.System.{Sys}
use emulebb_libpcpnatpmp.System.Sound.{
  IsSafe, IsLive, HasServer, Extends-refl, Runs, Runs-pure, Runs-if, Runs-weaken, then_do,
}
use emulebb_libpcpnatpmp.System.Actions.{
  gettimeofday-Runs, load-Runs, send_event-Runs, load_server-Runs,
}
use emulebb_libpcpnatpmp.System.Iterate.Safety.{keep_server-Runs}
use emulebb_libpcpnatpmp.ServerMachine.Versions.{unsupp_version}
use emulebb_libpcpnatpmp.ServerMachine.Table.{
  handle_wait_ping_resp_recv, handle_wait_io_receive_msg, handle_server_not_working,
}
use emulebb_libpcpnatpmp.ServerMachine.Receive.{
  the_msg, put_msg, find_flow, announced, flow_of_msg, deliver, process_rcvd_pcp_msg, note_restart,
  heard, wait_io_receive_msg, after_ping_resp, wait_ping_resp_recv, heard_again, server_not_working,
}
use emulebb_libpcpnatpmp.ServerMachine.Safety.{leads_to}
use emulebb_libpcpnatpmp.ServerMachine.Safety.Broadcast.{
  set_next_timeout-Runs, set_timeout_now-Runs,
}
use emulebb_libpcpnatpmp.ServerMachine.Safety.Negotiation.{Usable}

pub the_msg-Runs : (c : Sys) → IsSafe c → Runs the_msg (λ m d. d ≡ c) c
unfolding the_msg
the_msg-Runs c s = record {
  value = c.msg;
  after = c;
  ran = refl;
  safe = s;
  extends = Extends-refl c;
  post = refl;
}

pub put_msg-Runs :
    (m : RecvMsg) (c : Sys)
    → IsSafe c
    → Runs (put_msg m) (λ u d. (d.db ≡ c.db) × (d.servers ≡ c.servers)) c
unfolding put_msg
put_msg-Runs m c s = record {
  value = tt;
  after = record c { msg = m };
  ran = refl;
  safe = record { db = s.db; real = s.real; ping = s.ping; child = s.child };
  extends = record { flows = λ a l. l; servers = λ i h. h };
  post = (refl, refl);
}

match_there :
    (c : Sys) (kd : FlowKeyData) (index a : ℕ) → is_match c.db.heap kd index a ≡ true → IsLive c a
unfolding is_match
match_there c kd index a e =
    elim (c.db.heap a) as (λ x. matches_flow kd index x ≡ true → (f : Flow) × (x ≡ some f)) [
      | none ↦ λ h. cc
      | some f ↦ λ h. (f, refl)
    ]
      e

pcp_get_flow-Usable : (m : RecvMsg) (t : Server) (c : Sys) → Usable (pcp_get_flow m.kd t c.db) c
unfolding pcp_get_flow
pcp_get_flow-Usable m t c a e =
    match_there c m.kd t.index a
      (chain_find-occurs c.db.heap m.kd t.index a (chain_at c.db.flows (compute_flow_key m.kd)) e).1

-- A lookup gives a flow that is there.
pub find_flow-Runs :
    (m : RecvMsg) (t : Server) (c : Sys)
    → IsSafe c
    → Runs (find_flow m t) (λ r d. (d ≡ c) × (r ≡ pcp_get_flow m.kd t c.db) × Usable r d) c
unfolding find_flow
find_flow-Runs m t c s = record {
  value = pcp_get_flow m.kd t c.db;
  after = c;
  ran = refl;
  safe = s;
  extends = Extends-refl c;
  post = (refl, refl, pcp_get_flow-Usable m t c);
}

find_flow-Usable : (m : RecvMsg) (t : Server) (c : Sys) → IsSafe c → Runs (find_flow m t) Usable c
find_flow-Usable m t c s = Runs-weaken _ _ Usable c (find_flow-Runs m t c s) (λ r d (p, q, l). l)

none-Usable : (c : Sys) → Usable none c
none-Usable c a e = cc

announced-Runs :
    (t : Server) (found : Option ℕ) (c : Sys)
    → IsSafe c
    → Usable found c
    → Runs (announced t found) Usable c
unfolding announced
announced-Runs t none c s l = Runs-pure Usable none c s l
announced-Runs t (some a) c s l =
    Runs-if (t.pcp_version == 0) _ _ Usable c
      (λ natpmp.
        then_do (load-Runs c s a (l a refl))
          (λ f c1 s1 x1 q1. Runs-pure Usable _ c1 s1 (λ b e. x1.flows b (l b (ground arith)))))
      (λ pcp. Runs-pure Usable none c s (none-Usable c))

module _ (i : ℕ) where
  flow_of_msg-Runs :
      (t : Server) (m : RecvMsg) (c : Sys)
      → IsSafe c
      → get_elem? c.servers i ≡ some t
      → Runs (flow_of_msg i t m) Usable c
  unfolding flow_of_msg
  flow_of_msg-Runs t m c s e =
      Runs-if (m.recv_version == 0) _ _ Usable c
        (λ natpmp.
          Runs-if (m.kd.operation == opcode_announce) _ _ Usable c
            (λ ann. then_do (keep_server-Runs i t _ c s e refl) (λ u c1 s1 x1 q1.
              announced-Runs t t.ping_flow_msg c1 s1 (λ a p. x1.flows a (s.ping i a t e p))))
            (λ map. then_do (put_msg-Runs _ c s) (λ u c1 s1 x1 q1. find_flow-Usable m t c1 s1)))
        (λ pcp. find_flow-Usable m t c s)

  deliver-Runs :
      (found : Option ℕ) (c : Sys) → IsSafe c → Usable found c → Runs (deliver found) Usable c
  unfolding deliver
  deliver-Runs none c s l = Runs-pure Usable none c s l
  deliver-Runs (some a) c s l = then_do (the_msg-Runs c s) (λ m c1 s1 x1 q1.
      then_do (send_event-Runs c1 s1 a (fev_res m.recv_result) (some m) (x1.flows a (l a refl)) tt)
        (λ st c2 s2 x2 q2.
          Runs-pure Usable (some a) c2 s2 (λ b e. x2.flows b (x1.flows b (l b e)))))

  -- The flow that is found is one that is there.
  pub process_rcvd_pcp_msg-Runs :
      (c : Sys) → IsSafe c → HasServer c i → Runs (process_rcvd_pcp_msg i) Usable c
  unfolding process_rcvd_pcp_msg
  process_rcvd_pcp_msg-Runs c s h = then_do (load_server-Runs c s i h) (λ t c1 s1 x1 (eq1, e1).
      then_do (the_msg-Runs c1 s1) (λ m c2 s2 x2 eq2.
        then_do (flow_of_msg-Runs t m c2 s2 (rw eq2 (rw eq1 e1)))
          (λ found c3 s3 x3 l. deliver-Runs found c3 s3 l)))

compare_epochs-ping_flow_msg :
    (m : RecvMsg) (t : Server) → (compare_epochs m t).1.ping_flow_msg ≡ t.ping_flow_msg
unfolding compare_epochs init_epoch
compare_epochs-ping_flow_msg m t = ground arith

module _ (i : ℕ) (Q : ServerState → Type 0) (restart : Q pss_server_restart) where
  note_restart-Runs :
      (found : Option ℕ) (c : Sys)
      → IsSafe c
      → HasServer c i
      → Runs (note_restart i found) (λ st d. Q st) c
  unfolding note_restart
  note_restart-Runs found c s h = then_do (the_msg-Runs c s) (λ m c1 s1 x1 q1.
      then_do (load_server-Runs c1 s1 i (x1.servers i h)) (λ t c2 s2 x2 (eq, e).
        then_do (keep_server-Runs i t _ c2 s2 (rw eq e) refl) (λ u c3 s3 x3 q3.
          then_do (set_timeout_now-Runs i c3 s3 (x3.servers i (x2.servers i (x1.servers i h))))
            (λ v c4 s4 x4 q4. Runs-pure _ pss_server_restart c4 s4 restart))))

  heard_again-Runs : (c : Sys) → IsSafe c → HasServer c i → Runs (heard_again i) (λ st d. Q st) c
  unfolding heard_again
  heard_again-Runs c s h =
      then_do (process_rcvd_pcp_msg-Runs i c s h)
        (λ found c1 s1 x1 l. note_restart-Runs found c1 s1 (x1.servers i h))

  module _ (next : Q pss_wait_io_calc_nearest_timeout) where
    heard-Runs : (c : Sys) → IsSafe c → HasServer c i → Runs (heard i) (λ st d. Q st) c
    unfolding heard
    heard-Runs c s h = then_do (process_rcvd_pcp_msg-Runs i c s h) (λ found c1 s1 x1 l.
        then_do (the_msg-Runs c1 s1) (λ m c2 s2 x2 q2.
          then_do (load_server-Runs c2 s2 i (x2.servers i (x1.servers i h))) (λ t c3 s3 x3 (eq, e).
            then_do
              (keep_server-Runs i t (compare_epochs m t).1 c3 s3 (rw eq e)
                (compare_epochs-ping_flow_msg m t))
              (λ u c4 s4 x4 q4.
                let has = x4.servers i (x3.servers i (x2.servers i (x1.servers i h))) in
                Runs-if (compare_epochs m t).0 _ _ _ c4 (λ yes. note_restart-Runs found c4 s4 has)
                  (λ no.
                    then_do (set_timeout_now-Runs i c4 s4 has) (λ v c5 s5 x5 q5.
                      Runs-pure _ pss_wait_io_calc_nearest_timeout c5 s5 next))))))

    module _ (version : Q pss_version_negotiation) (fail : Q pss_set_not_working) where
      hears-Runs :
          (c : Sys) → IsSafe c → HasServer c i → Runs (wait_io_receive_msg i) (λ st d. Q st) c
      unfolding wait_io_receive_msg unsupp_version
      hears-Runs c s h = then_do (the_msg-Runs c s) (λ m c1 s1 x1 q1.
          let has = x1.servers i h in
          Runs-if (m.recv_result == res_unsupp_version) _ _ _ c1
            (λ old. then_do (set_timeout_now-Runs i c1 s1 has) (λ u c2 s2 x2 q2.
              then_do (load_server-Runs c2 s2 i (x2.servers i has)) (λ t c3 s3 x3 (eq, e).
                then_do
                  (keep_server-Runs i t (unsupp_version m.recv_version t) c3 s3 (rw eq e) refl)
                  (λ v c4 s4 x4 q4. Runs-pure _ pss_version_negotiation c4 s4 version))))
            (λ other.
              Runs-if (m.recv_result == res_address_mismatch) _ _ _ c1
                (λ bad.
                  then_do (set_timeout_now-Runs i c1 s1 has)
                    (λ u c2 s2 x2 q2. Runs-pure _ pss_set_not_working c2 s2 fail))
                (λ good. heard-Runs c1 s1 has)))

module _ (i : ℕ) (cur : ServerState) (c : Sys) (s : IsSafe c) (h : HasServer c i) where
  pub wait_io_receive_msg-Runs :
      Runs (wait_io_receive_msg i) (λ st d. leads_to cur handle_wait_io_receive_msg st ≡ true) c
  wait_io_receive_msg-Runs =
      hears-Runs i (λ st. leads_to cur handle_wait_io_receive_msg st ≡ true) refl refl refl refl c s
        h

  pub wait_ping_resp_recv-Runs :
      Runs (wait_ping_resp_recv i) (λ st d. leads_to cur handle_wait_ping_resp_recv st ≡ true) c
  unfolding wait_ping_resp_recv
  wait_ping_resp_recv-Runs =
      then_do
        (hears-Runs i (λ st. leads_to cur handle_wait_ping_resp_recv (after_ping_resp st) ≡ true)
          refl refl refl refl c s h)
        (λ st c1 s1 x1 q1. Runs-pure _ (after_ping_resp st) c1 s1 q1)

  pub server_not_working-Runs :
      Runs (server_not_working i) (λ st d. leads_to cur handle_server_not_working st ≡ true) c
  unfolding server_not_working
  server_not_working-Runs = then_do (gettimeofday-Runs c s) (λ now c1 s1 x1 q1.
      then_do (load_server-Runs c1 s1 i (x1.servers i h)) (λ t c2 s2 x2 (eq, e).
        then_do (keep_server-Runs i t _ c2 s2 (rw eq e) refl) (λ u c3 s3 x3 q3.
          then_do (the_msg-Runs c3 s3) (λ m c4 s4 x4 q4.
            let has = x4.servers i (x3.servers i (x2.servers i (x1.servers i h))) in
            Runs-if (ltb_ℤ (timeval_comp now t.next_timeout).order (pos 0)) _ _ _ c4
              (λ early.
                Runs-if (m.recv_result == res_unsupp_version) _ _ _ c4
                  (λ old. Runs-pure _ pss_not_working c4 s4 refl)
                  (λ new.
                    Runs-if (m.recv_result == res_address_mismatch) _ _ _ c4
                      (λ bad. Runs-pure _ pss_not_working c4 s4 refl)
                      (λ good.
                        heard_again-Runs i (λ st. leads_to cur handle_server_not_working st ≡ true)
                          refl c4 s4 has)))
              (λ late.
                then_do (set_next_timeout-Runs i _ c4 s4 has)
                  (λ v c5 s5 x5 q5. Runs-pure _ pss_server_reping c5 s5 refl))))))

-- ===== src/ServerMachine/Safety/Delivery.antt =====
-- Which flow a received message is for, and that no other is touched: server_process_rcvd_pcp_msg of
-- lib/src/pcp_event_handler.c.
use emulebb_libpcpnatpmp.Base.{
  ℕ, ◌≡◌, ◌≢◌, refl, sym, ap, ◌∙◌, arith, false, Option, none, some, ◌==◌, get_elem?,
}
use mathlib.Core.Path.{subst}
use emulebb_libpcpnatpmp.Data.{fev_res, Server}
use emulebb_libpcpnatpmp.ClientDb.Flows.{pcp_get_flow}
use emulebb_libpcpnatpmp.System.{Sys}
use emulebb_libpcpnatpmp.System.Sound.{
  IsSafe, Runs, Extends-refl, Runs-pure, Runs-if, Runs-weaken, then_do,
}
use emulebb_libpcpnatpmp.System.Actions.{send_event-Runs, load_server-Runs}
use emulebb_libpcpnatpmp.ServerMachine.Receive.{
  the_msg, find_flow, flow_of_msg, deliver, process_rcvd_pcp_msg,
}
use emulebb_libpcpnatpmp.ServerMachine.Safety.Negotiation.{Usable}
use emulebb_libpcpnatpmp.ServerMachine.Safety.Receive.{find_flow-Runs}

-- Only the flow that was found is written: the chains, the servers and the message stay.
abbrev pub OnlyTouches : Option ℕ → Sys → Sys → Type 0
OnlyTouches found c d =
    (d.servers ≡ c.servers)
    × (d.msg ≡ c.msg)
    × (d.db.flows ≡ c.db.flows)
    × ((b : ℕ) → found ≢ some b → d.db.heap b ≡ c.db.heap b)

reads_msg : (c : Sys) → IsSafe c → Runs the_msg (λ m d. (d ≡ c) × (m ≡ c.msg)) c
unfolding the_msg
reads_msg c s = record {
  value = c.msg;
  after = c;
  ran = refl;
  safe = s;
  extends = Extends-refl c;
  post = (refl, refl);
}

deliver-OnlyTouches :
    (found : Option ℕ) (c : Sys)
    → IsSafe c
    → Usable found c
    → Runs (deliver found) (λ r d. (r ≡ found) × OnlyTouches found c d) c
unfolding deliver
deliver-OnlyTouches none c s l = Runs-pure _ none c s (refl, (refl, refl, refl, λ b n. refl))
deliver-OnlyTouches (some a) c s l = then_do (reads_msg c s) (λ m c1 s1 x1 (eq1, q1).
    then_do (send_event-Runs c1 s1 a (fev_res m.recv_result) (some m) (x1.flows a (l a refl)) tt)
      (λ st c2 s2 x2 (t2, g2). Runs-pure _ (some a) c2 s2 (
        refl,
        rw (sym eq1) (t2.servers, t2.msg, t2.chains, λ b n. t2.others b (λ p. n (ap some (sym p)))),
      )))

-- A message whose version is not 0, in a safe state and for a server of the array, is processed to
-- its end: the flow that it is for is the one that pcp_get_flow finds by the message's key and the
-- server, if any, and no other flow is written, nor the chains, the servers and the message.
pub process_rcvd_pcp_msg-OnlyTouches :
    (i : ℕ) (t : Server) (c : Sys)
    → IsSafe c
    → get_elem? c.servers i ≡ some t
    → (c.msg.recv_version == 0) ≡ false
    → Runs
        (process_rcvd_pcp_msg i)
        (λ r d. (r ≡ pcp_get_flow c.msg.kd t c.db) × OnlyTouches (pcp_get_flow c.msg.kd t c.db) c d)
        c
unfolding process_rcvd_pcp_msg flow_of_msg
process_rcvd_pcp_msg-OnlyTouches i t c s e v =
    then_do (load_server-Runs c s i (t, e)) (λ u c1 s1 x1 (eq1, e1).
      then_do (reads_msg c1 s1) (λ m c2 s2 x2 (eq2, q2).
        let same : u ≡ t = ground (arith, sym e1 ∙ e) in
        let msg : m ≡ c.msg = q2 ∙ ap (λ x. x.msg) eq1 in
        then_do
          (Runs-if (m.recv_version == 0) _ (find_flow m u) _ c2
            (λ natpmp. absurd (ground (arith, ap (λ x. x.recv_version == 0) msg)))
            (λ pcp. find_flow-Runs m u c2 s2))
          (λ found c3 s3 x3 (eq3, q3, l).
            let back : c3 ≡ c = eq3 ∙ eq2 ∙ eq1 in
            let is : found ≡ pcp_get_flow c.msg.kd t c.db = q3 ∙ rw (eq2, eq1, msg, same) refl in
            Runs-weaken _ _ _ c3 (deliver-OnlyTouches found c3 s3 l) (λ r d (p, o). (
              p ∙ is,
              subst (λ x. OnlyTouches (pcp_get_flow c.msg.kd t c.db) x d) back
                  (subst (λ x. OnlyTouches x c3 d) is o),
            )))))

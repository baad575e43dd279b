-- ===== src/ServerMachine/Safety/Rounds.antt =====
-- The handlers of lib/src/pcp_event_handler.c that ping a server come to an end.
use emulebb_libpcpnatpmp.Base.{
  ℕ, zero, suc, ◌+◌, ◌<◌, ◌≤◌, ◌≡◌, ◌≢◌, refl, ap, ◌∙◌, arith, Bool, true, false, List, [], ◌∷◌,
  Option, none, some, ◌==◌, ==_iff, Bool-cases, inl, inr, if◌then◌else◌, get_elem?, length,
}
use emulebb_libpcpnatpmp.TimeVal.{zero_time}
use emulebb_libpcpnatpmp.Data.{
  Flow, FlowState, fev_send, pfs_failed, ServerState, pss_ping, pss_wait_ping_resp,
  pss_set_not_working,
}
use emulebb_libpcpnatpmp.ClientDb.Flows.{Heap}
use emulebb_libpcpnatpmp.ClientDb.Chains.{occurs}
use emulebb_libpcpnatpmp.System.{Sys, Action}
use emulebb_libpcpnatpmp.System.Sound.{IsSafe, IsLive, HasServer, Runs, Runs-pure, Runs-if, then_do}
use emulebb_libpcpnatpmp.System.Actions.{
  load-Runs, store-Runs, send_event-Runs, load_server-Runs, store_server-Runs,
}
use emulebb_libpcpnatpmp.System.Iterate.{flatten}
use emulebb_libpcpnatpmp.System.Iterate.Safety.{flow_addresses-Runs}
use emulebb_libpcpnatpmp.ServerMachine.Table.{handle_server_ping}
use emulebb_libpcpnatpmp.ServerMachine.Ping.{
  has_failed, is_pending, await_ping, no_ping, ping_round, ping_loop, server_ping, await_flow,
  await_ping_msg, give_up,
}
use emulebb_libpcpnatpmp.ServerMachine.Safety.{leads_to}
use emulebb_libpcpnatpmp.ServerMachine.Safety.Broadcast.{
  set_next_timeout-Runs, set_timeout_now-Runs,
}
use emulebb_libpcpnatpmp.ServerMachine.Safety.Ping.{FoundIn, Indexed, set_there, get_ping_msg-Runs}

abbrev pub pending_at : ℕ → Option Flow → Bool
pending_at index none = false
pending_at index (some f) = is_pending index f

-- How many flows of the list can still be taken.
abbrev pub pending_count : Heap → ℕ → List ℕ → ℕ
pending_count h index [] = 0
pending_count h index (a ∷ l) = (if pending_at index (h a) then 1 else 0) + pending_count h index l

pub pending_count-le : (h : Heap) (index : ℕ) (l : List ℕ) → pending_count h index l ≤ length l
pending_count-le h index [] = omega arith
pending_count-le h index (a ∷ l) = ground (arith, pending_count-le h index l)

-- A flow that can no longer be taken is counted no more.
pending_count-drop :
    (h h' : Heap) (index a : ℕ) (l : List ℕ)
    → ((b : ℕ) → b ≢ a → h' b ≡ h b)
    → pending_at index (h a) ≡ true
    → pending_at index (h' a) ≡ false
    → pending_count h' index l + occurs a l ≡ pending_count h index l
pending_count-drop h h' index a [] same p q = refl
pending_count-drop h h' index a (b ∷ l) same p q =
    let rest = pending_count-drop h h' index a l same p q in
    elim (Bool-cases (b == a)) [
      | inl e ↦
          let here : b ≡ a = (==_iff b a).0 e in
          let was : pending_at index (h b) ≡ true = ap (λ x. pending_at index (h x)) here ∙ p in
          let is : pending_at index (h' b) ≡ false = ap (λ x. pending_at index (h' x)) here ∙ q in
          rw (e, was, is) (omega (arith, rest))
      | inr e ↦
          let kept : h' b ≡ h b = same b (λ x. ground (arith, (==_iff b a).1 x)) in
          rw (e, kept) (omega (arith, rest))
    ]

failed_not_pending :
    (index : ℕ) (g : Flow) (st : FlowState)
    → g.state ≡ st
    → has_failed st ≡ true
    → is_pending index g ≡ false
failed_not_pending index g pfs_failed e h = ground (arith, e)
failed_not_pending index g _ e h = cc

module _ (i : ℕ) (Q : ServerState → Type 0) where
  pub await_ping-Runs :
      Q pss_wait_ping_resp
      → (a : ℕ) (c : Sys) → IsSafe c
      → HasServer c i
      → IsLive c a
      → Runs (await_ping i a) (λ st d. Q st) c
  unfolding await_ping
  await_ping-Runs q a c s h l = then_do (load-Runs c s a l) (λ g c1 s1 x1 (eq, e).
      then_do (set_next_timeout-Runs i g.timeout c1 s1 (x1.servers i h))
        (λ u c2 s2 x2 q2. Runs-pure _ pss_wait_ping_resp c2 s2 q))

  pub no_ping-Runs :
      Q pss_ping → (c : Sys) → IsSafe c → HasServer c i → Runs (no_ping i) (λ st d. Q st) c
  unfolding no_ping
  no_ping-Runs q c s h =
      then_do (set_next_timeout-Runs i zero_time c s h)
        (λ u c1 s1 x1 q1. Runs-pure _ pss_ping c1 s1 q)

  pub give_up-Runs :
      Q pss_set_not_working
      → (c : Sys) → IsSafe c
      → HasServer c i
      → Runs (give_up i) (λ st d. Q st) c
  unfolding give_up
  give_up-Runs q c s h =
      then_do (set_timeout_now-Runs i c s h)
        (λ u c1 s1 x1 q1. Runs-pure _ pss_set_not_working c1 s1 q)

  module _ (w : Q pss_wait_ping_resp) (p : Q pss_ping) where
    pub await_flow-Runs :
        (found : Option ℕ) (c : Sys)
        → IsSafe c
        → HasServer c i
        → ((a : ℕ) → found ≡ some a → IsLive c a)
        → Runs (await_flow i found) (λ st d. Q st) c
    unfolding await_flow
    await_flow-Runs none c s h l = no_ping-Runs p c s h
    await_flow-Runs (some a) c s h l = await_ping-Runs w a c s h (l a refl)

    pub await_ping_msg-Runs :
        (c : Sys) → IsSafe c → HasServer c i → Runs (await_ping_msg i) (λ st d. Q st) c
    unfolding await_ping_msg
    await_ping_msg-Runs c s h = then_do (load_server-Runs c s i h) (λ t c1 s1 x1 (eq, e).
        await_flow-Runs t.ping_flow_msg c1 s1 (x1.servers i h) (λ a. s1.ping i a t (rw eq e)))

module _ (i index : ℕ) (cur : ServerState) where
  abbrev pub Pings : ServerState → Type 0
  Pings st = leads_to cur handle_server_ping st ≡ true

  -- What holds when the server has this index and fewer flows than that can be taken.
  abbrev pub Below : ℕ → Sys → Type 0
  Below fuel c = Indexed i index c × (pending_count c.db.heap index (flatten c.db.flows) < fuel)

  module _ (fuel : ℕ) (again : Action ServerState)
      (ih : (d : Sys) → IsSafe d → Below fuel d → Runs again (λ st e. Pings st) d) where
    ping_round-Runs :
        (found : Option ℕ) (c : Sys)
        → IsSafe c
        → Below (suc fuel) c
        → FoundIn c.db.heap index (flatten c.db.flows) found
        → Runs (ping_round again i found) (λ st d. Pings st) c
    unfolding ping_round
    ping_round-Runs none c s ((t, e, k), lt) h = no_ping-Runs i Pings refl c s (t, e)
    ping_round-Runs (some a) c s ((t, e, k), lt) ((f0, there, pend), occ) =
        then_do (load-Runs c s a (f0, there)) (λ f c1 s1 x1 (eq1, e1).
          then_do
            (store-Runs c1 s1 a f (record f { retry_count = 0 }) (rw eq1 e1)
              (record {
                address = refl;
                key_bucket = refl;
                next_child = refl;
                real = s.real a f e1;
              }))
            (λ u c2 s2 x2 (t2, l2).
              then_do (send_event-Runs c2 s2 a fev_send none (_, l2) tt)
                (λ st c3 s3 x3 (t3, (g, l3, is)).
                  let sv : c3.servers ≡ c.servers =
                    t3.servers ∙ t2.servers ∙ ap (λ x. x.servers) eq1 in
                  let fl : c3.db.flows ≡ c.db.flows =
                    t3.chains ∙ t2.chains ∙ ap (λ x. x.db.flows) eq1 in
                  let others : (b : ℕ) → b ≢ a → c3.db.heap b ≡ c.db.heap b =
                    λ b n. t3.others b n ∙ t2.others b n ∙ ap (λ x. x.db.heap b) eq1 in
                  let here : get_elem? c3.servers i ≡ some t = rw sv e in
                  Runs-if (has_failed st) _ _ _ c3
                    (λ bad.
                      let drop =
                        pending_count-drop c.db.heap c3.db.heap index a (flatten c.db.flows) others
                          (ap (pending_at index) there ∙ pend)
                          (ap (pending_at index) l3 ∙ failed_not_pending index g st is bad) in
                      ih c3 s3 ((t, here, k), rw fl (omega (arith, drop))))
                    (λ good. await_ping-Runs i Pings refl a c3 s3 (t, here) (g, l3)))))

  -- The loop ends when fewer flows can be taken than there is fuel.
  pub ping_loop-Runs :
      (fuel : ℕ) (c : Sys) → IsSafe c → Below fuel c → Runs (ping_loop fuel i) (λ st d. Pings st) c
  unfolding ping_loop
  ping_loop-Runs zero c s (t, lt) = absurd (omega arith)
  ping_loop-Runs (suc fuel) c s (t, lt) =
      then_do (get_ping_msg-Runs i index c s t) (λ found c1 s1 x1 ((db, h), t1).
        ping_round-Runs fuel (ping_loop fuel i) (ping_loop-Runs fuel) found c1 s1 (t1, rw db lt)
          (rw db h))

-- In a safe state and for a server of the array, the loop of handle_server_ping comes to its end with
-- one round more than there are flows, whatever the socket does, and the server goes on to wait for a
-- response or to ping.
pub server_ping-Runs :
    (i : ℕ) (cur : ServerState) (c : Sys)
    → IsSafe c
    → HasServer c i
    → Runs (server_ping i) (λ st d. leads_to cur handle_server_ping st ≡ true) c
unfolding server_ping
server_ping-Runs i cur c s h = then_do (load_server-Runs c s i h) (λ t c1 s1 x1 (eq1, e1).
    let e : get_elem? c1.servers i ≡ some t = rw eq1 e1 in
    then_do (store_server-Runs c1 s1 i t (record t { ping_count = 0 }) e (λ a. s1.ping i a t e))
      (λ u c2 s2 x2 (db2, m2, sv2).
        then_do (flow_addresses-Runs c2 s2) (λ l c3 s3 x3 (eq3, live, all).
          ping_loop-Runs i t.index cur (length l + 1) c3 s3 (
            (record t { ping_count = 0 }, rw eq3 (rw sv2 (set_there c1.servers i t _ e)), refl),
            rw eq3
                (rw all (omega (arith, pending_count-le c2.db.heap t.index (flatten c2.db.flows)))),
          ))))

-- ===== src/ServerMachine/Safety/Negotiation.antt =====
-- The handlers of lib/src/pcp_event_handler.c that wait for the response to a ping, and that agree on
-- a version, run.
use emulebb_libpcpnatpmp.Base.{
  ℕ, ◌+◌, ◌≡◌, refl, sym, ◌∙◌, arith, true, Option, none, some, ◌==◌, get_elem?, leb,
}
use emulebb_libpcpnatpmp.Data.{
  fev_send, fev_flow_timedout, Server, ServerState, pss_ping, pss_set_not_working,
}
use emulebb_libpcpnatpmp.System.{Sys}
use emulebb_libpcpnatpmp.System.Sound.{
  IsSafe, IsLive, HasServer, Runs, Always, Runs-pure, Runs-if, Runs-weaken, then_do,
}
use emulebb_libpcpnatpmp.System.Actions.{
  load-Runs, store-Runs, send_event-Runs, load_server-Runs, store_server-Runs,
}
use emulebb_libpcpnatpmp.System.Iterate.Safety.{keep_server-Runs}
use emulebb_libpcpnatpmp.ServerMachine.Table.{
  handle_wait_ping_resp_timeout, handle_version_negotiation,
}
use emulebb_libpcpnatpmp.ServerMachine.Ping.{
  has_failed, ping_again, wait_ping_resp_timeout, drop_ping, keep_ping, choose_ping, ping_with,
  negotiated, version_negotiation, pcp_max_ping_count,
}
use emulebb_libpcpnatpmp.ServerMachine.Safety.{leads_to}
use emulebb_libpcpnatpmp.ServerMachine.Safety.Broadcast.{set_timeout_now-Runs}
use emulebb_libpcpnatpmp.ServerMachine.Safety.Ping.{
  Chosen-IsLive, set_there, get_ping_msg-Runs, create_natpmp_ann_msg-Runs,
}
use emulebb_libpcpnatpmp.ServerMachine.Versions.{lower_version, negotiate}
use emulebb_libpcpnatpmp.FlowMachine.Timeout.{u32}
use emulebb_libpcpnatpmp.ServerMachine.Safety.Rounds.{
  await_ping-Runs, no_ping-Runs, give_up-Runs, await_ping_msg-Runs,
}

-- A flow that is there, if any.
abbrev pub Usable : Option ℕ → Sys → Type 0
Usable found d = (a : ℕ) → found ≡ some a → IsLive d a

module _ (i : ℕ) (cur : ServerState) where
  abbrev TimesOut : ServerState → Type 0
  TimesOut st = leads_to cur handle_wait_ping_resp_timeout st ≡ true

  ping_again-Runs :
      (found : Option ℕ) (c : Sys)
      → IsSafe c
      → HasServer c i
      → ((a : ℕ) → found ≡ some a → IsLive c a)
      → Runs (ping_again i found) (λ st d. TimesOut st) c
  unfolding ping_again
  ping_again-Runs none c s h l =
      then_do (set_timeout_now-Runs i c s h) (λ u c1 s1 x1 q1. Runs-pure _ pss_ping c1 s1 refl)
  ping_again-Runs (some a) c s h l =
      then_do (send_event-Runs c s a fev_flow_timedout none (l a refl) tt) (λ st c1 s1 x1 q1.
        Runs-if (has_failed st) _ _ _ c1
          (λ bad. give_up-Runs i TimesOut refl c1 s1 (x1.servers i h))
          (λ good. await_ping_msg-Runs i TimesOut refl refl c1 s1 (x1.servers i h)))

  pub wait_ping_resp_timeout-Runs :
      (c : Sys) → IsSafe c → HasServer c i → Runs (wait_ping_resp_timeout i) (λ st d. TimesOut st) c
  unfolding wait_ping_resp_timeout
  wait_ping_resp_timeout-Runs c s h = then_do (load_server-Runs c s i h) (λ t c1 s1 x1 (eq1, e1).
      then_do
        (keep_server-Runs i t (record t { ping_count = u32 (t.ping_count + 1) }) c1 s1 (rw eq1 e1)
          refl)
        (λ u c2 s2 x2 q2.
          Runs-if (leb pcp_max_ping_count (u32 (t.ping_count + 1))) _ _ _ c2
            (λ over. give_up-Runs i TimesOut refl c2 s2 (x2.servers i (x1.servers i h)))
            (λ less.
              ping_again-Runs t.ping_flow_msg c2 s2 (x2.servers i (x1.servers i h))
                (λ a p. x2.flows a (s1.ping i a t (rw eq1 e1) p)))))

  drop_ping-Runs :
      (found : Option ℕ) (c : Sys)
      → IsSafe c
      → ((a : ℕ) → found ≡ some a → IsLive c a)
      → Runs (drop_ping found) Always c
  unfolding drop_ping
  drop_ping-Runs none c s l = Runs-pure Always tt c s tt
  drop_ping-Runs (some a) c s l = then_do (load-Runs c s a (l a refl)) (λ f c1 s1 x1 (eq1, e1).
      Runs-weaken _ _ Always c1
        (store-Runs c1 s1 a f _ (rw eq1 e1)
          (record { address = refl; key_bucket = refl; next_child = refl; real = λ e. cc }))
        (λ u d q. tt))

  keep_ping-Runs :
      (found : Option ℕ) (c : Sys)
      → IsSafe c
      → HasServer c i
      → Usable found c
      → Runs (keep_ping i found) Usable c
  unfolding keep_ping
  keep_ping-Runs none c s (t, e) l =
      Runs-weaken _ _ Usable c (get_ping_msg-Runs i t.index c s (t, e, refl))
        (λ found d (h, x) a. Chosen-IsLive t.index c.db found d a h)
  keep_ping-Runs (some a) c s h l = Runs-pure Usable (some a) c s l

  choose_ping-Runs :
      (t : Server) (c : Sys)
      → IsSafe c
      → get_elem? c.servers i ≡ some t
      → Runs (choose_ping i t) Usable c
  unfolding choose_ping
  choose_ping-Runs t c s e =
      Runs-if (t.pcp_version == 0) _ _ Usable c
        (λ natpmp.
          then_do (drop_ping-Runs t.ping_flow_msg c s (λ a. s.ping i a t e)) (λ u c1 s1 x1 q1.
            then_do (create_natpmp_ann_msg-Runs i 0 c1 s1 (x1.servers i (t, e)))
              (λ a c2 s2 x2 q2. Runs-pure Usable (some a) c2 s2 (λ b p. (q2.0, ground arith)))))
        (λ pcp. keep_ping-Runs t.ping_flow_msg c s (t, e) (λ a. s.ping i a t e))

  abbrev Negotiates : ServerState → Type 0
  Negotiates st = leads_to cur handle_version_negotiation st ≡ true

  ping_with-Runs :
      (found : Option ℕ) (c : Sys)
      → IsSafe c
      → HasServer c i
      → Usable found c
      → Runs (ping_with i found) (λ st d. Negotiates st) c
  unfolding ping_with
  ping_with-Runs none c s h l = no_ping-Runs i Negotiates refl c s h
  ping_with-Runs (some a) c s h l = then_do (load-Runs c s a (l a refl)) (λ f c1 s1 x1 (eq1, e1).
      then_do
        (store-Runs c1 s1 a f (record f { retry_count = 0; resend_timeout = 0 }) (rw eq1 e1)
          (record { address = refl; key_bucket = refl; next_child = refl; real = s.real a f e1 }))
        (λ u c2 s2 x2 (t2, l2).
          then_do (send_event-Runs c2 s2 a fev_send none (_, l2) tt)
            (λ st c3 s3 x3 (t3, (g, l3, is)).
              Runs-if (has_failed st) _ _ _ c3 (λ bad. Runs-pure _ pss_set_not_working c3 s3 refl)
                (λ good.
                  await_ping-Runs i Negotiates refl a c3 s3
                    (x3.servers i (x2.servers i (x1.servers i h))) (g, l3)))))

  negotiated-Runs :
      (m : Option Server) (v : Server) (c : Sys)
      → IsSafe c
      → get_elem? c.servers i ≡ some v
      → ((t : Server) → m ≡ some t → t.ping_flow_msg ≡ v.ping_flow_msg)
      → Runs (negotiated i m) (λ st d. Negotiates st) c
  unfolding negotiated
  negotiated-Runs none v c s e k = Runs-pure _ pss_set_not_working c s refl
  negotiated-Runs (some t) v c s e k =
      then_do (store_server-Runs c s i v t e (λ a p. s.ping i a v e (sym (k t refl) ∙ p)))
        (λ u c1 s1 x1 (db, m, sv).
          then_do (choose_ping-Runs t c1 s1 (rw sv (set_there c.servers i v t e)))
            (λ found c2 s2 x2 l. ping_with-Runs found c2 s2 (x2.servers i (x1.servers i (v, e))) l))

negotiate-ping_flow_msg : (s t : Server) → negotiate s ≡ some t → t.ping_flow_msg ≡ s.ping_flow_msg
unfolding negotiate
negotiate-ping_flow_msg s t e = ground arith

-- Agreeing on a version comes to an end.
pub version_negotiation-Runs :
    (i : ℕ) (cur : ServerState) (c : Sys)
    → IsSafe c
    → HasServer c i
    → Runs (version_negotiation i) (λ st d. leads_to cur handle_version_negotiation st ≡ true) c
unfolding version_negotiation
version_negotiation-Runs i cur c s h = then_do (load_server-Runs c s i h) (λ t c1 s1 x1 (eq1, e1).
    let e : get_elem? c1.servers i ≡ some t = rw eq1 e1 in
    then_do (store_server-Runs c1 s1 i t (lower_version t) e (λ a. s1.ping i a t e))
      (λ u c2 s2 x2 (db2, m2, sv2).
        negotiated-Runs i cur (negotiate t) (lower_version t) c2 s2
          (rw sv2 (set_there c1.servers i t (lower_version t) e)) (negotiate-ping_flow_msg t)))

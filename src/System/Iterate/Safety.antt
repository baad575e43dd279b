-- ===== src/System/Iterate/Safety.antt =====
-- The walks over the flow table in lib/src/pcp_event_handler.c follow no pointer to nothing.
use emulebb_libpcpnatpmp.Base.{
  ℕ, suc, ◌<◌, ◌≡◌, ◌≢◌, ◌⊎◌, inl, inr, refl, sym, ap, ◌∙◌, arith, Bool, List, [], ◌∷◌, ltb_ℤ, pos,
  none, some, ◌==◌, get_elem?,
}
use emulebb_libpcpnatpmp.TimeVal.{TimeVal, is_zero_time, timeval_comp}
use emulebb_libpcpnatpmp.Data.{Flow, FlowEvent, fev_flow_timedout, Server, pfs_any}
use emulebb_libpcpnatpmp.FlowMachine.Rest.{HasMsg}
use emulebb_libpcpnatpmp.ClientDb.Flows.{chain_at}
use emulebb_libpcpnatpmp.ClientDb.Chains.{occurs, occurs-append}
use emulebb_libpcpnatpmp.System.{Sys, Action, store_server}
use emulebb_libpcpnatpmp.System.Sound.{
  IsSafe, IsLive, HasServer, Runs, Always, Runs-pure, Runs-if, Runs-weaken, then_do, Extends-refl,
}
use emulebb_libpcpnatpmp.System.Flows.{IsUpdate}
use emulebb_libpcpnatpmp.System.Actions.{
  gettimeofday-Runs, load-Runs, store-Runs, send_event-Runs, load_server-Runs, store_server-Runs,
}
use emulebb_libpcpnatpmp.System.Iterate.{
  flatten, flow_addresses, foreach, time_out_if, time_left, check_flow_timeout,
  flow_send_event_iter, send_to_all,
}

abbrev pub All : (ℕ → Type 0) → List ℕ → Type 0
All P [] = Unit {0}
All P (a ∷ l) = P a × All P l

All-of_occurs : (P : ℕ → Type 0) (l : List ℕ) → ((a : ℕ) → 0 < occurs a l → P a) → All P l
All-of_occurs P [] h = tt
All-of_occurs P (a ∷ l) h = (h a (ground arith), All-of_occurs P l (λ b p. h b (ground arith)))

pub All-map : (P Q : ℕ → Type 0) (l : List ℕ) → ((a : ℕ) → P a → Q a) → All P l → All Q l
All-map P Q [] h p = tt
All-map P Q (a ∷ l) h (p, ps) = (h a p, All-map P Q l h ps)

zero_or_pos : (n : ℕ) → (n ≡ 0) ⊎ (0 < n)
zero_or_pos n = ground arith

occurs-flatten :
    (a : ℕ) (cs : List (List ℕ))
    → 0 < occurs a (flatten cs)
    → (i : ℕ) × (0 < occurs a (chain_at cs i))
occurs-flatten a [] h = absurd (omega arith)
occurs-flatten a (c ∷ cs) h = elim (zero_or_pos (occurs a c)) [
  | inr p ↦ (0, p)
  | inl z ↦
      let (i, p) = occurs-flatten a cs (omega (arith, occurs-append a c (flatten cs))) in (suc i, p)
]

pub flow_addresses-Runs :
    (c : Sys)
    → IsSafe c
    → Runs flow_addresses (λ l d. (d ≡ c) × All (IsLive d) l × (l ≡ flatten c.db.flows)) c
unfolding flow_addresses
flow_addresses-Runs c s = record {
  value = flatten c.db.flows;
  after = c;
  ran = refl;
  safe = s;
  extends = Extends-refl c;
  post = (
    refl,
    All-of_occurs (IsLive c) (flatten c.db.flows) (λ a h.
        let (i, p) = occurs-flatten a c.db.flows h in let (f, e, k) = s.db.linked i a p in (f, e)),
    refl,
  );
}

module _ {B : Type 0} (f : ℕ → B → Action B) where
  pub foreach-Runs :
      ((a : ℕ) (b : B) (c : Sys) → IsSafe c → IsLive c a → Runs (f a b) Always c)
      → (l : List ℕ) (b : B) (c : Sys) → IsSafe c
      → All (IsLive c) l
      → Runs (foreach f l b) Always c
  unfolding foreach
  foreach-Runs h [] b c s ls = Runs-pure Always b c s tt
  foreach-Runs h (a ∷ l) b c s (p, ps) =
      then_do (h a b c s p)
        (λ r d t x q. foreach-Runs h l r d t (All-map (IsLive c) (IsLive d) l x.flows ps))

-- A write to a server that keeps its ping message.
pub keep_server-Runs :
    (i : ℕ) (t u : Server) (c : Sys)
    → IsSafe c
    → get_elem? c.servers i ≡ some t
    → u.ping_flow_msg ≡ t.ping_flow_msg
    → Runs (store_server i u) Always c
keep_server-Runs i t u c s e p =
    Runs-weaken _ _ Always c (store_server-Runs c s i t u e (λ a q. s.ping i a t e (sym p ∙ q)))
      (λ x d q. tt)

-- A write that leaves the identity and the state of a flow alone.
same_state : (f : Flow) (t : TimeVal) → f.state ≢ pfs_any → IsUpdate f (record f { timeout = t })
same_state f t r = record { address = refl; key_bucket = refl; next_child = refl; real = r }

module _ (a : ℕ) where
  time_out_if-Runs :
      (late : Bool) (c : Sys) → IsSafe c → IsLive c a → Runs (time_out_if late a) Always c
  unfolding time_out_if
  time_out_if-Runs late c s l =
      Runs-if late _ _ Always c
        (λ _.
          then_do (send_event-Runs c s a fev_flow_timedout none l tt)
            (λ st d t x q. Runs-pure Always tt d t tt))
        (λ _. Runs-pure Always tt c s tt)

  time_left-Runs :
      (ctv tout : TimeVal) (c : Sys) → IsSafe c → IsLive c a → Runs (time_left a ctv tout) Always c
  unfolding time_left
  time_left-Runs ctv tout c s l = then_do (load-Runs c s a l) (λ g d t x (same, e).
      Runs-if (is_zero_time g.timeout) _ _ Always d (λ _. Runs-pure Always tout d t tt)
        (λ _.
          then_do (store-Runs d t a g _ (rw same e) (same_state g _ (s.real a g e)))
            (λ u d' t' x' q. Runs-pure Always _ d' t' tt)))

  -- A flow that is there can be checked.
  pub check_flow_timeout-Runs :
      (tout : TimeVal) (c : Sys) → IsSafe c → IsLive c a → Runs (check_flow_timeout a tout) Always c
  unfolding check_flow_timeout
  check_flow_timeout-Runs tout c s l = then_do (load-Runs c s a l) (λ f c1 s1 x1 (same, e).
      Runs-if (is_zero_time f.timeout) _ _ Always c1 (λ _. Runs-pure Always tout c1 s1 tt)
        (λ _. then_do (gettimeofday-Runs c1 s1) (λ ctv c2 s2 x2 (db, sv, q).
          let r = timeval_comp f.timeout ctv in
          let here : c2.db.heap a ≡ some f = ap (λ d. d.heap a) db ∙ rw same e in
          then_do
            (store-Runs c2 s2 a f (record f { timeout = r.left }) here
              (same_state f r.left (s2.real a f here)))
            (λ u c3 s3 x3 (t3, l3).
              then_do (time_out_if-Runs (ltb_ℤ r.order (pos 1)) c3 s3 (_, l3))
                (λ v c4 s4 x4 p4. time_left-Runs r.right tout c4 s4 (x4.flows a (_, l3)))))))

  flow_send_event_iter-Runs :
      (index : ℕ) (ev : FlowEvent) (tout : TimeVal) (c : Sys)
      → HasMsg ev none
      → IsSafe c
      → IsLive c a
      → Runs (flow_send_event_iter index ev a tout) Always c
  unfolding flow_send_event_iter
  flow_send_event_iter-Runs index ev tout c h s l = then_do (load-Runs c s a l) (λ f c1 s1 x1 q1.
      Runs-if (f.pcp_server_indx == index) _ _ Always c1
        (λ _.
          then_do (send_event-Runs c1 s1 a ev none (x1.flows a l) h)
            (λ st c2 s2 x2 q2. check_flow_timeout-Runs tout c2 s2 (x2.flows a (x1.flows a l))))
        (λ _. Runs-pure Always tout c1 s1 tt))

-- An event can be sent to all flows of a server, if it needs no response.
pub send_to_all-Runs :
    (i : ℕ) (ev : FlowEvent) (c : Sys)
    → HasMsg ev none
    → IsSafe c
    → HasServer c i
    → Runs (send_to_all i ev) Always c
unfolding send_to_all
send_to_all-Runs i ev c h s has = then_do (load_server-Runs c s i has) (λ t c1 s1 x1 q1.
    then_do (flow_addresses-Runs c1 s1) (λ l c2 s2 x2 (same, live, q2).
      then_do
        (foreach-Runs (flow_send_event_iter t.index ev)
          (λ a b d sd ld. flow_send_event_iter-Runs a t.index ev b d h sd ld) l t.next_timeout c2 s2
          live)
        (λ r c3 s3 x3 q3.
          then_do (load_server-Runs c3 s3 i (x3.servers i (x2.servers i (x1.servers i has))))
            (λ u c4 s4 x4 (eq, e). keep_server-Runs i u _ c4 s4 (rw eq e) refl))))

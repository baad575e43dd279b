-- ===== src/System/Actions.antt =====
-- The actions that the handlers of lib/src/pcp_event_handler.c are made of run, and what they do.
use emulebb_libpcpnatpmp.Base.{
  ℕ, ◌+◌, ◌<◌, ◌≤◌, ◌∙◌, ◌≡◌, ◌≢◌, ◌⊎◌, refl, sym, ap, arith, List, Option, some, ◌==◌, ==_iff,
  Bool-cases, Option-cases, inl, inr, get_elem?, set, suc, zero, [], ◌∷◌,
}
use mathlib.Core.Option
use emulebb_libpcpnatpmp.Data.{Flow, FlowState, FlowEvent, Server, RecvMsg, pfs_any}
use emulebb_libpcpnatpmp.ClientDb.Servers.{get_pcp_server}
use emulebb_libpcpnatpmp.FlowMachine.Table.{next_state}
use emulebb_libpcpnatpmp.FlowMachine.Machine.{
  World, Run, done, handle_flow_event, pcp_eval_flow_state,
}
use emulebb_libpcpnatpmp.FlowMachine.Rest.{
  HasMsg, IsResting, for_server, for_response, after_error, for_renewal, given_up,
}
use emulebb_libpcpnatpmp.FlowMachine.Termination.{
  handle_flow_event-EndsAtRest, handle_flow_event-ignored,
}
use emulebb_libpcpnatpmp.System.{
  Sys, with_flow, gettimeofday, load, store, load_server, store_server, settle, run_events,
  send_event, chain_states, evaluated, eval_flow,
}
use emulebb_libpcpnatpmp.System.Sound.{
  IsSafe, IsLive, HasServer, Extends-refl, Runs, Runs-pure, then_do,
}
use emulebb_libpcpnatpmp.System.Flows.{IsUpdate, with_flow-Extends, with_flow-IsSafe}

-- Only the flow at the address is written, and the servers and the message are as before.
pub record TouchesFlow (a : ℕ) (c d : Sys) : Type 0 where
  pub others : (b : ℕ) → b ≢ a → d.db.heap b ≡ c.db.heap b
  pub chains : d.db.flows ≡ c.db.flows
  pub servers : d.servers ≡ c.servers
  pub msg : d.msg ≡ c.msg

IsResting-real : (s : FlowState) → IsResting s → s ≢ pfs_any
IsResting-real _ for_server e = cc
IsResting-real _ for_response e = cc
IsResting-real _ after_error e = cc
IsResting-real _ for_renewal e = cc
IsResting-real _ given_up e = cc

-- What handle_flow_event gives, whether or not the event has a transition.
pub record Settles (f : Flow) (r : Run) : Type 0 where
  pub flow : Flow
  pub calls : ℕ
  pub ends : r ≡ done flow calls
  pub same : IsUpdate f flow

pub handle_flow_event-Settles :
    (world : World) (s : Option Server) (msg : Option RecvMsg) (ev : FlowEvent) (f : Flow)
    → f.state ≢ pfs_any
    → HasMsg ev msg
    → Settles f (handle_flow_event world s msg ev f)
handle_flow_event-Settles world s msg ev f real h = elim (Option-cases (next_state f.state ev)) [
  | inl e ↦ record {
    flow = f;
    calls = 0;
    ends = handle_flow_event-ignored world s msg ev f e;
    same = record { address = refl; key_bucket = refl; next_child = refl; real = real };
  }
  | inr (next, e) ↦
      let r = handle_flow_event-EndsAtRest world s msg ev f real h (λ n. ground (arith, e, n)) in
      record {
        flow = r.flow;
        calls = r.calls;
        ends = r.ends;
        same = record {
          address = r.address;
          key_bucket = r.key_bucket;
          next_child = r.next_child;
          real = IsResting-real r.flow.state r.rests;
        };
      }
]

-- An entry of an array after a write is the new one or was there before.
set_or_kept :
    (ss : List Server) (i j : ℕ) (u v : Server)
    → get_elem? (set ss i u) j ≡ some v
    → (u ≡ v) ⊎ (get_elem? ss j ≡ some v)
set_or_kept [] i j u v e = inr e
set_or_kept (x ∷ ss) zero zero u v e = inl (ground arith)
set_or_kept (x ∷ ss) zero (suc j) u v e = inr e
set_or_kept (x ∷ ss) (suc i) zero u v e = inr e
set_or_kept (x ∷ ss) (suc i) (suc j) u v e = set_or_kept ss i j u v e

set_has :
    (ss : List Server) (i j : ℕ) (u : Server)
    → (v : Server) × (get_elem? ss j ≡ some v)
    → (v : Server) × (get_elem? (set ss i u) j ≡ some v)
set_has [] i j u h = h
set_has (x ∷ ss) zero zero u h = (u, refl)
set_has (x ∷ ss) zero (suc j) u h = h
set_has (x ∷ ss) (suc i) zero u h = h
set_has (x ∷ ss) (suc i) (suc j) u h = set_has ss i j u h

module _ (c : Sys) (s : IsSafe c) where
  pub gettimeofday-Runs :
      Runs gettimeofday (λ t d. (d.db ≡ c.db) × (d.servers ≡ c.servers) × (d.msg ≡ c.msg)) c
  unfolding gettimeofday
  gettimeofday-Runs = record {
    value = (c.outside 0).now;
    after = record c { outside = λ n. c.outside (n + 1) };
    ran = refl;
    safe = record { db = s.db; real = s.real; ping = s.ping; child = s.child };
    extends = record { flows = λ a l. l; servers = λ i t. t };
    post = (refl, refl, refl);
  }

  pub load-Runs : (a : ℕ) → IsLive c a → Runs (load a) (λ f d. (d ≡ c) × (c.db.heap a ≡ some f)) c
  unfolding load
  load-Runs a (f, e) = record {
    value = f;
    after = c;
    ran = rw (e, load) refl;
    safe = s;
    extends = Extends-refl c;
    post = (refl, e);
  }

  touched : (a : ℕ) (g : Flow) → TouchesFlow a c (with_flow c a g)
  touched a g = record {
    others = λ b n. elim (Bool-cases (a == b)) [
      | inl p ↦ absurd (n (sym ((==_iff a b).0 p)))
      | inr p ↦ rw p refl
    ];
    chains = refl;
    servers = refl;
    msg = refl;
  }

  -- A write that may link the flow to a later one.
  pub store-links :
      (a : ℕ) (f g : Flow)
      → c.db.heap a ≡ some f
      → IsUpdate (record f { next_child = g.next_child }) g
      → ((b : ℕ) → g.next_child ≡ some b → (a < b) × IsLive c b)
      → Runs (store a g) (λ x d. TouchesFlow a c d × (d.db.heap a ≡ some g)) c
  unfolding store
  store-links a f g e u later = record {
    value = tt;
    after = with_flow c a g;
    ran = rw (e, store) refl;
    safe = with_flow-IsSafe c a f g e s u later;
    extends = with_flow-Extends c a f g e;
    post = (touched a g, ground arith);
  }

  module _ (a : ℕ) (f g : Flow) (e : c.db.heap a ≡ some f) (u : IsUpdate f g) where
    unlinked_update : IsUpdate (record f { next_child = g.next_child }) g
    unlinked_update = record {
      address = u.address;
      key_bucket = u.key_bucket;
      next_child = refl;
      real = u.real;
    }

    same_child : (b : ℕ) → g.next_child ≡ some b → (a < b) × IsLive c b
    same_child b k = s.child a b f e (sym u.next_child ∙ k)

    pub store-Runs : Runs (store a g) (λ x d. TouchesFlow a c d × (d.db.heap a ≡ some g)) c
    store-Runs = store-links a f g e unlinked_update same_child

  chain_states_step :
      (fuel a : ℕ) (f : Flow)
      → c.db.heap a ≡ some f
      → chain_states (suc fuel) c.db.heap (some a)
        ≡ Option.map (λ ss. f.state ∷ ss) (chain_states fuel c.db.heap f.next_child)
  unfolding chain_states
  chain_states_step fuel a f e = rw (e, chain_states) refl

  -- The chain from a flow on ends within the fuel.
  chain_states_end :
      (fuel a : ℕ)
      → IsLive c a
      → c.db.next_address ≤ fuel + a
      → (ss : List FlowState) × (chain_states fuel c.db.heap (some a) ≡ some ss)
  unfolding chain_states
  chain_states_end zero a (f, e) h = absurd (ground (arith, e, s.db.fresh a (omega (arith, h))))
  chain_states_end (suc fuel) a (f, e) h = elim (Option-cases f.next_child) [
    | inl n ↦ (
      f.state ∷ [],
      chain_states_step fuel a f e
          ∙ ap (λ o. Option.map (λ ss. f.state ∷ ss) (chain_states fuel c.db.heap o)) n,
    )
    | inr (b, n) ↦
        let (lt, live) = s.child a b f e n in
        let (ss, k) = chain_states_end fuel b live (omega arith) in
        (
          f.state ∷ ss,
          chain_states_step fuel a f e
              ∙ ap (λ o. Option.map (λ ss. f.state ∷ ss) (chain_states fuel c.db.heap o)) n
              ∙ ap (Option.map (λ ss. f.state ∷ ss)) k,
        )
  ]

  eval_flow-Runs : (a : ℕ) → IsLive c a → Runs (eval_flow a) (λ st d. d ≡ c) c
  unfolding eval_flow
  eval_flow-Runs a l =
      let (ss, k) = chain_states_end c.db.next_address a l (omega arith) in
      record {
        value = (pcp_eval_flow_state ss).1;
        after = c;
        ran = ap (evaluated c) k;
        safe = s;
        extends = Extends-refl c;
        post = refl;
      }

  run_events-Runs :
      (a : ℕ) (ev : FlowEvent) (msg : Option RecvMsg)
      → IsLive c a
      → HasMsg ev msg
      → Runs
          (run_events a ev msg)
          (λ st d. TouchesFlow a c d × ((g : Flow) × (d.db.heap a ≡ some g) × (g.state ≡ st)))
          c
  unfolding run_events
  run_events-Runs a ev msg (f, e) h =
      let r =
        handle_flow_event-Settles c.outside (get_pcp_server c.servers f.pcp_server_indx) msg ev f
          (s.real a f e) h in
      let d = with_flow c a r.flow in
      let v =
        with_flow-IsSafe c a f r.flow e s (unlinked_update a f r.flow e r.same)
          (same_child a f r.flow e r.same) in
      let x = with_flow-Extends c a f r.flow e in
      let t = touched a r.flow in
      record {
        value = r.flow.state;
        after = record d { outside = λ k. c.outside (r.calls + k) };
        ran = rw (e, run_events) (ap (settle c a) r.ends);
        safe = record { db = v.db; real = v.real; ping = v.ping; child = v.child };
        extends = record { flows = x.flows; servers = x.servers };
        post = (
          record { others = t.others; chains = refl; servers = refl; msg = refl },
          (r.flow, ground arith, refl),
        );
      }

  pub load_server-Runs :
      (i : ℕ)
      → HasServer c i
      → Runs (load_server i) (λ t d. (d ≡ c) × (get_elem? c.servers i ≡ some t)) c
  unfolding load_server
  load_server-Runs i (t, e) = record {
    value = t;
    after = c;
    ran = rw (e, load_server) refl;
    safe = s;
    extends = Extends-refl c;
    post = (refl, e);
  }

  -- The server that is written keeps its ping message, or has one that is a flow.
  pub store_server-Runs :
      (i : ℕ) (t u : Server)
      → get_elem? c.servers i ≡ some t
      → ((a : ℕ) → u.ping_flow_msg ≡ some a → IsLive c a)
      → Runs
          (store_server i u)
          (λ x d. (d.db ≡ c.db) × (d.msg ≡ c.msg) × (d.servers ≡ set c.servers i u))
          c
  unfolding store_server
  store_server-Runs i t u e ping = record {
    value = tt;
    after = record c { servers = set c.servers i u };
    ran = rw (e, store_server) refl;
    safe = record {
      db = s.db;
      real = s.real;
      ping = λ j a v there p. elim (set_or_kept c.servers i j u v there) [
        | inl new ↦ ping a (ground arith)
        | inr old ↦ s.ping j a v old p
      ];
      child = s.child;
    };
    extends = record { flows = λ a l. l; servers = λ j h. set_has c.servers i j u h };
    post = (refl, refl, refl);
  }

-- What is done to a flow by an event that is sent to it.
abbrev pub SentTo : ℕ → Sys → FlowState → Sys → Type 0
SentTo a c st d = TouchesFlow a c d × ((g : Flow) × (d.db.heap a ≡ some g) × (g.state ≡ st))

pub send_event-Runs :
    (c : Sys)
    → IsSafe c
    → (a : ℕ) (ev : FlowEvent) (msg : Option RecvMsg) → IsLive c a
    → HasMsg ev msg
    → Runs (send_event a ev msg) (SentTo a c) c
unfolding send_event
send_event-Runs c s a ev msg l h = then_do (eval_flow-Runs c s a l) (λ before c1 s1 x1 e1.
    then_do (run_events-Runs c1 s1 a ev msg (x1.flows a l) h) (λ st c2 s2 x2 q2.
      then_do (eval_flow-Runs c2 s2 a (x2.flows a (x1.flows a l)))
        (λ after c3 s3 x3 e3. Runs-pure (SentTo a c) st c3 s3 (rw (e3, sym e1) q2))))

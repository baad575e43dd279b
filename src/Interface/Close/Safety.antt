-- ===== src/Interface/Close/Safety.antt =====
-- pcp_close_flow of lib/src/pcp_api.c follows no pointer to nothing.
use emulebb_libpcpnatpmp.Base.{
  ℕ, zero, suc, ◌≤◌, ◌≡◌, ◌≢◌, refl, sym, ap, ◌∙◌, arith, Bool, List, [], ◌∷◌, Option, none, some,
  inl, inr, Option-cases, get_elem?, length,
}
use emulebb_libpcpnatpmp.TimeVal.{TimeVal, zero_time}
use emulebb_libpcpnatpmp.Wire.{In6Addr}
use emulebb_libpcpnatpmp.Data.{Flow, pfs_any, Server}
use emulebb_libpcpnatpmp.FlowMachine.Send.{pcp_flow_clear_msg_buf}
use emulebb_libpcpnatpmp.FlowMachine.Api.{
  is_inactive, pcp_close_flow_intern, begin_close, end_close, pcp_flow_updated, FlowAndServer,
}
use emulebb_libpcpnatpmp.ClientDb.Rekey.{Children, no_more, child}
use emulebb_libpcpnatpmp.ClientDb.Servers.{get_pcp_server}
use emulebb_libpcpnatpmp.System.{Sys}
use emulebb_libpcpnatpmp.System.Flows.{IsUpdate}
use emulebb_libpcpnatpmp.System.Sound.{
  IsSafe, Extends-refl, Runs, Always, Runs-pure, Runs-if, Runs-weaken, then_do,
}
use emulebb_libpcpnatpmp.System.Actions.{
  gettimeofday-Runs, load-Runs, store-Runs, store_server-Runs,
}
use emulebb_libpcpnatpmp.Pulse.{Datagram}
use emulebb_libpcpnatpmp.Pulse.Safety.{pcp_pulse-Runs}
use emulebb_libpcpnatpmp.Interface.Delete.Chains.{Children-once, Children-kept}
use emulebb_libpcpnatpmp.Interface.Close.{
  server_at, put_server, close_times, close_at, close_loop, pulse_after, pcp_close_flow,
}

module _ (now later : TimeVal) (f : Flow) (o : Option Server) where
  abbrev closed : FlowAndServer
  closed = pcp_close_flow_intern now later (f, o)

  closed-IsUpdate : f.state ≢ pfs_any → IsUpdate f closed.0
  unfolding pcp_close_flow_intern begin_close end_close pcp_flow_updated pcp_flow_clear_msg_buf
  closed-IsUpdate real = record {
    address = ground arith;
    key_bucket = ground arith;
    next_child = ground arith;
    real = ground arith;
  }

  closed-next_child : closed.0.next_child ≡ f.next_child
  unfolding pcp_close_flow_intern begin_close end_close pcp_flow_updated pcp_flow_clear_msg_buf
  closed-next_child = ground arith

  closed_server :
      (t : Server)
      → closed.1 ≡ some t
      → (s : Server) × (o ≡ some s) × (t.ping_flow_msg ≡ s.ping_flow_msg)
  unfolding pcp_close_flow_intern begin_close end_close pcp_flow_updated pcp_flow_clear_msg_buf
  closed_server t e = elim (Option-cases o) [
    | inl n ↦ absurd (ground (arith, n))
    | inr (s, p) ↦ (s, p, ground (arith, p))
  ]

in_array :
    (ss : List Server) (i : ℕ) (s : Server) → get_pcp_server ss i ≡ some s → get_elem? ss i ≡ some s
unfolding get_pcp_server
in_array ss i s e = elim (Option-cases (get_elem? ss i)) [
  | inl n ↦ absurd (ground (arith, n))
  | inr (t, n) ↦ ground (arith, n)
]

server_at-Runs :
    (i : ℕ) (c : Sys)
    → IsSafe c
    → Runs (server_at i) (λ o d. (d ≡ c) × (o ≡ get_pcp_server c.servers i)) c
unfolding server_at
server_at-Runs i c s = record {
  value = get_pcp_server c.servers i;
  after = c;
  ran = refl;
  safe = s;
  extends = Extends-refl c;
  post = (refl, refl);
}

put_server-Runs :
    (i : ℕ) (o : Option Server) (c : Sys)
    → IsSafe c
    → ((t : Server)
        → o ≡ some t
        → (s : Server) × (get_elem? c.servers i ≡ some s) × (t.ping_flow_msg ≡ s.ping_flow_msg))
    → Runs (put_server i o) (λ u d. d.db ≡ c.db) c
unfolding put_server
put_server-Runs i none c s h = Runs-pure _ tt c s refl
put_server-Runs i (some t) c s h =
    let (u, e, p) = h t refl in
    Runs-weaken _ _ _ c (store_server-Runs c s i u t e (λ a q. s.ping i a u e (sym p ∙ q)))
      (λ x d q. q.0)

close_times-Runs :
    (inactive : Bool) (c : Sys)
    → IsSafe c
    → Runs (close_times inactive) (λ t d. (d.db ≡ c.db) × (d.servers ≡ c.servers)) c
unfolding close_times
close_times-Runs inactive c s =
    Runs-if inactive _ _ _ c (λ yes. Runs-pure _ (zero_time, zero_time) c s (refl, refl))
      (λ no. then_do (gettimeofday-Runs c s) (λ now c1 s1 x1 (d1, v1, m1).
        then_do (gettimeofday-Runs c1 s1)
          (λ later c2 s2 x2 (d2, v2, m2). Runs-pure _ (now, later) c2 s2 (d2 ∙ d1, v2 ∙ v1))))

-- Another flow is as it was, and the chain goes on from this one as before.
abbrev Closes : ℕ → Flow → Sys → Sys → Type 0
Closes a f c d =
    ((g : Flow) × (d.db.heap a ≡ some g) × (g.next_child ≡ f.next_child))
    × ((b : ℕ) → b ≢ a → d.db.heap b ≡ c.db.heap b)

close_at-Runs :
    (a : ℕ) (f : Flow) (c : Sys)
    → IsSafe c
    → c.db.heap a ≡ some f
    → Runs (close_at a) (λ u d. Closes a f c d) c
unfolding close_at
close_at-Runs a f c s e = then_do (load-Runs c s a (f, e)) (λ f' c1 s1 x1 (eq1, e1).
    then_do (close_times-Runs (is_inactive f'.state) c1 s1) (λ t c2 s2 x2 (d2, v2).
      then_do (server_at-Runs f'.pcp_server_indx c2 s2) (λ o c3 s3 x3 (eq3, is).
        let same : f' ≡ f = ground (arith, sym e1 ∙ e) in
        let db : c3.db ≡ c.db = ap (λ x. x.db) eq3 ∙ d2 ∙ ap (λ x. x.db) eq1 in
        let here : c3.db.heap a ≡ some f' = ap (λ x. x.heap a) db ∙ e1 in
        then_do
          (store-Runs c3 s3 a f' (closed t.0 t.1 f' o).0 here
            (closed-IsUpdate t.0 t.1 f' o (s3.real a f' here)))
          (λ u c4 s4 x4 (t4, e4).
            Runs-weaken _ _ _ c4
              (put_server-Runs f'.pcp_server_indx (closed t.0 t.1 f' o).1 c4 s4 (λ v p.
                let (w, q, k) = closed_server t.0 t.1 f' o v p in
                (
                  w,
                  ap (λ x. get_elem? x f'.pcp_server_indx) (t4.servers ∙ ap (λ x. x.servers) eq3)
                      ∙ in_array c2.servers f'.pcp_server_indx w (sym is ∙ q),
                  k,
                )))
              (λ x d q. (
                (
                  (closed t.0 t.1 f' o).0,
                  ap (λ y. y.heap a) q ∙ e4,
                  closed-next_child t.0 t.1 f' o ∙ ap (λ y. y.next_child) same,
                ),
                λ b n. ap (λ y. y.heap b) q ∙ t4.others b n ∙ ap (λ y. y.heap b) db,
              ))))))

close_loop-Runs :
    (fuel : ℕ) (o : Option ℕ) (cs : List ℕ) (c : Sys)
    → IsSafe c
    → Children c.db.heap o cs
    → length cs ≤ fuel
    → Runs (close_loop fuel o) Always c
unfolding close_loop
close_loop-Runs fuel none [] c s no_more l = Runs-pure Always tt c s tt
close_loop-Runs (suc fuel) (some _) (a ∷ cs) c s (child {f} e ch) l =
    then_do (close_at-Runs a f c s e) (λ u c1 s1 x1 ((g, e1, k), others).
      then_do (load-Runs c1 s1 a (g, e1)) (λ h c2 s2 x2 (eq, e2).
        let off = Children-once c.db.heap a f cs e ch in
        let kept =
          Children-kept {h' = c1.db.heap} (λ b o. others b (λ q. ground (arith, off))) ch in
        let same : h ≡ g = ground (arith, sym e2 ∙ e1) in
        close_loop-Runs fuel h.next_child cs c2 s2 (rw (eq, same, k) kept) (omega arith)))
close_loop-Runs fuel none (a ∷ cs) c s ch l = elim ch [ ]
close_loop-Runs zero (some _) [] c s ch l = elim ch [ ]
close_loop-Runs (suc fuel) (some _) [] c s ch l = elim ch [ ]
close_loop-Runs zero (some _) (a ∷ cs) c s (child e ch) l = absurd (omega arith)

module _ (is_linklocal : In6Addr → Bool) (rounds : ℕ) (d : Option Datagram) where
  pulse_after-Runs :
      (o : Option ℕ) (c : Sys) → IsSafe c → Runs (pulse_after is_linklocal rounds d o) Always c
  unfolding pulse_after
  pulse_after-Runs none c s = Runs-pure Always tt c s tt
  pulse_after-Runs (some a) c s =
      then_do (pcp_pulse-Runs is_linklocal rounds d zero_time c s)
        (λ t c1 s1 x1 q1. Runs-pure Always tt c1 s1 tt)

  -- From a safe state pcp_close_flow of a chain with no more flows than addresses have been given out
  -- comes to its end: it follows no null or dangling pointer, and leaves a safe state in which no
  -- flow and no server is lost.
  pub pcp_close_flow-Runs :
      (o : Option ℕ) (cs : List ℕ) (c : Sys)
      → IsSafe c
      → Children c.db.heap o cs
      → length cs ≤ c.db.next_address
      → Runs (pcp_close_flow is_linklocal rounds d o) Always c
  unfolding pcp_close_flow
  pcp_close_flow-Runs o cs c s ch l =
      let r =
        then_do {k = λ _. pulse_after is_linklocal rounds d o}
          (close_loop-Runs c.db.next_address o cs c s ch l)
          (λ u c1 s1 x1 q1. pulse_after-Runs o c1 s1) in
      record {
        value = r.value;
        after = r.after;
        ran = r.ran;
        safe = r.safe;
        extends = r.extends;
        post = tt;
      }

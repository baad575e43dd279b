-- ===== src/ServerMachine/Safety/Machine.antt =====
-- run_server_state_machine of lib/src/pcp_event_handler.c keeps the state of the context safe and
-- follows the state diagram of a server.
use emulebb_libpcpnatpmp.Base.{ℕ, ◌≡◌, refl, sym, ◌∙◌, arith, true, some, get_elem?}
use emulebb_libpcpnatpmp.Data.{Server, ServerState, PcpEvent}
use emulebb_libpcpnatpmp.System.{Sys}
use emulebb_libpcpnatpmp.System.Sound.{IsSafe, HasServer, Runs, Runs-pure, Runs-weaken, then_do}
use emulebb_libpcpnatpmp.System.Actions.{gettimeofday-Runs, load_server-Runs, store_server-Runs}
use emulebb_libpcpnatpmp.System.Iterate.Safety.{keep_server-Runs}
use emulebb_libpcpnatpmp.ServerMachine.Table.{
  ServerHandler, pcp_terminate_server, handle_server_ping, handle_wait_ping_resp_timeout,
  handle_wait_ping_resp_recv, handle_version_negotiation, handle_send_all_msgs,
  handle_wait_io_receive_msg, handle_wait_io_timeout, handle_server_restart, handle_server_reping,
  handle_server_set_not_working, handle_server_not_working, ignore_events,
  log_unexepected_state_event, same_server_state,
}
use emulebb_libpcpnatpmp.ServerMachine.Simple.{
  Step, server_reping, terminate_server, ignored_event, unexpected_event,
}
use emulebb_libpcpnatpmp.ServerMachine.Dispatch.{reaction_of, server_handler-reaction_of}
use emulebb_libpcpnatpmp.ServerMachine.Machine.{
  take_step, call_handler, enter_state, run_server_handler, run_server_state_machine,
}
use emulebb_libpcpnatpmp.ServerMachine.Safety.{leads_to, may_enter}
use emulebb_libpcpnatpmp.ServerMachine.Safety.Broadcast.{
  send_all_msgs-Runs, server_restart-Runs, wait_io_timeout-Runs, server_set_not_working-Runs,
}
use emulebb_libpcpnatpmp.ServerMachine.Safety.Ping.{set_there}
use emulebb_libpcpnatpmp.ServerMachine.Safety.Rounds.{server_ping-Runs}
use emulebb_libpcpnatpmp.ServerMachine.Safety.Negotiation.{
  wait_ping_resp_timeout-Runs, version_negotiation-Runs,
}
use emulebb_libpcpnatpmp.ServerMachine.Safety.Receive.{
  wait_io_receive_msg-Runs, wait_ping_resp_recv-Runs, server_not_working-Runs,
}

module _ (i : ℕ) where
  -- A handler that only writes the server keeps its ping message.
  take_step-Runs :
      (g : Server → Step) (Q : ServerState → Type 0) (c : Sys) (t : Server)
      → IsSafe c
      → get_elem? c.servers i ≡ some t
      → (g t).1.ping_flow_msg ≡ t.ping_flow_msg
      → Q (g t).0
      → Runs (take_step i g) (λ st d. Q st) c
  unfolding take_step
  take_step-Runs g Q c t s e p q = then_do (load_server-Runs c s i (t, e)) (λ u c1 s1 x1 (eq, e1).
      let same : u ≡ t = ground (arith, sym e1 ∙ e) in
      then_do (keep_server-Runs i u (g u).1 c1 s1 (rw eq e1) (rw same p))
        (λ v c2 s2 x2 q2. Runs-pure _ (g u).0 c2 s2 (rw same q)))

  same_as_itself : (cur : ServerState) → same_server_state cur cur ≡ true
  same_as_itself cur = ground arith

  call_handler-Runs :
      (h : ServerHandler) (t : Server) (c : Sys)
      → IsSafe c
      → get_elem? c.servers i ≡ some t
      → Runs (call_handler h i) (λ st d. leads_to t.server_state h st ≡ true) c
  unfolding call_handler terminate_server server_reping ignored_event unexpected_event
  call_handler-Runs pcp_terminate_server t c s e =
      take_step-Runs terminate_server (λ st. leads_to t.server_state pcp_terminate_server st ≡ true)
        c t s e refl refl
  call_handler-Runs handle_server_ping t c s e = server_ping-Runs i t.server_state c s (t, e)
  call_handler-Runs handle_wait_ping_resp_timeout t c s e =
      wait_ping_resp_timeout-Runs i t.server_state c s (t, e)
  call_handler-Runs handle_wait_ping_resp_recv t c s e =
      wait_ping_resp_recv-Runs i t.server_state c s (t, e)
  call_handler-Runs handle_version_negotiation t c s e =
      version_negotiation-Runs i t.server_state c s (t, e)
  call_handler-Runs handle_send_all_msgs t c s e = send_all_msgs-Runs i t.server_state c s (t, e)
  call_handler-Runs handle_wait_io_receive_msg t c s e =
      wait_io_receive_msg-Runs i t.server_state c s (t, e)
  call_handler-Runs handle_wait_io_timeout t c s e =
      wait_io_timeout-Runs i t.server_state c s (t, e)
  call_handler-Runs handle_server_restart t c s e = server_restart-Runs i t.server_state c s (t, e)
  call_handler-Runs handle_server_reping t c s e =
      then_do (gettimeofday-Runs c s) (λ now c1 s1 x1 (db, sv, m).
        take_step-Runs (server_reping now)
          (λ st. leads_to t.server_state handle_server_reping st ≡ true) c1 t s1 (rw sv e) refl
          refl)
  call_handler-Runs handle_server_set_not_working t c s e =
      server_set_not_working-Runs i t.server_state c s (t, e)
  call_handler-Runs handle_server_not_working t c s e =
      server_not_working-Runs i t.server_state c s (t, e)
  call_handler-Runs ignore_events t c s e =
      take_step-Runs ignored_event (λ st. leads_to t.server_state ignore_events st ≡ true) c t s e
        refl (same_as_itself t.server_state)
  call_handler-Runs log_unexepected_state_event t c s e =
      then_do (gettimeofday-Runs c s) (λ now c1 s1 x1 (db, sv, m).
        take_step-Runs (unexpected_event now)
          (λ st. leads_to t.server_state log_unexepected_state_event st ≡ true) c1 t s1 (rw sv e)
          refl refl)

  -- The server's record holds a state.
  abbrev pub InState : (ServerState → Type 0) → Sys → Type 0
  InState Q d = (u : Server) × (get_elem? d.servers i ≡ some u) × Q u.server_state

  enter_state-Runs :
      (st : ServerState) (Q : ServerState → Type 0) (c : Sys)
      → IsSafe c
      → HasServer c i
      → Q st
      → Runs (enter_state i st) (λ x d. InState Q d) c
  unfolding enter_state
  enter_state-Runs st Q c s h q = then_do (load_server-Runs c s i h) (λ t c1 s1 x1 (eq, e).
      let here : get_elem? c1.servers i ≡ some t = rw eq e in
      Runs-weaken _ _ _ c1
        (store_server-Runs c1 s1 i t (record t { server_state = st }) here
          (λ a. s1.ping i a t here))
        (λ x d (db, m, sv).
          (record t { server_state = st }, rw sv (set_there c1.servers i t _ here), q)))

  run_server_handler-Runs :
      (h : ServerHandler) (t : Server) (c : Sys)
      → IsSafe c
      → get_elem? c.servers i ≡ some t
      → Runs
          (run_server_handler i (some h))
          (λ x d. InState (λ st. leads_to t.server_state h st ≡ true) d)
          c
  unfolding run_server_handler
  run_server_handler-Runs h t c s e = then_do (call_handler-Runs h t c s e) (λ st c1 s1 x1 q.
      enter_state-Runs st (λ st. leads_to t.server_state h st ≡ true) c1 s1 (x1.servers i (t, e)) q)

  -- In a safe state and for a server of the array, run_server_state_machine comes to its end for every
  -- event, clock and socket without following a pointer to nothing, leaves a safe state in which no
  -- flow and no server is lost, and puts the server in a state that the diagram may_enter allows.
  pub run_server_state_machine-Runs :
      (ev : PcpEvent) (t : Server) (c : Sys)
      → IsSafe c
      → get_elem? c.servers i ≡ some t
      → Runs
          (run_server_state_machine i ev)
          (λ x d. InState (λ st. may_enter t.server_state ev st ≡ true) d)
          c
  unfolding run_server_state_machine
  run_server_state_machine-Runs ev t c s e =
      then_do (load_server-Runs c s i (t, e)) (λ u c1 s1 x1 (eq, e1).
        let same : u ≡ t = ground (arith, sym e1 ∙ e) in
        rw (same, server_handler-reaction_of t.server_state ev)
          (run_server_handler-Runs (reaction_of t.server_state ev) t c1 s1 (rw eq e)))

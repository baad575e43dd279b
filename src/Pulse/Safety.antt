-- ===== src/Pulse/Safety.antt =====
-- pcp_pulse of lib/src/pcp_event_handler.c follows no pointer to nothing, whatever it receives.
use emulebb_libpcpnatpmp.Base.{
  ℕ, zero, suc, ◌+◌, ◌<◌, ◌≤◌, ◌≡◌, refl, ap, ◌∙◌, arith, Bool, List, [], ◌∷◌, Option, none, some,
  inl, inr, Bool-cases, get_elem?, length, ◌==◌, ◌&&◌, not,
}
use emulebb_libpcpnatpmp.TimeVal.{TimeVal, zero_time, is_zero_time, timeval_subtract}
use emulebb_libpcpnatpmp.Wire.{In6Addr}
use emulebb_libpcpnatpmp.Data.{RecvMsg, Server, PcpEvent, pcpe_timeout, pcpe_io_event}
use emulebb_libpcpnatpmp.Msg.Parse.{validate_pcp_msg, parse_response}
use emulebb_libpcpnatpmp.ClientDb.Key.{in6_beq}
use emulebb_libpcpnatpmp.ClientDb.Servers.{is_unitialized, find_ip, get_pcp_server_by_ip, scope_of}
use emulebb_libpcpnatpmp.System.{Sys, pure}
use emulebb_libpcpnatpmp.System.Sound.{
  IsSafe, HasServer, Extends-refl, Runs, Always, Runs-pure, Runs-if, Runs-weaken, then_do,
}
use emulebb_libpcpnatpmp.System.Actions.{gettimeofday-Runs, load_server-Runs}
use emulebb_libpcpnatpmp.System.Iterate.Safety.{keep_server-Runs}
use emulebb_libpcpnatpmp.ServerMachine.Table.{same_pcp_event}
use emulebb_libpcpnatpmp.ServerMachine.Machine.{run_server_state_machine}
use emulebb_libpcpnatpmp.ServerMachine.Safety.Machine.{run_server_state_machine-Runs}
use emulebb_libpcpnatpmp.ServerMachine.Safety.Receive.{put_msg-Runs}
use emulebb_libpcpnatpmp.ServerMachine.Receive.{put_msg}
use emulebb_libpcpnatpmp.Pulse.{
  timeouts_loop, handle_server, hserver_iter, foreach_server, count_servers, Datagram, read_msg,
  complete_key, server_of, give_to_server, is_success, receive, pcp_pulse,
}

-- Any event can be given to a server that is there.
event-Runs :
    (i : ℕ) (ev : PcpEvent) (c : Sys)
    → IsSafe c
    → HasServer c i
    → Runs (run_server_state_machine i ev) Always c
event-Runs i ev c s (t, e) =
    Runs-weaken _ _ Always c (run_server_state_machine-Runs i ev t c s e) (λ x d q. tt)

pub timeouts_loop-Runs :
    (fuel i : ℕ) (c : Sys) → IsSafe c → HasServer c i → Runs (timeouts_loop fuel i) Always c
unfolding timeouts_loop
timeouts_loop-Runs zero i c s h = Runs-pure Always none c s tt
timeouts_loop-Runs (suc fuel) i c s h = then_do (gettimeofday-Runs c s) (λ ctv c1 s1 x1 q1.
    then_do (load_server-Runs c1 s1 i (x1.servers i h)) (λ t c2 s2 x2 (eq, e).
      Runs-if (is_zero_time t.next_timeout) _ _ Always c2
        (λ idle. Runs-pure Always (some ctv) c2 s2 tt)
        (λ set.
          then_do
            (keep_server-Runs i t
              (record t { next_timeout = (timeval_subtract t.next_timeout ctv).left }) c2 s2
              (rw eq e) refl)
            (λ u c3 s3 x3 q3.
              let has = x3.servers i (x2.servers i (x1.servers i h)) in
              Runs-if (timeval_subtract t.next_timeout ctv).negative _ _ Always c3
                (λ late.
                  then_do (event-Runs i pcpe_timeout c3 s3 has)
                    (λ v c4 s4 x4 q4. timeouts_loop-Runs fuel i c4 s4 (x4.servers i has)))
                (λ early. Runs-pure Always _ c3 s3 tt)))))

module _ (fuel i : ℕ) (ev : PcpEvent) where
  handle_server-Runs :
      (t : TimeVal) (c : Sys) → IsSafe c → HasServer c i → Runs (handle_server fuel ev i t) Always c
  unfolding handle_server
  handle_server-Runs t c s h =
      then_do
        (Runs-if (same_pcp_event ev pcpe_timeout) (pure tt) (run_server_state_machine i ev) Always c
          (λ yes. Runs-pure Always tt c s tt) (λ no. event-Runs i ev c s h))
        (λ u c1 s1 x1 q1.
          then_do (timeouts_loop-Runs fuel i c1 s1 (x1.servers i h)) (λ left c2 s2 x2 q2.
            then_do (load_server-Runs c2 s2 i (x2.servers i (x1.servers i h)))
              (λ v c3 s3 x3 q3. Runs-pure Always _ c3 s3 tt)))

  hserver_iter-Runs :
      (t : TimeVal) (c : Sys) → IsSafe c → HasServer c i → Runs (hserver_iter fuel ev i t) Always c
  unfolding hserver_iter
  hserver_iter-Runs t c s h = then_do (load_server-Runs c s i h) (λ u c1 s1 x1 q1.
      Runs-if (is_unitialized u.server_state) _ _ Always c1 (λ unused. Runs-pure Always t c1 s1 tt)
        (λ used. handle_server-Runs t c1 s1 (x1.servers i h)))

-- The records from one index on, so many of them, are in the array.
abbrev pub HasServers : ℕ → ℕ → Sys → Type 0
HasServers i n c = (j : ℕ) → i ≤ j → j < i + n → HasServer c j

foreach_server-Runs :
    (fuel n i : ℕ) (t : TimeVal) (c : Sys)
    → IsSafe c
    → HasServers i n c
    → Runs (foreach_server fuel n i t) Always c
unfolding foreach_server
foreach_server-Runs fuel zero i t c s h = Runs-pure Always t c s tt
foreach_server-Runs fuel (suc n) i t c s h =
    then_do (hserver_iter-Runs fuel i pcpe_timeout t c s (h i (omega arith) (omega arith)))
      (λ r c1 s1 x1 q1.
        foreach_server-Runs fuel n (i + 1) r c1 s1
          (λ j p q. x1.servers j (h j (omega arith) (omega arith))))

server_below : (ss : List Server) (j : ℕ) → j < length ss → (t : Server) × (get_elem? ss j ≡ some t)
server_below [] j h = absurd (omega arith)
server_below (t ∷ ss) zero h = (t, refl)
server_below (t ∷ ss) (suc j) h = server_below ss j (omega arith)

pub count_servers-Runs : (c : Sys) → IsSafe c → Runs count_servers (λ n d. HasServers 0 n d) c
unfolding count_servers
count_servers-Runs c s = record {
  value = length c.servers;
  after = c;
  ran = refl;
  safe = s;
  extends = Extends-refl c;
  post = λ j p q. server_below c.servers j (omega arith);
}

module _ (is_linklocal : In6Addr → Bool) where
  find_ip-there :
      (ip : In6Addr) (scope k j : ℕ) (ss : List Server)
      → find_ip is_linklocal ip scope ss k ≡ some j
      → (m : ℕ) × (j ≡ k + m) × ((t : Server) × (get_elem? ss m ≡ some t))
  unfolding find_ip
  find_ip-there ip scope k j [] e = absurd (ground arith)
  find_ip-there ip scope k j (t ∷ ss) e =
      elim (Bool-cases
        (not (is_unitialized t.server_state) && in6_beq ip t.pcp_ip && scope == t.pcp_scope_id)) [
          | inl p ↦ (0, ground (arith, p), (t, refl))
          | inr p ↦
              let (m, eq, there) = find_ip-there ip scope (k + 1) j ss (rw p at e) in
              (suc m, omega arith, there)
        ]

  server_of-Runs :
      (g : Datagram) (c : Sys)
      → IsSafe c
      → Runs (server_of is_linklocal g) (λ found d. (j : ℕ) → found ≡ some j → HasServer d j) c
  unfolding server_of get_pcp_server_by_ip
  server_of-Runs g c s = record {
    value = get_pcp_server_by_ip is_linklocal g.from_ip g.from_scope c.servers;
    after = c;
    ran = refl;
    safe = s;
    extends = Extends-refl c;
    post = λ j e.
        let (m, eq, (t, there)) =
          find_ip-there g.from_ip (scope_of is_linklocal g.from_ip g.from_scope) 0 j c.servers e in
        let same : j ≡ m = omega arith in (t, ap (get_elem? c.servers) same ∙ there);
  }

  give_to_server-Runs :
      (fuel : ℕ) (g : Datagram) (m : RecvMsg) (found : Option ℕ) (c : Sys)
      → IsSafe c
      → ((j : ℕ) → found ≡ some j → HasServer c j)
      → Runs (give_to_server is_linklocal fuel g m found) Always c
  unfolding give_to_server
  give_to_server-Runs fuel g m none c s h =
      Runs-weaken _ _ Always c (put_msg-Runs m c s) (λ u d q. tt)
  give_to_server-Runs fuel g m (some i) c s h =
      then_do (load_server-Runs c s i (h i refl)) (λ t c1 s1 x1 q1.
        then_do (put_msg-Runs (complete_key g t m) c1 s1) (λ u c2 s2 x2 q2.
          then_do
            (hserver_iter-Runs fuel i pcpe_io_event zero_time c2 s2
              (x2.servers i (x1.servers i (h i refl))))
            (λ v c3 s3 x3 q3. Runs-pure Always tt c3 s3 tt)))

  store_msg-Runs : (m : RecvMsg) (c : Sys) → IsSafe c → Runs (put_msg m) Always c
  store_msg-Runs m c s = Runs-weaken _ _ Always c (put_msg-Runs m c s) (λ u d q. tt)

  receive-Runs :
      (fuel : ℕ) (g : Option Datagram) (c : Sys)
      → IsSafe c
      → Runs (receive is_linklocal fuel g) Always c
  unfolding receive
  receive-Runs fuel none c s = store_msg-Runs _ c s
  receive-Runs fuel (some g) c s =
      Runs-if (validate_pcp_msg (read_msg g)) _ _ Always c
        (λ valid.
          Runs-if (is_success (parse_response (read_msg g)).0) _ _ Always c
            (λ good.
              then_do (server_of-Runs g c s)
                (λ found c1 s1 x1 h. give_to_server-Runs fuel g _ found c1 s1 h))
            (λ bad. store_msg-Runs _ c s))
        (λ invalid. store_msg-Runs _ c s)

  -- From a safe state pcp_pulse comes to its end for every datagram or none, every timeout, clock and
  -- socket, and every number of rounds that the loop of hserver_iter is given: it follows no null or
  -- dangling pointer, and leaves a safe state in which no flow and no server is lost.
  pub pcp_pulse-Runs :
      (fuel : ℕ) (g : Option Datagram) (next_timeout : TimeVal) (c : Sys)
      → IsSafe c
      → Runs (pcp_pulse is_linklocal fuel g next_timeout) Always c
  unfolding pcp_pulse
  pcp_pulse-Runs fuel g next_timeout c s = then_do (receive-Runs fuel g c s) (λ u c1 s1 x1 q1.
      then_do (count_servers-Runs c1 s1)
        (λ n c2 s2 x2 h. foreach_server-Runs fuel n 0 next_timeout c2 s2 h))

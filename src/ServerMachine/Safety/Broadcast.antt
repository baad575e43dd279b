-- ===== src/ServerMachine/Safety/Broadcast.antt =====
-- The handlers of lib/src/pcp_event_handler.c that go through all flows run.
use emulebb_libpcpnatpmp.Base.{ℕ, ◌≡◌, refl, true}
use emulebb_libpcpnatpmp.TimeVal.{TimeVal, zero_time, is_zero_time}
use emulebb_libpcpnatpmp.Data.{
  ServerState, pss_wait_io, pss_wait_io_calc_nearest_timeout, pss_not_working,
  fev_server_initialized, fev_server_restarted, fev_failed,
}
use emulebb_libpcpnatpmp.System.{Sys}
use emulebb_libpcpnatpmp.System.Sound.{IsSafe, HasServer, Runs, Always, Runs-pure, Runs-if, then_do}
use emulebb_libpcpnatpmp.System.Actions.{gettimeofday-Runs, load_server-Runs}
use emulebb_libpcpnatpmp.System.Iterate.Safety.{
  flow_addresses-Runs, foreach-Runs, check_flow_timeout-Runs, send_to_all-Runs, keep_server-Runs,
}
use emulebb_libpcpnatpmp.System.Iterate.{check_flow_timeout}
use emulebb_libpcpnatpmp.ServerMachine.Table.{
  handle_send_all_msgs, handle_server_restart, handle_wait_io_timeout,
  handle_server_set_not_working,
}
use emulebb_libpcpnatpmp.ServerMachine.Safety.{leads_to}
use emulebb_libpcpnatpmp.ServerMachine.Broadcast.{
  set_next_timeout, set_timeout_now, send_all_msgs, server_restart, set_nearest, wait_io_timeout,
  server_set_not_working,
}

module _ (i : ℕ) where
  pub set_next_timeout-Runs :
      (t : TimeVal) (c : Sys) → IsSafe c → HasServer c i → Runs (set_next_timeout i t) Always c
  unfolding set_next_timeout
  set_next_timeout-Runs t c s h =
      then_do (load_server-Runs c s i h)
        (λ u d sd x (eq, e). keep_server-Runs i u _ d sd (rw eq e) refl)

  pub set_timeout_now-Runs :
      (c : Sys) → IsSafe c → HasServer c i → Runs (set_timeout_now i) Always c
  unfolding set_timeout_now
  set_timeout_now-Runs c s h =
      then_do (gettimeofday-Runs c s) (λ t d sd x q. set_next_timeout-Runs t d sd (x.servers i h))

  module _ (cur : ServerState) (c : Sys) (s : IsSafe c) (h : HasServer c i) where
    pub send_all_msgs-Runs :
        Runs (send_all_msgs i) (λ st d. leads_to cur handle_send_all_msgs st ≡ true) c
    unfolding send_all_msgs
    send_all_msgs-Runs =
        then_do (send_to_all-Runs i fev_server_initialized c tt s h) (λ u c1 s1 x1 q1.
          then_do (set_timeout_now-Runs c1 s1 (x1.servers i h))
            (λ v c2 s2 x2 q2. Runs-pure _ pss_wait_io_calc_nearest_timeout c2 s2 refl))

    pub server_restart-Runs :
        Runs (server_restart i) (λ st d. leads_to cur handle_server_restart st ≡ true) c
    unfolding server_restart
    server_restart-Runs =
        then_do (send_to_all-Runs i fev_server_restarted c tt s h) (λ u c1 s1 x1 q1.
          then_do (load_server-Runs c1 s1 i (x1.servers i h)) (λ t c2 s2 x2 (eq, e).
            then_do (keep_server-Runs i t _ c2 s2 (rw eq e) refl) (λ v c3 s3 x3 q3.
              then_do (set_timeout_now-Runs c3 s3 (x3.servers i (x2.servers i (x1.servers i h))))
                (λ w c4 s4 x4 q4. Runs-pure _ pss_wait_io_calc_nearest_timeout c4 s4 refl))))

  set_nearest-Runs :
      (t : TimeVal) (c : Sys) → IsSafe c → HasServer c i → Runs (set_nearest i t) Always c
  unfolding set_nearest
  set_nearest-Runs t c s h =
      Runs-if (is_zero_time t) _ _ Always c (λ _. set_next_timeout-Runs t c s h)
        (λ _.
          then_do (gettimeofday-Runs c s)
            (λ now d sd x q. set_next_timeout-Runs _ d sd (x.servers i h)))

  module _ (cur : ServerState) (c : Sys) (s : IsSafe c) (h : HasServer c i) where
    pub wait_io_timeout-Runs :
        Runs (wait_io_timeout i) (λ st d. leads_to cur handle_wait_io_timeout st ≡ true) c
    unfolding wait_io_timeout
    wait_io_timeout-Runs = then_do (flow_addresses-Runs c s) (λ l c1 s1 x1 (eq, live, q1).
        then_do
          (foreach-Runs check_flow_timeout (λ a t d sd ld. check_flow_timeout-Runs a t d sd ld) l
            zero_time c1 s1 live)
          (λ t c2 s2 x2 q2.
            then_do (set_nearest-Runs t c2 s2 (x2.servers i (x1.servers i h)))
              (λ u c3 s3 x3 q3. Runs-pure _ pss_wait_io c3 s3 refl)))

    pub server_set_not_working-Runs :
        Runs
          (server_set_not_working i)
          (λ st d. leads_to cur handle_server_set_not_working st ≡ true)
          c
    unfolding server_set_not_working
    server_set_not_working-Runs = then_do (send_to_all-Runs i fev_failed c tt s h) (λ u c1 s1 x1 q1.
        then_do (gettimeofday-Runs c1 s1) (λ now c2 s2 x2 q2.
          then_do (set_next_timeout-Runs _ c2 s2 (x2.servers i (x1.servers i h)))
            (λ v c3 s3 x3 q3. Runs-pure _ pss_not_working c3 s3 refl)))

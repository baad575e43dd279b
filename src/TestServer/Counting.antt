-- ===== src/TestServer/Counting.antt =====
-- How many requests the server of test-server/pcp-server.c answers before it stops.
use emulebb_libpcpnatpmp.Base.{
  ℕ, zero, suc, ◌<◌, ◌≡◌, refl, ap, ◌∙◌, arith, true, false, List, [], ◌∷◌, length, Bool, ◌-ℤ◌, pos,
  negsuc, if◌then◌else◌, ltb,
}
use emulebb_libpcpnatpmp.TimeVal.{TimeVal, is_zero_time}
use emulebb_libpcpnatpmp.Wire.{Buffer}
use emulebb_libpcpnatpmp.TestServer.{ServerInfo, TestServer, reset_option_occur}
use emulebb_libpcpnatpmp.TestServer.Analysis.{print_pcp_req}
use emulebb_libpcpnatpmp.TestServer.Running.{
  datagram, PulseIo, Pulsed, Executed, pcp_test_server_start, pcp_test_server_pulse,
  pcp_test_server_stop, count_message, answer_request, handle_arrival, with_response, after_pulse,
  without_response, exec_pulses, exec_pcp_server,
}

-- No METADATA option of the request is longer than the buffer that print_PCP_options copies it to.
abbrev pub FitsMetadata : ℕ → ℕ → Buffer → Type 0
FitsMetadata version size m = (print_pcp_req m size reset_option_occur version).1.overrun ≡ false

-- A pulse that meets a datagram, however long it waits; the server's version tells which options
-- are read.
pub data MeetsDatagram (version : ℕ) : PulseIo → Type 0 where
  meets :
      (tod : TimeVal) (size : ℕ) (m : Buffer) (time : ℕ)
      → FitsMetadata version size m
      → MeetsDatagram version (record { tod = tod; wait = λ t. datagram size m time })

abbrev pub AllMeet : ℕ → List PulseIo → Type 0
AllMeet version [] = Unit {0}
AllMeet version (io ∷ rest) = MeetsDatagram version io × AllMeet version rest

-- The server waits for `n` messages more, without a time limit, and runs while there are any.
pub record IsCounting (n : ℕ) (v : TestServer) : Type 0 where
  pub left : v.remaining_messages ≡ pos n
  pub forever : is_zero_time v.server_info.tv ≡ true
  pub up : v.running ≡ ltb 0 n

count_message-IsCounting :
    (n : ℕ) (v : TestServer) → IsCounting (suc n) v → IsCounting n (count_message v)
unfolding count_message pcp_test_server_stop ◌-ℤ◌
count_message-IsCounting n v h = ground (arith, h.left, h.forever, h.up)

-- Of the messages that come, `n` at most are answered, and the server runs while more are due.
pub record Answered (n : ℕ) (ios : List PulseIo) (e : Executed) : Type 0 where
  pub count : length e.responses ≡ (if ltb (length ios) n then length ios else n)
  pub up : e.server.running ≡ ltb (length ios) n

module _ (rest : List PulseIo) (v : TestServer) where
  abbrev run_on : Bool → Pulsed → Executed
  run_on b p = if b then after_pulse p (exec_pulses rest p.server) else without_response v

  module _ (io : PulseIo) where
    exec_pulses-up :
        (b : Bool)
        → v.running ≡ b
        → exec_pulses (io ∷ rest) v ≡ run_on b (pcp_test_server_pulse io (negsuc 0) v)
    unfolding exec_pulses
    exec_pulses-up b e = ap (λ b. run_on b (pcp_test_server_pulse io (negsuc 0) v)) e

module _ (v : TestServer) (up : v.running ≡ true) (forever : is_zero_time v.server_info.tv ≡ true)
    (tod : TimeVal) (size : ℕ) (m : Buffer) (time : ℕ) (rest : List PulseIo) where
  abbrev arrives : PulseIo
  arrives = record { tod = tod; wait = λ t. datagram size m time }

  pulse_answers : pcp_test_server_pulse arrives (negsuc 0) v ≡ answer_request v size m time
  unfolding pcp_test_server_pulse handle_arrival
  pulse_answers = rw (up, forever) refl

  abbrev following : Executed
  following = exec_pulses rest (count_message v)

  one_response :
      (length (run_on rest v true (answer_request v size m time)).responses
        ≡ suc (length following.responses))
      × ((run_on rest v true (answer_request v size m time)).server ≡ following.server)
  unfolding after_pulse with_response answer_request
  one_response = (refl, refl)

  answered_one :
      (length (exec_pulses (arrives ∷ rest) v).responses ≡ suc (length following.responses))
      × ((exec_pulses (arrives ∷ rest) v).server ≡ following.server)
  answered_one =
      let e : exec_pulses (arrives ∷ rest) v ≡ run_on rest v true (answer_request v size m time) =
        exec_pulses-up rest v arrives true up ∙ ap (run_on rest v true) pulse_answers in
      (ap (λ d. length d.responses) e ∙ one_response.0, ap (λ d. d.server) e ∙ one_response.1)

none_met : (v : TestServer) → exec_pulses [] v ≡ without_response v
unfolding exec_pulses
none_met v = refl

stopped :
    (ios : List PulseIo) (v : TestServer)
    → v.running ≡ false
    → exec_pulses ios v ≡ without_response v
unfolding exec_pulses
stopped [] v h = refl
stopped (io ∷ rest) v h = exec_pulses-up rest v io false h

module _ (n k : ℕ) where
  one_more : suc (if ltb k n then k else n) ≡ (if ltb (suc k) (suc n) then suc k else suc n)
  one_more = ground arith

  as_many : ltb k n ≡ ltb (suc k) (suc n)
  as_many = ground arith

exec_pulses-Answered :
    (version n : ℕ) (ios : List PulseIo) (v : TestServer)
    → AllMeet version ios
    → IsCounting n v
    → Answered n ios (exec_pulses ios v)
exec_pulses-Answered version zero ios v a h =
    rw (stopped ios v (h.up ∙ ground arith))
      (record { count = ground arith; up = h.up ∙ ground arith })
exec_pulses-Answered version (suc n) [] v a h =
    rw (none_met v) (record { count = ground arith; up = h.up ∙ ground arith })
exec_pulses-Answered version (suc n) (_ ∷ rest) v (meets tod size m time fits, a) h =
    let k =
      exec_pulses-Answered version n rest (count_message v) a (count_message-IsCounting n v h) in
    let one = answered_one v (h.up ∙ ground arith) h.forever tod size m time rest in
    record {
      count = one.0 ∙ ap suc k.count ∙ one_more n (length rest);
      up = ap (λ w. w.running) one.1 ∙ k.up ∙ as_many n (length rest);
    }

-- A test server that is started to end after some requests, without a time limit, answers as
-- many of the datagrams that come one after another, where none has a METADATA option longer than
-- the buffer that it is copied to: all of them while there are fewer, and then it runs on; otherwise
-- it has stopped.
pub exec_pcp_server-Answered :
    (ios : List PulseIo) (tod : TimeVal) (info : ServerInfo)
    → AllMeet info.server_version ios
    → is_zero_time info.tv ≡ true
    → 0 < info.end_after_recv
    → Answered info.end_after_recv ios (exec_pcp_server ios tod info)
unfolding exec_pcp_server pcp_test_server_start
exec_pcp_server-Answered ios tod info a z some_due =
    exec_pulses-Answered info.server_version info.end_after_recv ios
      (pcp_test_server_start tod info) a
      (record { left = ground arith; forever = z; up = ground arith })

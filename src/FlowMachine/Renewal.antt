-- ===== src/FlowMachine/Renewal.antt =====
-- When a mapping is renewed: fhndl_received_success and fhndl_send_renew of
-- lib/src/pcp_event_handler.c.
use emulebb_libpcpnatpmp.Base.{
  ◌+◌, ◌≤◌, ◌<◌, ◌≡◌, ◌⊎◌, inl, inr, refl, arith, true, false, ◌==◌, pos_part, neg_part, some, ℤ,
  pos, ◌+ℤ◌, ◌-ℤ◌, ◌≤ℤ◌, ◌<ℤ◌, shr_one, +ℤ_parts, -ℤ_parts,
}
use emulebb_libpcpnatpmp.Data.{Flow, Server, RecvMsg, fev_none, fev_msg_sent}
use emulebb_libpcpnatpmp.Msg.Build.{build_pcp_msg, keep_msg}
use emulebb_libpcpnatpmp.FlowMachine.Send.{Io, send_built, pcp_flow_send_msg}
use emulebb_libpcpnatpmp.FlowMachine.Handlers.{
  sent_ok, long_max, lifetime_end, received_success_handler, send_renew_handler,
}

-- Half of a number that is not negative, rounded down.
shr_one_half :
    (a : ℤ)
    → pos 0 ≤ℤ a
    → (neg_part a ≡ 0)
      × (neg_part (shr_one a) ≡ 0)
      × (pos_part (shr_one a) + pos_part (shr_one a) ≤ pos_part a)
      × (pos_part a ≤ pos_part (shr_one a) + pos_part (shr_one a) + 1)
unfolding shr_one
shr_one_half a h = ground arith

shr_one_neg : (a : ℤ) → a <ℤ pos 0 → shr_one a <ℤ pos 0
unfolding shr_one
shr_one_neg a h = ground arith

-- The lesser of two numbers.
abbrev pub IsLesser : ℤ → ℤ → ℤ → Type 0
IsLesser a b e = (e ≤ℤ a) × (e ≤ℤ b) × ((e ≡ a) ⊎ (e ≡ b))

-- A second in the middle between two, rounded down.
abbrev pub IsMiddle : ℤ → ℤ → ℤ → Type 0
IsMiddle a b t = (t +ℤ t ≤ℤ a +ℤ b) × (a +ℤ b ≤ℤ t +ℤ t +ℤ pos 1)

lifetime_end-IsLesser :
    (msg : RecvMsg)
    → IsLesser (msg.received_time +ℤ pos msg.recv_lifetime) long_max (lifetime_end msg)
unfolding lifetime_end
lifetime_end-IsLesser msg =
    let d = -ℤ_parts long_max msg.received_time in
    let s = +ℤ_parts msg.received_time (pos msg.recv_lifetime) in ground (arith, d, s)

middle : (a b : ℤ) → a ≤ℤ b → IsMiddle a b (a +ℤ shr_one (b -ℤ a))
middle a b h =
    let d = -ℤ_parts b a in
    let (whole, zero_part, lo, hi) = shr_one_half (b -ℤ a) (omega arith) in
    let t = a +ℤ shr_one (b -ℤ a) in
    let s = +ℤ_parts a (shr_one (b -ℤ a)) in
    let u = +ℤ_parts t t in
    let v = +ℤ_parts a b in let w = +ℤ_parts (t +ℤ t) (pos 1) in (omega arith, omega arith)

-- A granted lifetime, not zero, that is not over when the response is handled is kept as its end, of
-- the sum of the time of the response and the lifetime and LONG_MAX the lesser, and the timeout is set
-- to the middle between now and that end, rounded down to a second.
pub received_success_handler_bounds :
    (io : Io) (msg : RecvMsg) (f : Flow)
    → 0 < msg.recv_lifetime
    → io.now.tv_sec ≤ℤ msg.received_time +ℤ pos msg.recv_lifetime
    → io.now.tv_sec ≤ℤ long_max
    → (g : Flow) × (received_success_handler io (some msg) f ≡ some (g, fev_none))
      × IsLesser (msg.received_time +ℤ pos msg.recv_lifetime) long_max g.recv_lifetime
      × IsMiddle io.now.tv_sec g.recv_lifetime g.timeout.tv_sec
unfolding received_success_handler
received_success_handler_bounds io msg f h k l =
    let end = lifetime_end-IsLesser msg in
    let before : io.now.tv_sec ≤ℤ lifetime_end msg = elim end.2 [
      | inl e ↦ rw e k
      | inr e ↦ rw e l
    ] in
    let given : (msg.recv_lifetime == 0) ≡ false = ground arith in
    (_, refl, end, rw given (middle io.now.tv_sec (lifetime_end msg) before))

pcp_flow_send_msg-recv_lifetime :
    (io : Io) (s : Server) (f : Flow)
    → (pcp_flow_send_msg io s f).flow.recv_lifetime ≡ f.recv_lifetime
unfolding pcp_flow_send_msg send_built build_pcp_msg keep_msg
pcp_flow_send_msg-recv_lifetime io s f = ground arith

-- A renewal that is sent, without an error of the sending, after the end of the mapping's lifetime is
-- reported as sent, not as failed, and its new timeout lies in the past.
pub send_renew_handler-expired :
    (io : Io) (s : Server) (f : Flow)
    → sent_ok (pcp_flow_send_msg io s f) ≡ true
    → f.recv_lifetime <ℤ io.now.tv_sec
    → (g : Flow) × (send_renew_handler io (some s) f ≡ some (g, fev_msg_sent))
      × (g.timeout.tv_sec <ℤ io.now.tv_sec)
unfolding send_renew_handler
send_renew_handler-expired io s f sent late =
    let r = pcp_flow_send_msg io s f in
    let left = r.flow.recv_lifetime -ℤ io.now.tv_sec in
    let d = -ℤ_parts r.flow.recv_lifetime io.now.tv_sec in
    let late' : r.flow.recv_lifetime <ℤ io.now.tv_sec =
      rw (pcp_flow_send_msg-recv_lifetime io s f) late in
    let neg = shr_one_neg left (omega arith) in
    let sum = +ℤ_parts io.now.tv_sec (shr_one left) in
    (
      record (r.flow) {
        timeout = record { tv_sec = io.now.tv_sec +ℤ shr_one left; tv_usec = io.now.tv_usec };
      },
      ground arith,
      omega arith,
    )

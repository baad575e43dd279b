-- ===== src/FlowMachine/Sending.antt =====
-- What pcp_flow_send_msg of lib/src/pcp_event_handler.c does with a flow's message.
use emulebb_libpcpnatpmp.Base.{ℕ, zero, suc, ◌+◌, ◌-◌, ◌≤◌, ◌<◌, ◌≡◌, refl, arith, pos_part}
use emulebb_libpcpnatpmp.Data.{err_success, Flow, Server}
use emulebb_libpcpnatpmp.Msg.Lengths.{IsPcpRequest, build_pcp_msg-FitsMessage}
use emulebb_libpcpnatpmp.Msg.Natpmp.{IsUnsupported, build_pcp_msg-natpmp_unsupported}
use emulebb_libpcpnatpmp.FlowMachine.Send.{Io, send_loop, ensure_msg, send_built, pcp_flow_send_msg}

-- With a round for each byte the loop ends by itself: more fuel changes nothing.
pub send_loop-fuel :
    (fuel : ℕ) (io : Io) (len to_send calls : ℕ)
    → to_send ≤ fuel
    → send_loop fuel io len to_send calls ≡ send_loop (suc fuel) io len to_send calls
unfolding send_loop
send_loop-fuel zero io len to_send calls h = ground arith
send_loop-fuel (suc fuel) io len to_send calls h = ground (
  arith,
  send_loop-fuel fuel io len (to_send - pos_part (io.sendto (len - to_send) to_send)) (calls + 1),
)

-- The outcome of a loop that has made `calls` calls: it succeeds or fails, and it has called the
-- socket again unless nothing was left to send.
pub send_loop_calls :
    (fuel : ℕ) (io : Io) (len to_send calls : ℕ)
    → to_send ≤ fuel
    → ((send_loop fuel io len to_send calls).1 ≡ calls → to_send ≡ 0)
      × (calls ≤ (send_loop fuel io len to_send calls).1)
      × ((send_loop fuel io len to_send calls).1 ≤ calls + to_send)
unfolding send_loop
send_loop_calls zero io len to_send calls h = ground arith
send_loop_calls (suc fuel) io len to_send calls h = ground (
  arith,
  send_loop_calls fuel io len (to_send - pos_part (io.sendto (len - to_send) to_send)) (calls + 1),
  io.sendto-le (len - to_send) to_send,
)

send_loop_nothing : (n : ℕ) (io : Io) → n ≡ 0 → send_loop n io n n 0 ≡ (err_success, 0)
unfolding send_loop
send_loop_nothing zero io h = refl
send_loop_nothing (suc n) io h = absurd (omega arith)

module _ (io : Io) (s : Server) (f : Flow) where
  send_built_calls : (g : Flow) → 0 < g.pcp_msg_len → 1 ≤ (send_built io g).calls
  unfolding send_built
  send_built_calls g h =
      ground (arith, send_loop_calls g.pcp_msg_len io g.pcp_msg_len g.pcp_msg_len 0)

  send_built_empty :
      (g : Flow)
      → g.pcp_msg_len ≡ 0
      → ((send_built io g).errno ≡ err_success) × ((send_built io g).calls ≡ 0)
  unfolding send_built
  send_built_empty g h = ground (arith, send_loop_nothing g.pcp_msg_len io h)

  -- A MAP or PEER request of PCP version 1 or 2 is handed to the socket: there is a message of at
  -- least one byte, and one call of sendto at least, also where the sending then fails.
  pub pcp_flow_send_msg-pcp_calls : IsPcpRequest s f → 1 ≤ (pcp_flow_send_msg io s f).calls
  unfolding pcp_flow_send_msg
  pcp_flow_send_msg-pcp_calls k =
      let t = build_pcp_msg-FitsMessage s f k in
      ground (arith, t.kept, t.len, send_built_calls (ensure_msg s f))

  -- A request that NAT-PMP does not have, of a flow with no message, is reported as sent to a
  -- NAT-PMP server though the socket is never called.
  pub pcp_flow_send_msg-natpmp_silent :
      s.pcp_version ≡ 0
      → IsUnsupported f
      → f.pcp_msg_len ≡ 0
      → ((pcp_flow_send_msg io s f).errno ≡ err_success) × ((pcp_flow_send_msg io s f).calls ≡ 0)
  unfolding pcp_flow_send_msg
  pcp_flow_send_msg-natpmp_silent v u z =
      let (kept, len) = build_pcp_msg-natpmp_unsupported s f v u in
      ground (arith, kept, len, send_built_empty (ensure_msg s f))

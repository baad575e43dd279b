-- ===== src/Msg/RoundTrip.antt =====
-- What a server that echoes the payload of a PCP request sends back, as parse_response of
-- lib/src/pcp_msg.c reads it.
use emulebb_libpcpnatpmp.Base.{ℕ, ◌+◌, ◌≤◌, ◌≡◌, sym, ap, ◌∙◌, arith, inl, inr, none, some}
use emulebb_libpcpnatpmp.Wire.{Buffer, zero_buffer, peek_nonce, nonce_bytes, poke}
use emulebb_libpcpnatpmp.Wire.Laws.{Agree, peek_nonce-Agree}
use emulebb_libpcpnatpmp.Data.{Flow, Server, RecvMsg, err_success, opcode_peer}
use emulebb_libpcpnatpmp.Msg.Build.{
  build_pcp_msg, put_map_v1, put_peer_v1, put_request_header, buffer_or_calloc,
}
use emulebb_libpcpnatpmp.Msg.Lengths.{
  fixed_part, fixed_len, IsPcpRequest, FitsMessage, build_pcp_msg-FitsMessage,
}
use emulebb_libpcpnatpmp.Msg.Parse.{
  parse_response, begin_parse, parse_v1_resp, parse_v2_resp, get_response_header, parse_v1_map,
  parse_v2_map, parse_v1_peer, parse_v2_peer, get_map_v1, get_peer_v1, get_nonce,
}
use emulebb_libpcpnatpmp.Msg.Fields.{
  IsFlow, HoldsMap, HoldsPeer, nonce_joined, put_map_v1-HoldsMap, put_map_v2-HoldsMap,
  put_peer_v1-HoldsPeer, put_peer_v2-HoldsPeer, HoldsMap-Agree, HoldsPeer-Agree,
  under_nonce-HoldsMap, under_nonce-HoldsPeer,
}

-- What the parsed response says of the flow that was asked for.
pub record Recovers (s : Server) (f : Flow) (g : RecvMsg) : Type 0 where
  pub version : g.recv_version ≡ s.pcp_version
  pub operation : g.kd.operation ≡ f.kd.operation
  pub protocol : g.kd.protocol ≡ f.kd.protocol
  pub src_port : g.kd.src_port ≡ f.kd.src_port
  pub ext_port : g.assigned_ext_port ≡ f.ext_port
  pub ext_ip : g.assigned_ext_ip ≡ f.ext_ip
  pub nonce : s.pcp_version ≡ 2 → g.kd.nonce ≡ f.kd.nonce
  pub dst_port : f.kd.operation ≡ opcode_peer → g.kd.dst_port ≡ f.kd.dst_port
  pub dst_ip : f.kd.operation ≡ opcode_peer → g.kd.dst_ip ≡ f.kd.dst_ip

module _ (s : Server) (f : Flow) (r : RecvMsg)
    (e1 : r.pcp_msg_buffer 1 ≡ 128 + f.kd.operation) where
  pub parse_map_v1 :
      s.pcp_version ≡ 1
      → r.pcp_msg_buffer 0 ≡ 1
      → f.kd.operation ≡ 1
      → 48 ≤ r.pcp_msg_len
      → HoldsMap f 24 r.pcp_msg_buffer
      → ((parse_response r).0 ≡ err_success) × Recovers s f (parse_response r).1
  unfolding parse_response begin_parse parse_v1_resp parse_v2_resp get_response_header parse_v1_map
      parse_v2_map parse_v1_peer parse_v2_peer get_map_v1 get_peer_v1 get_nonce
  parse_map_v1 v e0 op len h = ground arith

  pub parse_map_v2 :
      s.pcp_version ≡ 2
      → r.pcp_msg_buffer 0 ≡ 2
      → f.kd.operation ≡ 1
      → 60 ≤ r.pcp_msg_len
      → HoldsMap f 36 r.pcp_msg_buffer
      → peek_nonce r.pcp_msg_buffer 24 ≡ f.kd.nonce
      → ((parse_response r).0 ≡ err_success) × Recovers s f (parse_response r).1
  unfolding parse_response begin_parse parse_v1_resp parse_v2_resp get_response_header parse_v1_map
      parse_v2_map parse_v1_peer parse_v2_peer get_map_v1 get_peer_v1 get_nonce
  parse_map_v2 v e0 op len h n = ground arith

  parse_peer_v1 :
      s.pcp_version ≡ 1
      → r.pcp_msg_buffer 0 ≡ 1
      → f.kd.operation ≡ 2
      → 68 ≤ r.pcp_msg_len
      → HoldsPeer f 24 r.pcp_msg_buffer
      → ((parse_response r).0 ≡ err_success) × Recovers s f (parse_response r).1
  unfolding parse_response begin_parse parse_v1_resp parse_v2_resp get_response_header parse_v1_map
      parse_v2_map parse_v1_peer parse_v2_peer get_map_v1 get_peer_v1 get_nonce
  parse_peer_v1 v e0 op len h = ground arith

  parse_peer_v2 :
      s.pcp_version ≡ 2
      → r.pcp_msg_buffer 0 ≡ 2
      → f.kd.operation ≡ 2
      → 80 ≤ r.pcp_msg_len
      → HoldsPeer f 36 r.pcp_msg_buffer
      → peek_nonce r.pcp_msg_buffer 24 ≡ f.kd.nonce
      → ((parse_response r).0 ≡ err_success) × Recovers s f (parse_response r).1
  unfolding parse_response begin_parse parse_v1_resp parse_v2_resp get_response_header parse_v1_map
      parse_v2_map parse_v1_peer parse_v2_peer get_map_v1 get_peer_v1 get_nonce
  parse_peer_v2 v e0 op len h n = ground arith

-- The response answers the request `g` built for the flow: as long, the same version, the opcode
-- with the response bit set, and the same bytes behind the header.
pub record Answers (g : Flow) (r : RecvMsg) : Type 0 where
  pub len : r.pcp_msg_len ≡ g.pcp_msg_len
  pub version : (m : Buffer) → g.pcp_msg_buffer ≡ some m → r.pcp_msg_buffer 0 ≡ m 0
  pub opcode : (m : Buffer) → g.pcp_msg_buffer ≡ some m → r.pcp_msg_buffer 1 ≡ 128 + m 1
  pub payload : (m : Buffer) → g.pcp_msg_buffer ≡ some m → Agree 24 g.pcp_msg_len m r.pcp_msg_buffer

pub fixed_part-version :
    (s : Server) (f : Flow) → IsPcpRequest s f → (fixed_part s f zero_buffer).0 0 ≡ s.pcp_version
unfolding put_request_header put_map_v1 put_peer_v1
fixed_part-version s f k = ground arith

pub fixed_part-opcode :
    (s : Server) (f : Flow) → IsPcpRequest s f → (fixed_part s f zero_buffer).0 1 ≡ f.kd.operation
unfolding put_request_header put_map_v1 put_peer_v1
fixed_part-opcode s f k = ground arith

module _ (s : Server) (f : Flow) (k : IsPcpRequest s f) (h : IsFlow f)
    (fresh : f.pcp_msg_buffer ≡ none) (r : RecvMsg)
    (ans : Answers (build_pcp_msg (some s) f) r) where
  fits : FitsMessage s f (build_pcp_msg (some s) f)
  fits = build_pcp_msg-FitsMessage s f k

  payload-Agree : Agree 24 (fixed_len s f) r.pcp_msg_buffer (fixed_part s f zero_buffer).0
  payload-Agree i lo hi =
      sym (ans.payload fits.buffer fits.kept i lo (omega (arith, fits.len)))
      ∙ fits.before i (omega arith) hi
      ∙ ap (λ b. (fixed_part s f (buffer_or_calloc b)).0 i) fresh

  version_byte : r.pcp_msg_buffer 0 ≡ s.pcp_version
  version_byte =
      ans.version fits.buffer fits.kept
      ∙ fits.before 0 (omega arith) (omega arith)
      ∙ ap (λ b. (fixed_part s f (buffer_or_calloc b)).0 0) fresh
      ∙ fixed_part-version s f k

  opcode_byte : r.pcp_msg_buffer 1 ≡ 128 + f.kd.operation
  opcode_byte =
      ans.opcode fits.buffer fits.kept
      ∙ ap (λ n. 128 + n)
          (fits.before 1 (omega arith) (omega arith)
            ∙ ap (λ b. (fixed_part s f (buffer_or_calloc b)).0 1) fresh
            ∙ fixed_part-opcode s f k)

  long : fixed_len s f ≤ r.pcp_msg_len
  long = omega (arith, fits.len, ans.len)

  agreed :
      (c : Buffer × ℕ)
      → fixed_part s f zero_buffer ≡ c
      → fixed_len s f ≡ c.1
      → Agree 24 c.1 r.pcp_msg_buffer c.0
  agreed c e n i lo hi = payload-Agree i lo (omega arith) ∙ ap (λ d. d.0 i) e

  -- A MAP or PEER request of version 1 or 2 is built for a flow that has no message yet and
  -- whose numbers fit their types. A response with its length, its version, its opcode with the
  -- response bit and the same bytes behind the header is parsed without error, and the parsed
  -- message has the request's version, operation, protocol, internal port and external address
  -- and port, the nonce in version 2, and for PEER the remote address and port.
  pub parse_response-build_pcp_msg :
      ((parse_response r).0 ≡ err_success) × Recovers s f (parse_response r).1
  parse_response-build_pcp_msg =
      let m = put_request_header s f zero_buffer in
      elim k.version [
        | inl v ↦ elim k.operation [
          | inl op ↦
              let a = agreed (put_map_v1 f 24 m, 48) (ground arith) (ground arith) in
              parse_map_v1 s f r opcode_byte v (version_byte ∙ v) op (ground (arith, long))
                (HoldsMap-Agree a (omega arith) (omega arith) (put_map_v1-HoldsMap f h m))
          | inr op ↦
              let a = agreed (put_peer_v1 f 24 m, 68) (ground arith) (ground arith) in
              parse_peer_v1 s f r opcode_byte v (version_byte ∙ v) op (ground (arith, long))
                (HoldsPeer-Agree a (omega arith) (omega arith) (put_peer_v1-HoldsPeer f h m))
        ]
        | inr v ↦ elim k.operation [
          | inl op ↦
              let n = put_map_v1 f 36 m in
              let a =
                agreed (poke 24 (nonce_bytes f.kd.nonce) n, 60) (ground arith) (ground arith) in
              parse_map_v2 s f r opcode_byte v (version_byte ∙ v) op (ground (arith, long))
                (HoldsMap-Agree a (omega arith) (omega arith)
                  (under_nonce-HoldsMap f n (put_map_v2-HoldsMap f h m)))
                (peek_nonce-Agree a 24 (omega arith) (omega arith)
                  ∙ nonce_joined f.kd.nonce h.key.nonce)
          | inr op ↦
              let n = put_peer_v1 f 36 m in
              let a =
                agreed (poke 24 (nonce_bytes f.kd.nonce) n, 80) (ground arith) (ground arith) in
              parse_peer_v2 s f r opcode_byte v (version_byte ∙ v) op (ground (arith, long))
                (HoldsPeer-Agree a (omega arith) (omega arith)
                  (under_nonce-HoldsPeer f n (put_peer_v2-HoldsPeer f h m)))
                (peek_nonce-Agree a 24 (omega arith) (omega arith)
                  ∙ nonce_joined f.kd.nonce h.key.nonce)
        ]
      ]

-- ===== src/TestServer/Answers.antt =====
-- The response of test-server/pcp-server.c to a MAP request of lib/src/pcp_msg.c, as
-- parse_response reads it.
use emulebb_libpcpnatpmp.Base.{ℕ, ◌+◌, ◌%◌, ◌≡◌, refl, ap, ◌∙◌, inl, inr, arith}
use emulebb_libpcpnatpmp.Wire.{Buffer, zero_buffer, peek32, peek_nonce, nonce_bytes, poke}
use emulebb_libpcpnatpmp.Wire.Laws.{
  Agree, IsIn6Addr, IsWord32, peek_nonce-Agree, peek32-Agree, join32,
}
use emulebb_libpcpnatpmp.Data.{Flow, Server, RecvMsg, err_success, opcode_map}
use emulebb_libpcpnatpmp.Msg.Build.{put_map_v1, put_peer_v1, put_request_header}
use emulebb_libpcpnatpmp.Msg.Lengths.{fixed_part, fixed_len, options_len, IsPcpRequest}
use emulebb_libpcpnatpmp.Msg.Fields.{
  IsFlow, HoldsMap, HoldsMap-Agree, in6_joined, nonce_joined, put_map_v1-HoldsMap,
  put_map_v2-HoldsMap, under_nonce-HoldsMap,
}
use emulebb_libpcpnatpmp.Msg.Parse.{
  parse_response, begin_parse, parse_v1_resp, parse_v2_resp, get_response_header, parse_v1_map,
  parse_v2_map, get_map_v1, get_nonce,
}
use emulebb_libpcpnatpmp.Msg.RoundTrip.{parse_map_v1, parse_map_v2, Recovers}
use emulebb_libpcpnatpmp.FlowMachine.Table.{res_success}
use emulebb_libpcpnatpmp.TestServer.{ServerInfo}
use emulebb_libpcpnatpmp.TestServer.Response.{
  server_epoch, create_response, put_response_header, put_ext_ip,
}
use emulebb_libpcpnatpmp.TestServer.RoundTrip.{
  HoldsRequest, before_options, version_held, opcode_held,
}

-- What the requesting side learns: the server's address for the flow, for the lifetime asked
-- for, and a number of 32 bits that is the time since the server's start, up to a multiple of 2^32.
pub record Granted (time : ℕ) (info : ServerInfo) (s : Server) (f : Flow) (g : RecvMsg)
    : Type 0 where
  pub result : g.recv_result ≡ res_success
  pub lifetime : g.recv_lifetime ≡ f.lifetime
  pub epoch_word : IsWord32 g.recv_epoch
  pub epoch : (g.recv_epoch + info.epoch_time_start) % 4294967296 ≡ time % 4294967296
  pub mapping : Recovers s (record f { ext_ip = info.ext_ip }) g

fixed_part-lifetime :
    (s : Server) (f : Flow)
    → IsPcpRequest s f
    → IsWord32 f.lifetime
    → peek32 (fixed_part s f zero_buffer).0 4 ≡ f.lifetime
unfolding put_request_header put_map_v1 put_peer_v1
fixed_part-lifetime s f k h = ground (arith, join32 f.lifetime h)

module _ (m : Buffer) (f : Flow) (info : ServerInfo) (ip : IsIn6Addr info.ext_ip) (time : ℕ) where
  -- The header of a response stands before the MAP structure, and its address in it.
  response_v1 :
      m 0 ≡ 1
      → HoldsMap f 24 m
      → HoldsMap
          (record f { ext_ip = info.ext_ip })
          24
          (put_ext_ip info (put_response_header time info 0 m))
  unfolding put_ext_ip put_response_header
  response_v1 v h = rw v (record {
    protocol = h.protocol;
    src_port = h.src_port;
    ext_port = h.ext_port;
    ext_ip = in6_joined info.ext_ip ip;
  })

  response_v2 :
      m 0 ≡ 2
      → HoldsMap f 36 m
      → HoldsMap
          (record f { ext_ip = info.ext_ip })
          36
          (put_ext_ip info (put_response_header time info 0 m))
  unfolding put_ext_ip put_response_header
  response_v2 v h = rw v (record {
    protocol = h.protocol;
    src_port = h.src_port;
    ext_port = h.ext_port;
    ext_ip = in6_joined info.ext_ip ip;
  })

  response_nonce :
      m 0 ≡ 2
      → peek_nonce (put_ext_ip info (put_response_header time info 0 m)) 24 ≡ peek_nonce m 24
  unfolding put_ext_ip put_response_header
  response_nonce v = rw v refl

server_epoch-IsWord32 : (time : ℕ) (info : ServerInfo) → IsWord32 (server_epoch time info)
unfolding server_epoch
server_epoch-IsWord32 time info = omega arith

since_start :
    (time : ℕ) (info : ServerInfo)
    → (server_epoch time info + info.epoch_time_start) % 4294967296 ≡ time % 4294967296
unfolding server_epoch
since_start time info = omega arith

module _ (s : Server) (f : Flow) (k : IsPcpRequest s f) (h : IsFlow f)
    (map : f.kd.operation ≡ opcode_map) (m : Buffer) (held : HoldsRequest s f m) (info : ServerInfo)
    (ip : IsIn6Addr info.ext_ip) (time : ℕ) (r : RecvMsg)
    (len : r.pcp_msg_len ≡ fixed_len s f + options_len f)
    (sent : r.pcp_msg_buffer ≡ create_response time m 0 info) where
  abbrev answer : Buffer
  answer = put_ext_ip info (put_response_header time info 0 m)

  made : r.pcp_msg_buffer ≡ answer
  unfolding create_response
  made = sent ∙ ground (arith, opcode_held s f k map m held)

  version_answered : r.pcp_msg_buffer 0 ≡ s.pcp_version
  unfolding put_ext_ip put_response_header
  version_answered = ap (λ b. b 0) made ∙ ground (arith, version_held s f k map m held)

  opcode_answered : r.pcp_msg_buffer 1 ≡ 128 + f.kd.operation
  unfolding put_ext_ip put_response_header
  opcode_answered = ap (λ b. b 1) made ∙ ground (arith, opcode_held s f k map m held)

  result_answered : r.pcp_msg_buffer 3 ≡ 0
  unfolding put_ext_ip put_response_header
  result_answered = ap (λ b. b 3) made ∙ ground arith

  lifetime_answered : peek32 r.pcp_msg_buffer 4 ≡ f.lifetime
  unfolding put_ext_ip put_response_header
  lifetime_answered =
      ap (λ b. peek32 b 4) made
      ∙ ground arith
      ∙ peek32-Agree (before_options s f k map m held) 4 (omega arith) (ground arith)
      ∙ fixed_part-lifetime s f k h.lifetime

  epoch_answered : peek32 r.pcp_msg_buffer 8 ≡ server_epoch time info
  unfolding put_ext_ip put_response_header
  epoch_answered =
      ap (λ b. peek32 b 8) made
      ∙ ground (arith, join32 (server_epoch time info) (server_epoch-IsWord32 time info))

  abbrev header : Buffer
  header = put_request_header s f zero_buffer

  structure_v1 : s.pcp_version ≡ 1 → Agree 24 48 m (put_map_v1 f 24 header)
  structure_v1 v i lo hi =
      let e : fixed_part s f zero_buffer ≡ (put_map_v1 f 24 header, 48) = ground arith in
      before_options s f k map m held i (omega arith) (ground arith) ∙ ap (λ c. c.0 i) e

  structure_v2 :
      s.pcp_version ≡ 2 → Agree 24 60 m (poke 24 (nonce_bytes f.kd.nonce) (put_map_v1 f 36 header))
  structure_v2 v i lo hi =
      let n = poke 24 (nonce_bytes f.kd.nonce) (put_map_v1 f 36 header) in
      let e : fixed_part s f zero_buffer ≡ (n, 60) = ground arith in
      before_options s f k map m held i (omega arith) (ground arith) ∙ ap (λ c. c.0 i) e

  map_held_v1 : s.pcp_version ≡ 1 → HoldsMap f 24 m
  map_held_v1 v =
      HoldsMap-Agree (structure_v1 v) (omega arith) (omega arith) (put_map_v1-HoldsMap f h header)

  map_held_v2 : s.pcp_version ≡ 2 → HoldsMap f 36 m
  map_held_v2 v =
      HoldsMap-Agree (structure_v2 v) (omega arith) (omega arith)
        (under_nonce-HoldsMap f (put_map_v1 f 36 header) (put_map_v2-HoldsMap f h header))

  nonce_held : s.pcp_version ≡ 2 → peek_nonce m 24 ≡ f.kd.nonce
  nonce_held v =
      peek_nonce-Agree (structure_v2 v) 24 (omega arith) (omega arith)
      ∙ nonce_joined f.kd.nonce h.key.nonce

  abbrev asked : Flow
  asked = record f { ext_ip = info.ext_ip }

  mapping_answered : ((parse_response r).0 ≡ err_success) × Recovers s asked (parse_response r).1
  mapping_answered = elim k.version [
    | inl v ↦
        parse_map_v1 s asked r opcode_answered v (version_answered ∙ v) map (ground (arith, len)) (
          rw made
            (response_v1 m f info ip time (version_held s f k map m held ∙ v) (map_held_v1 v)))
    | inr v ↦
        let v2 = version_held s f k map m held ∙ v in
        parse_map_v2 s asked r opcode_answered v (version_answered ∙ v) map (ground (arith, len))
          (rw made (response_v2 m f info ip time v2 (map_held_v2 v)))
          (ap (λ b. peek_nonce b 24) made ∙ response_nonce m f info ip time v2 ∙ nonce_held v)
  ]

  header_parsed :
      ((parse_response r).1.recv_result ≡ r.pcp_msg_buffer 3)
      × ((parse_response r).1.recv_lifetime ≡ peek32 r.pcp_msg_buffer 4)
      × ((parse_response r).1.recv_epoch ≡ peek32 r.pcp_msg_buffer 8)
  unfolding parse_response begin_parse parse_v1_resp parse_v2_resp get_response_header parse_v1_map
      parse_v2_map get_map_v1 get_nonce
  header_parsed = ground (arith, len, version_answered, opcode_answered, k.version)

  pub parse_response-create_response :
      ((parse_response r).0 ≡ err_success) × Granted time info s f (parse_response r).1
  parse_response-create_response = (
    mapping_answered.0,
    record {
      result = header_parsed.0 ∙ result_answered;
      lifetime = header_parsed.1 ∙ lifetime_answered;
      epoch_word = rw (header_parsed.2 ∙ epoch_answered) (server_epoch-IsWord32 time info);
      epoch =
          ap (λ n. (n + info.epoch_time_start) % 4294967296) (header_parsed.2 ∙ epoch_answered)
          ∙ since_start time info;
      mapping = mapping_answered.1;
    },
  )

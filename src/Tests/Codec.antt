-- ===== src/Tests/Codec.antt =====
-- The theorems on times and messages, at concrete values.
use emulebb_libpcpnatpmp.Base.{
  ℕ, ◌+◌, ◌≡◌, inl, inr, refl, arith, Option, none, some, ◌==◌, if◌then◌else◌,
}
use emulebb_libpcpnatpmp.Wire.{Buffer}
use emulebb_libpcpnatpmp.Data.{RecvMsg, err_success}
use emulebb_libpcpnatpmp.Msg.Build.{build_pcp_msg, buffer_or_calloc}
use emulebb_libpcpnatpmp.Msg.Parse.{parse_response, validate_pcp_msg}
use emulebb_libpcpnatpmp.Msg.Lengths.{IsPcpRequest, FitsMessage, build_pcp_msg-FitsMessage}
use emulebb_libpcpnatpmp.Msg.Bounds.{with_buffer, parsed_with, parse_response-local}
use emulebb_libpcpnatpmp.Msg.Fields.{IsFlow}
use emulebb_libpcpnatpmp.Msg.RoundTrip.{Answers, Recovers, parse_response-build_pcp_msg}
use emulebb_libpcpnatpmp.Msg.Natpmp.{
  IsNatpmpMap, NatpmpMapping, natpmp_map_response, IsNatpmpMapping, Reads,
  build_pcp_msg-IsNatpmpMap, parse_response-natpmp_map_response,
}
use emulebb_libpcpnatpmp.Tests.{map_flow, pcp_server, natpmp_server, test_msg}

pub map_IsPcpRequest : IsPcpRequest pcp_server map_flow
map_IsPcpRequest = record { version = inr refl; operation = inl refl }

build_pcp_msg_example : FitsMessage pcp_server map_flow (build_pcp_msg (some pcp_server) map_flow)
build_pcp_msg_example = build_pcp_msg-FitsMessage pcp_server map_flow map_IsPcpRequest

pub map_IsFlow : IsFlow map_flow
map_IsFlow = ground arith

abbrev pub sent_bytes : Buffer
sent_bytes = buffer_or_calloc (build_pcp_msg (some pcp_server) map_flow).pcp_msg_buffer

-- The request sent back with the response bit.
abbrev echo : RecvMsg
echo = record test_msg {
  pcp_msg_len = (build_pcp_msg (some pcp_server) map_flow).pcp_msg_len;
  pcp_msg_buffer = λ i. if i == 1 then 128 + sent_bytes 1 else sent_bytes i;
}

same_bytes : (o : Option Buffer) (m : Buffer) → o ≡ some m → (i : ℕ) → buffer_or_calloc o i ≡ m i
same_bytes none m e i = absurd (ground arith)
same_bytes (some b) m e i = ground arith

echo-Answers : Answers (build_pcp_msg (some pcp_server) map_flow) echo
echo-Answers =
    let g = build_pcp_msg (some pcp_server) map_flow in
    record {
      len = refl;
      version = λ m e. same_bytes g.pcp_msg_buffer m e 0;
      opcode = λ m e. ground (arith, same_bytes g.pcp_msg_buffer m e 1);
      payload = λ m e i lo hi. ground (arith, same_bytes g.pcp_msg_buffer m e i);
    }

parse_response_example :
    ((parse_response echo).0 ≡ err_success) × Recovers pcp_server map_flow (parse_response echo).1
parse_response_example =
    parse_response-build_pcp_msg pcp_server map_flow map_IsPcpRequest map_IsFlow refl echo
      echo-Answers

abbrev mapping : NatpmpMapping
mapping = record {
  protocol = 6;
  result = 0;
  epoch = 100;
  int_port = 8080;
  ext_port = 80;
  lifetime = 7200;
}

abbrev mapping_msg : RecvMsg
mapping_msg = record test_msg { pcp_msg_len = 16; pcp_msg_buffer = natpmp_map_response mapping }

mapping-IsNatpmpMapping : IsNatpmpMapping mapping
mapping-IsNatpmpMapping = ground arith

natpmp_response_example :
    ((parse_response mapping_msg).0 ≡ err_success) × Reads mapping (parse_response mapping_msg).1
natpmp_response_example =
    parse_response-natpmp_map_response mapping mapping_msg mapping-IsNatpmpMapping refl refl

-- Garbage behind the message.
abbrev dirty : Buffer
dirty i = if i == 40 then 255 else natpmp_map_response mapping i

local_example :
    parse_response (with_buffer dirty mapping_msg) ≡ parsed_with dirty (parse_response mapping_msg)
unfolding validate_pcp_msg
local_example = parse_response-local mapping_msg dirty (λ i lo hi. ground arith) refl

natpmp_request_example :
    (m : Buffer) × ((build_pcp_msg (some natpmp_server) map_flow).pcp_msg_buffer ≡ some m)
    × ((build_pcp_msg (some natpmp_server) map_flow).pcp_msg_len ≡ 12)
    × IsNatpmpMap map_flow m
natpmp_request_example =
    build_pcp_msg-IsNatpmpMap natpmp_server map_flow refl refl (inl refl) (omega arith)
      (omega arith) (omega arith)

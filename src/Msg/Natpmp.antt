-- ===== src/Msg/Natpmp.antt =====
-- NAT-PMP messages: build_natpmp_msg and parse_v0_resp of lib/src/pcp_msg.c.
use emulebb_libpcpnatpmp.Base.{ℕ, ◌+◌, ◌≡◌, ◌≢◌, ◌⊎◌, arith, ◌++◌, some, pos, ◌==◌, if◌then◌else◌}
use emulebb_libpcpnatpmp.Wire.{Buffer, be8, be16, be32, poke, peek16, peek32, zero_buffer}
use emulebb_libpcpnatpmp.Wire.Laws.{IsWord16, IsWord32, join16, join32}
use emulebb_libpcpnatpmp.Data.{
  Flow, Server, RecvMsg, err_success, opcode_announce, opcode_map, ipproto_tcp, ipproto_udp,
}
use emulebb_libpcpnatpmp.Msg.Build.{build_natpmp_msg, keep_msg, buffer_or_calloc, build_pcp_msg}
use emulebb_libpcpnatpmp.Msg.Parse.{parse_response, begin_parse, parse_v0_resp}

-- The opcode of a NAT-PMP mapping request for a transport protocol.
abbrev pub natpmp_opcode : ℕ → ℕ
natpmp_opcode protocol = if protocol == ipproto_tcp then 2 else 1

-- A NAT-PMP mapping request, field by field.
pub record IsNatpmpMap (f : Flow) (m : Buffer) : Type 0 where
  pub version : m 0 ≡ 0
  pub opcode : m 1 ≡ natpmp_opcode f.kd.protocol
  pub int_port : peek16 m 4 ≡ f.kd.src_port
  pub ext_port : peek16 m 6 ≡ f.ext_port
  pub lifetime : peek32 m 8 ≡ f.lifetime

build_natpmp_msg-IsNatpmpMap :
    (f : Flow) (m : Buffer)
    → f.kd.operation ≡ opcode_map
    → (f.kd.protocol ≡ ipproto_tcp) ⊎ (f.kd.protocol ≡ ipproto_udp)
    → IsWord16 f.kd.src_port
    → IsWord16 f.ext_port
    → IsWord32 f.lifetime
    → ((build_natpmp_msg f m).ret ≡ pos 0)
      × ((build_natpmp_msg f m).len ≡ 12)
      × IsNatpmpMap f (build_natpmp_msg f m).buffer
unfolding build_natpmp_msg
build_natpmp_msg-IsNatpmpMap f m op p sp ep lt =
    ground (arith, join16 f.kd.src_port, join16 f.ext_port, join32 f.lifetime)

-- A TCP or UDP mapping is asked of a NAT-PMP server in twelve bytes that hold the opcode of the
-- protocol, the two ports and the lifetime.
pub build_pcp_msg-IsNatpmpMap :
    (s : Server) (f : Flow)
    → s.pcp_version ≡ 0
    → f.kd.operation ≡ opcode_map
    → (f.kd.protocol ≡ ipproto_tcp) ⊎ (f.kd.protocol ≡ ipproto_udp)
    → IsWord16 f.kd.src_port
    → IsWord16 f.ext_port
    → IsWord32 f.lifetime
    → (m : Buffer) × ((build_pcp_msg (some s) f).pcp_msg_buffer ≡ some m)
      × ((build_pcp_msg (some s) f).pcp_msg_len ≡ 12)
      × IsNatpmpMap f m
unfolding build_pcp_msg keep_msg
build_pcp_msg-IsNatpmpMap s f v op p sp ep lt =
    let b = build_natpmp_msg f (buffer_or_calloc f.pcp_msg_buffer) in
    let (ret, len, fields) =
      build_natpmp_msg-IsNatpmpMap f (buffer_or_calloc f.pcp_msg_buffer) op p sp ep lt in
    (b.buffer, ground arith, ground arith, fields)

-- NAT-PMP has no other request than the announcement and the mapping of TCP and UDP ports.
pub record IsUnsupported (f : Flow) : Type 0 where
  pub not_announce : f.kd.operation ≢ opcode_announce
  pub not_map :
      (f.kd.operation ≢ opcode_map)
      ⊎ ((f.kd.protocol ≢ ipproto_tcp) × (f.kd.protocol ≢ ipproto_udp))

build_natpmp_unsupported :
    (f : Flow) (m : Buffer)
    → IsUnsupported f
    → (((build_natpmp_msg f m).ret ≡ pos 4) ⊎ ((build_natpmp_msg f m).ret ≡ pos 9))
      × ((build_natpmp_msg f m).len ≡ f.pcp_msg_len)
      × ((build_natpmp_msg f m).buffer ≡ m)
unfolding build_natpmp_msg
build_natpmp_unsupported f m u = ground arith

-- A request that NAT-PMP does not have is not refused: the flow keeps a message buffer, which is
-- empty or what was there before, and its message length.
pub build_pcp_msg-natpmp_unsupported :
    (s : Server) (f : Flow)
    → s.pcp_version ≡ 0
    → IsUnsupported f
    → ((build_pcp_msg (some s) f).pcp_msg_buffer ≡ some (buffer_or_calloc f.pcp_msg_buffer))
      × ((build_pcp_msg (some s) f).pcp_msg_len ≡ f.pcp_msg_len)
unfolding build_pcp_msg keep_msg
build_pcp_msg-natpmp_unsupported s f v u =
    let (ret, len, same) = build_natpmp_unsupported f (buffer_or_calloc f.pcp_msg_buffer) u in
    (ground arith, ground arith)

-- nat_pmp_map_resp_t as a server writes it.
pub record NatpmpMapping : Type 0 where
  pub protocol : ℕ
  pub result : ℕ
  pub epoch : ℕ
  pub int_port : ℕ
  pub ext_port : ℕ
  pub lifetime : ℕ

abbrev pub natpmp_map_response : NatpmpMapping → Buffer
natpmp_map_response w =
    poke 0
      (be8 0
        ++ be8 (128 + natpmp_opcode w.protocol)
        ++ be16 w.result
        ++ be32 w.epoch
        ++ be16 w.int_port
        ++ be16 w.ext_port
        ++ be32 w.lifetime)
      zero_buffer

pub record IsNatpmpMapping (w : NatpmpMapping) : Type 0 where
  pub protocol : (w.protocol ≡ ipproto_tcp) ⊎ (w.protocol ≡ ipproto_udp)
  pub result : IsWord16 w.result
  pub epoch : IsWord32 w.epoch
  pub int_port : IsWord16 w.int_port
  pub ext_port : IsWord16 w.ext_port
  pub lifetime : IsWord32 w.lifetime

-- What the parsed message says of the server's answer.
pub record Reads (w : NatpmpMapping) (g : RecvMsg) : Type 0 where
  pub version : g.recv_version ≡ 0
  pub operation : g.kd.operation ≡ opcode_map
  pub protocol : g.kd.protocol ≡ w.protocol
  pub result : g.recv_result ≡ w.result
  pub epoch : g.recv_epoch ≡ w.epoch
  pub src_port : g.kd.src_port ≡ w.int_port
  pub ext_port : g.assigned_ext_port ≡ w.ext_port
  pub lifetime : g.recv_lifetime ≡ w.lifetime

-- The sixteen bytes of a NAT-PMP mapping response are parsed without error into the answer that
-- they encode, as a MAP response of the protocol that the opcode stands for.
pub parse_response-natpmp_map_response :
    (w : NatpmpMapping) (r : RecvMsg)
    → IsNatpmpMapping w
    → r.pcp_msg_len ≡ 16
    → r.pcp_msg_buffer ≡ natpmp_map_response w
    → ((parse_response r).0 ≡ err_success) × Reads w (parse_response r).1
unfolding parse_response begin_parse parse_v0_resp
parse_response-natpmp_map_response w r h len e = ground (
  arith,
  join16 w.result,
  join32 w.epoch,
  join16 w.int_port,
  join16 w.ext_port,
  join32 w.lifetime,
)

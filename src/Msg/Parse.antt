-- ===== src/Msg/Parse.antt =====
-- Checking and parsing responses: validate_pcp_msg and parse_response of lib/src/pcp_msg.c. A
-- function returns the message with the fields that it fills and its error code.
use emulebb_libpcpnatpmp.Base.{
  ℕ, ◌+◌, ◌-◌, ◌%◌, ◌/◌, Bool, true, false, ◌&&◌, ◌||◌, not, ltb, ◌==◌, if◌then◌else◌,
}
use emulebb_libpcpnatpmp.Wire.{peek16, peek32, peek_in6, peek_nonce}
use emulebb_libpcpnatpmp.Data.{
  PcpErrno, err_success, err_recv_failed, err_unsup_version, opcode_announce, opcode_map,
  opcode_peer, natpmp_opcode_map_udp, natpmp_opcode_map_tcp, ipproto_tcp, ipproto_udp, pcp_max_len,
  pcp_max_supported_version, zero_key, RecvMsg,
}

unfoldable pub validate_pcp_msg : RecvMsg → Bool
validate_pcp_msg f =
    let ver = f.pcp_msg_buffer 0 in
    if not (f.pcp_msg_len % 4 == 0) || ltb f.pcp_msg_len 4 || ltb pcp_max_len f.pcp_msg_len
    then false
    else if not (ver == 0) && f.pcp_msg_buffer 1 / 128 % 2 == 0
    then false
    else if ltb pcp_max_supported_version ver
    then false
    else true

abbrev pub Parsed : Type 0
Parsed = PcpErrno × RecvMsg

-- The fields that MAP and PEER responses share, from their first field on.
unfoldable pub get_map_v1 : ℕ → RecvMsg → RecvMsg
get_map_v1 r f =
    let m = f.pcp_msg_buffer in
    record f {
      kd = record (f.kd) { src_port = peek16 m (r + 4); protocol = m r };
      assigned_ext_port = peek16 m (r + 6);
      assigned_ext_ip = peek_in6 m (r + 8);
    }

unfoldable pub get_peer_v1 : ℕ → RecvMsg → RecvMsg
get_peer_v1 r f =
    let m = f.pcp_msg_buffer in
    let g = get_map_v1 r f in
    record g { kd = record (g.kd) { dst_port = peek16 m (r + 24); dst_ip = peek_in6 m (r + 28) } }

unfoldable pub get_nonce : ℕ → RecvMsg → RecvMsg
get_nonce r f = record f { kd = record (f.kd) { nonce = peek_nonce f.pcp_msg_buffer r } }

-- The size that is left after the pointer r; the options behind the structure are not parsed.
unfoldable pub parse_v1_map : RecvMsg → ℕ → Parsed
parse_v1_map f r =
    if ltb (f.pcp_msg_len - r) 24 then (err_recv_failed, f) else (err_success, get_map_v1 r f)

unfoldable pub parse_v2_map : RecvMsg → ℕ → Parsed
parse_v2_map f r =
    if ltb (f.pcp_msg_len - r) 36
    then (err_recv_failed, f)
    else (err_success, get_map_v1 (r + 12) (get_nonce r f))

unfoldable pub parse_v1_peer : RecvMsg → ℕ → Parsed
parse_v1_peer f r =
    if ltb (f.pcp_msg_len - r) 44 then (err_recv_failed, f) else (err_success, get_peer_v1 r f)

unfoldable pub parse_v2_peer : RecvMsg → ℕ → Parsed
parse_v2_peer f r =
    if ltb (f.pcp_msg_len - r) 56
    then (err_recv_failed, f)
    else (err_success, get_peer_v1 (r + 12) (get_nonce r f))

-- The answer to an address request carries an IPv4 address, which is kept v4-mapped.
unfoldable pub get_natpmp_announce : RecvMsg → RecvMsg
get_natpmp_announce f =
    let m = f.pcp_msg_buffer in
    record f {
      recv_epoch = peek32 m 4;
      assigned_ext_ip = record { w0 = 0; w1 = 0; w2 = 65535; w3 = peek32 m 8 };
    }

unfoldable pub get_natpmp_map : RecvMsg → RecvMsg
get_natpmp_map f =
    let m = f.pcp_msg_buffer in
    record f {
      assigned_ext_port = peek16 m 10;
      recv_epoch = peek32 m 4;
      recv_lifetime = peek32 m 12;
      recv_result = peek16 m 2;
      kd = record (f.kd) {
        src_port = peek16 m 8;
        protocol = if f.kd.operation == natpmp_opcode_map_tcp then ipproto_tcp else ipproto_udp;
        operation = opcode_map;
      };
    }

-- After the switch: nat_pmp_inv_version_resp_t, or no known response.
unfoldable pub parse_v0_other : RecvMsg → Parsed
parse_v0_other f =
    let m = f.pcp_msg_buffer in
    if f.pcp_msg_len == 8
    then (err_success, record f { recv_result = peek16 m 2; recv_epoch = peek32 m 4 })
    else (err_recv_failed, f)

unfoldable pub parse_v0_resp : RecvMsg → Parsed
unfolding get_natpmp_announce get_natpmp_map parse_v0_other
parse_v0_resp f =
    if f.kd.operation == opcode_announce && f.pcp_msg_len == 12
    then (err_success, get_natpmp_announce f)
    else if (f.kd.operation == natpmp_opcode_map_tcp || f.kd.operation == natpmp_opcode_map_udp)
        && f.pcp_msg_len == 16
    then (err_success, get_natpmp_map f)
    else parse_v0_other f

-- The lifetime and the epoch of a PCP response header.
unfoldable pub get_response_header : RecvMsg → RecvMsg
get_response_header f =
    let m = f.pcp_msg_buffer in record f { recv_lifetime = peek32 m 4; recv_epoch = peek32 m 8 }

unfoldable pub parse_v1_resp : RecvMsg → Parsed
parse_v1_resp f =
    let g = get_response_header f in
    if ltb f.pcp_msg_len 24
    then (err_recv_failed, f)
    else if f.kd.operation == opcode_announce
    then (err_success, g)
    else if f.kd.operation == opcode_map
    then parse_v1_map g 24
    else if f.kd.operation == opcode_peer
    then parse_v1_peer g 24
    else (err_recv_failed, g)

unfoldable pub parse_v2_resp : RecvMsg → Parsed
parse_v2_resp f =
    let g = get_response_header f in
    if ltb f.pcp_msg_len 24
    then (err_recv_failed, f)
    else if f.kd.operation == opcode_announce
    then (err_success, g)
    else if f.kd.operation == opcode_map
    then parse_v2_map g 24
    else if f.kd.operation == opcode_peer
    then parse_v2_peer g 24
    else (err_recv_failed, g)

-- The first bytes of the message, read before the version is known.
unfoldable pub begin_parse : RecvMsg → RecvMsg
begin_parse f =
    let m = f.pcp_msg_buffer in
    record f {
      recv_version = m 0;
      recv_result = m 3;
      kd = record zero_key { operation = m 1 % 128 };
    }

unfoldable pub parse_response : RecvMsg → Parsed
parse_response f =
    let g = begin_parse f in
    if g.recv_version == 0
    then parse_v0_resp g
    else if g.recv_version == 1
    then parse_v1_resp g
    else if g.recv_version == 2
    then parse_v2_resp g
    else (err_unsup_version, g)

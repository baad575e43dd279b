-- ===== src/Msg/Build.antt =====
-- Building requests: build_pcp_msg of lib/src/pcp_msg.c and the functions that it calls. The
-- options that default_config.h leaves out (PCP_EXPERIMENTAL, PCP_FLOW_PRIORITY, PCP_SADSCP) are
-- left out. A pointer into the message buffer is its offset.
use emulebb_libpcpnatpmp.Base.{
  ℕ, ◌+◌, ◌-◌, ◌%◌, bit_or, List, ◌++◌, Bool, Option, none, some, ℤ, pos, negsuc, ltb, ltb_ℤ, ◌==◌,
  if◌then◌else◌,
}
use emulebb_libpcpnatpmp.Wire.{Buffer, zero_buffer, poke, be8, be16, be32, in6_bytes, nonce_bytes}
use emulebb_libpcpnatpmp.Data.{
  PcpErrno, err_opt_already_present, err_bad_afinet, err_unknown, err_short_lifetime_err,
  err_timeout, err_wouldblock, err_addrinuse, err_success, err_max_size, err_send_failed,
  err_recv_failed, err_unsup_version, err_no_mem, err_bad_args, err_not_found, opcode_announce,
  opcode_map, opcode_peer, natpmp_opcode_map_udp, natpmp_opcode_map_tcp, ipproto_tcp, ipproto_udp,
  Flow, Server,
}

-- The numbers of pcp_errno.
abbrev pub errno_value : PcpErrno → ℤ
errno_value err_success = pos 0
errno_value err_max_size = negsuc 0
errno_value err_opt_already_present = negsuc 1
errno_value err_bad_afinet = negsuc 2
errno_value err_send_failed = negsuc 3
errno_value err_recv_failed = negsuc 4
errno_value err_unsup_version = negsuc 5
errno_value err_no_mem = negsuc 6
errno_value err_bad_args = negsuc 7
errno_value err_unknown = negsuc 8
errno_value err_short_lifetime_err = negsuc 9
errno_value err_timeout = negsuc 10
errno_value err_not_found = negsuc 11
errno_value err_wouldblock = negsuc 12
errno_value err_addrinuse = negsuc 13

-- What the building functions return and leave: `ret`, the message and flow->pcp_msg_len.
pub record Built : Type 0 where
  pub ret : ℤ
  pub buffer : Buffer
  pub len : ℕ

-- A position in the buffer, as the options move it.
abbrev pub Cursor : Type 0
Cursor = Buffer × ℕ

-- pcp_filter_option_t is 24 bytes, 4 of them the option's header.
abbrev pub filter_bytes : Flow → List ℕ
filter_bytes f =
    be8 3
    ++ be8 0
    ++ be16 (24 - 4)
    ++ be8 0
    ++ be8 f.filter_prefix
    ++ be16 f.filter_port
    ++ in6_bytes f.filter_ip

unfoldable pub add_filter_option : Flow → Cursor → Cursor
add_filter_option f (m, cur) = (poke cur (filter_bytes f) m, cur + 24)

abbrev pub prefer_failure_bytes : List ℕ
prefer_failure_bytes = be8 2 ++ be8 0 ++ be16 (4 - 4)

unfoldable pub add_prefer_failure_option : Cursor → Cursor
add_prefer_failure_option (m, cur) = (poke cur prefer_failure_bytes m, cur + 4)

abbrev pub third_party_bytes : Flow → List ℕ
third_party_bytes f = be8 1 ++ be8 0 ++ be16 (20 - 4) ++ in6_bytes f.third_party_ip

unfoldable pub add_third_party_option : Flow → Cursor → Cursor
add_third_party_option f (m, cur) = (poke cur (third_party_bytes f) m, cur + 20)

abbrev when : Bool → (Cursor → Cursor) → Cursor → Cursor
when b g c = if b then g c else c

-- The options in the order of build_pcp_options.
unfoldable pub add_options : Flow → Cursor → Cursor
add_options f c = when f.third_party_option_present (add_third_party_option f) (
    when f.pfailure_option_present add_prefer_failure_option
      (when f.filter_option_present (add_filter_option f) c))

unfoldable pub build_pcp_options : Flow → ℕ → Cursor → Built
build_pcp_options f len c =
    let (m, cur) = add_options f c in
    if ltb 4294967295 cur
    then record { ret = errno_value err_no_mem; buffer = m; len = len }
    else record { ret = errno_value err_success; buffer = m; len = cur }

-- pcp_map_v1_t from its first field on; a reserved field is left as it is.
unfoldable pub put_map_v1 : Flow → ℕ → Buffer → Buffer
put_map_v1 f loc m =
    poke (loc + 8) (in6_bytes f.ext_ip)
      (poke (loc + 4) (be16 f.kd.src_port ++ be16 f.ext_port) (poke loc (be8 f.kd.protocol) m))

-- pcp_peer_v1_t begins as pcp_map_v1_t does.
unfoldable pub put_peer_v1 : Flow → ℕ → Buffer → Buffer
put_peer_v1 f loc m =
    poke (loc + 28) (in6_bytes f.kd.dst_ip)
      (poke (loc + 24) (be16 f.kd.dst_port) (put_map_v1 f loc m))

unfoldable pub build_pcp_peer : Server → Flow → ℕ → ℕ → Buffer → Built
build_pcp_peer s f len loc m =
    if s.pcp_version == 1
    then build_pcp_options f len (put_peer_v1 f loc m, loc + 44)
    else if s.pcp_version == 2
    then build_pcp_options f len
        (poke loc (nonce_bytes f.kd.nonce) (put_peer_v1 f (loc + 12) m), loc + 56)
    else record { ret = errno_value err_unsup_version; buffer = m; len = len }

unfoldable pub build_pcp_map : Server → Flow → ℕ → ℕ → Buffer → Built
build_pcp_map s f len loc m =
    if s.pcp_version == 1
    then build_pcp_options f len (put_map_v1 f loc m, loc + 24)
    else if s.pcp_version == 2
    then build_pcp_options f len
        (poke loc (nonce_bytes f.kd.nonce) (put_map_v1 f (loc + 12) m), loc + 36)
    else record { ret = errno_value err_unsup_version; buffer = m; len = len }

-- Its errors are result codes of the protocol, PCP_RES_UNSUPP_OPCODE and
-- PCP_RES_UNSUPP_PROTOCOL, and so positive.
unfoldable pub build_natpmp_msg : Flow → Buffer → Built
build_natpmp_msg f m =
    if f.kd.operation == opcode_announce
    then record { ret = pos 0; buffer = poke 0 (be8 0 ++ be8 0) m; len = 2 }
    else if f.kd.operation == opcode_map
    then (if f.kd.protocol == ipproto_tcp
        then mapping natpmp_opcode_map_tcp
        else if f.kd.protocol == ipproto_udp
        then mapping natpmp_opcode_map_udp
        else record { ret = pos 9; buffer = m; len = f.pcp_msg_len })
    else record { ret = pos 4; buffer = m; len = f.pcp_msg_len }
  where
    mapping : ℕ → Built
    mapping opcode = record {
      ret = pos 0;
      buffer =
          poke 4 (be16 f.kd.src_port ++ be16 f.ext_port ++ be32 f.lifetime)
            (poke 0 (be8 0 ++ be8 opcode) m);
      len = 12;
    }

-- The header of a PCP request; r_opcode is or-ed into what the buffer holds.
unfoldable pub put_request_header : Server → Flow → Buffer → Buffer
put_request_header s f m =
    poke 4 (be32 f.lifetime ++ in6_bytes f.kd.src_ip)
      (poke 0 (be8 s.pcp_version ++ be8 (bit_or (m 1) (f.kd.operation % 128))) m)

unfoldable pub build_pcp_request : Server → Flow → Buffer → Built
build_pcp_request s f m =
    let h = put_request_header s f m in
    if f.kd.operation == opcode_peer
    then build_pcp_peer s f 24 24 h
    else if f.kd.operation == opcode_map
    then build_pcp_map s f 24 24 h
    else if f.kd.operation == opcode_announce
    then record { ret = pos 0; buffer = h; len = 24 }
    else record { ret = negsuc 0; buffer = h; len = 24 }

-- The end of build_pcp_msg: an error frees the message.
unfoldable pub keep_msg : Flow → Built → Flow
keep_msg f b =
    if ltb_ℤ b.ret (pos 0)
    then record f { pcp_msg_buffer = none; pcp_msg_len = 0 }
    else record f { pcp_msg_buffer = some b.buffer; pcp_msg_len = b.len }

abbrev pub buffer_or_calloc : Option Buffer → Buffer
buffer_or_calloc none = zero_buffer
buffer_or_calloc (some m) = m

-- build_pcp_msg, given what get_pcp_server returns; calloc is taken to succeed. The pointer that
-- it returns is NULL exactly where no server is found or the flow has no message afterwards.
unfoldable pub build_pcp_msg : Option Server → Flow → Flow
build_pcp_msg none f = f
build_pcp_msg (some s) f =
    let m = buffer_or_calloc f.pcp_msg_buffer in
    keep_msg f (if s.pcp_version == 0 then build_natpmp_msg f m else build_pcp_request s f m)

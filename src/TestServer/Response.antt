-- ===== src/TestServer/Response.antt =====
-- create_response of test-server/pcp-server.c: the request's buffer turned into its response.
use emulebb_libpcpnatpmp.Base.{ℕ, ◌+◌, ◌-◌, ◌*◌, ◌%◌, bit_or, ◌++◌, ◌==◌, if◌then◌else◌}
use emulebb_libpcpnatpmp.Wire.{Buffer, poke, be8, be32, in6_bytes}
use emulebb_libpcpnatpmp.Data.{opcode_map}
use emulebb_libpcpnatpmp.FlowMachine.Table.{res_unsupp_version}
use emulebb_libpcpnatpmp.TestServer.{ServerInfo, opcode_sadscp}
use emulebb_libpcpnatpmp.TestServer.Options.{request_opcode}

-- The time since the server's start, as an unsigned number of 32 bits; it wraps where the clock has
-- gone back behind the start.
unfoldable pub server_epoch : ℕ → ServerInfo → ℕ
server_epoch time info =
    (time % 4294967296 + 4294967296 - info.epoch_time_start % 4294967296) % 4294967296

-- The header: `time` is what time(NULL) returns, and the response bit is set in the byte of the
-- opcode.
unfoldable pub put_response_header : ℕ → ServerInfo → ℕ → Buffer → Buffer
put_response_header time info code m =
    poke 8 (be32 (server_epoch time info) ++ be32 0 ++ be32 0 ++ be32 0)
      (poke 1 (be8 (128 + m 1 % 128) ++ be8 0 ++ be8 code) m)

-- The external address of a MAP response, whose place depends on the version.
unfoldable pub put_ext_ip : ServerInfo → Buffer → Buffer
put_ext_ip info m =
    if m 0 == 1
    then poke 32 (in6_bytes info.ext_ip) m
    else if m 0 == 2
    then poke 44 (in6_bytes info.ext_ip) m
    else m

unfoldable pub put_dscp : ServerInfo → Buffer → Buffer
put_dscp info m = poke 36 (be8 (bit_or (info.app_bit * 128 % 256) info.ret_dscp)) m

unfoldable pub create_response : ℕ → Buffer → ℕ → ServerInfo → Buffer
create_response time request code info =
    let m = put_response_header time info code request in
    if code == res_unsupp_version
    then poke 0 (be8 info.server_version) m
    else if request_opcode request == opcode_map
    then put_ext_ip info m
    else if request_opcode request == opcode_sadscp
    then put_dscp info m
    else m

-- ===== src/TestServer/Analysis.antt =====
-- printPCPreq of test-server/pcp-server.c, less the printing: the result code of a request. A
-- buffer may be read behind its end: what stands there is the buffer's value at that offset.
use emulebb_libpcpnatpmp.Base.{ℕ, ◌+◌, ◌-◌, ◌%◌, Bool, false, ◌||◌, not, ltb, ◌==◌, if◌then◌else◌}
use emulebb_libpcpnatpmp.Wire.{Buffer}
use emulebb_libpcpnatpmp.Data.{opcode_map, opcode_peer, pcp_max_len}
use emulebb_libpcpnatpmp.FlowMachine.Table.{res_success, res_unsupp_version, res_malformed_request}
use emulebb_libpcpnatpmp.TestServer.{OptionsOccur, opcode_sadscp, res_malformed_option}
use emulebb_libpcpnatpmp.TestServer.Options.{Walk, request_opcode, print_options}

-- The position behind the common header and `n` more bytes, of which `counted` were subtracted
-- from the remaining size.
abbrev pub walk_at : OptionsOccur → ℕ → ℕ → ℕ → Walk
walk_at occ size counted n = record {
  remaining = size - (24 + counted);
  processed = 24 + n;
  opt_occ = occ;
  overrun = false;
}

-- The options behind a structure. As much fuel as bytes remain is enough.
unfoldable pub analyze_options : Buffer → Walk → ℕ × Walk
analyze_options m w = print_options w.remaining m (res_success, w)

-- A MAP or PEER structure of `n` bytes, and its options.
unfoldable pub analyze_opcode : Buffer → OptionsOccur → ℕ → ℕ → ℕ → ℕ × Walk
analyze_opcode m occ size counted n =
    if ltb size (24 + counted)
    then (res_malformed_option, walk_at occ size counted 0)
    else analyze_options m (walk_at occ size counted n)

-- A SADSCP structure of 14 bytes is followed by a name, whose length is its last byte.
unfoldable pub analyze_sadscp : Buffer → OptionsOccur → ℕ → ℕ × Walk
analyze_sadscp m occ size =
    if ltb size 38
    then (res_malformed_request, walk_at occ size 0 0)
    else analyze_options m (walk_at occ size (14 + m 37) (14 + m 37))

-- A PEER request of version 1 subtracts the size of a MAP structure, 24, and skips its own, 44.
unfoldable pub analyze_version_1 : Buffer → OptionsOccur → ℕ → ℕ × Walk
analyze_version_1 m occ size =
    if request_opcode m == opcode_map
    then analyze_opcode m occ size 24 24
    else if request_opcode m == opcode_peer
    then analyze_opcode m occ size 24 44
    else (res_success, walk_at occ size 0 0)

unfoldable pub analyze_version_2 : Buffer → OptionsOccur → ℕ → ℕ × Walk
analyze_version_2 m occ size =
    if request_opcode m == opcode_map
    then analyze_opcode m occ size 36 36
    else if request_opcode m == opcode_peer
    then analyze_opcode m occ size 56 56
    else if request_opcode m == opcode_sadscp
    then analyze_sadscp m occ size
    else (res_success, walk_at occ size 0 0)

abbrev pub is_size_refused : ℕ → Bool
is_size_refused size = ltb pcp_max_len size || ltb size 4 || not (size % 4 == 0)

-- The result code, and the walk as it is left.
unfoldable pub print_pcp_req : Buffer → ℕ → OptionsOccur → ℕ → ℕ × Walk
print_pcp_req m size occ version =
    if is_size_refused size
    then (res_malformed_request, walk_at occ size 0 0)
    else if ltb version (m 0)
    then (res_unsupp_version, walk_at occ size 0 0)
    else if m 0 == 1
    then analyze_version_1 m occ size
    else if m 0 == 2
    then analyze_version_2 m occ size
    else (res_unsupp_version, walk_at occ size 0 0)

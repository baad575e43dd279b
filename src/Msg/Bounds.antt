-- ===== src/Msg/Bounds.antt =====
-- What parse_response of lib/src/pcp_msg.c reads: nothing behind the received bytes.
use emulebb_libpcpnatpmp.Base.{ℕ, ◌+◌, ◌≤◌, ◌≡◌, arith, true}
use emulebb_libpcpnatpmp.Wire.{Buffer}
use emulebb_libpcpnatpmp.Wire.Laws.{
  Agree, peek16-Agree, peek32-Agree, peek_in6-Agree, peek_nonce-Agree,
}
use emulebb_libpcpnatpmp.Data.{RecvMsg}
use emulebb_libpcpnatpmp.Msg.Parse.{
  Parsed, get_map_v1, get_peer_v1, get_nonce, parse_v1_map, parse_v2_map, parse_v1_peer,
  parse_v2_peer, parse_v0_resp, get_response_header, parse_v1_resp, parse_v2_resp, begin_parse,
  parse_response, validate_pcp_msg,
}

-- The message with other bytes in its buffer.
abbrev pub with_buffer : Buffer → RecvMsg → RecvMsg
with_buffer m f = record f { pcp_msg_buffer = m }

abbrev pub parsed_with : Buffer → Parsed → Parsed
parsed_with m p = (p.0, with_buffer m p.1)

module _ (f : RecvMsg) (m : Buffer) (a : Agree 0 f.pcp_msg_len m f.pcp_msg_buffer) where
  get_map_v1-local :
      (r : ℕ)
      → r + 24 ≤ f.pcp_msg_len
      → get_map_v1 r (with_buffer m f) ≡ with_buffer m (get_map_v1 r f)
  unfolding get_map_v1
  get_map_v1-local r h =
      ground (arith, a r, peek16-Agree a (r + 4), peek16-Agree a (r + 6), peek_in6-Agree a (r + 8))

  get_peer_v1-local :
      (r : ℕ)
      → r + 44 ≤ f.pcp_msg_len
      → get_peer_v1 r (with_buffer m f) ≡ with_buffer m (get_peer_v1 r f)
  unfolding get_peer_v1 get_map_v1
  get_peer_v1-local r h = ground (
    arith,
    a r,
    peek16-Agree a (r + 4),
    peek16-Agree a (r + 6),
    peek_in6-Agree a (r + 8),
    peek16-Agree a (r + 24),
    peek_in6-Agree a (r + 28),
  )

  get_nonce-local :
      (r : ℕ)
      → r + 12 ≤ f.pcp_msg_len
      → get_nonce r (with_buffer m f) ≡ with_buffer m (get_nonce r f)
  unfolding get_nonce
  get_nonce-local r h = ground (arith, peek_nonce-Agree a r)

  parse_v0_resp-local : parse_v0_resp (with_buffer m f) ≡ parsed_with m (parse_v0_resp f)
  unfolding parse_v0_resp
  parse_v0_resp-local = ground (
    arith,
    peek32-Agree a 4,
    peek32-Agree a 8,
    peek32-Agree a 12,
    peek16-Agree a 2,
    peek16-Agree a 8,
    peek16-Agree a 10,
  )

  get_response_header-local :
      12 ≤ f.pcp_msg_len
      → get_response_header (with_buffer m f) ≡ with_buffer m (get_response_header f)
  unfolding get_response_header
  get_response_header-local h = ground (arith, peek32-Agree a 4, peek32-Agree a 8)

  begin_parse-local :
      4 ≤ f.pcp_msg_len → begin_parse (with_buffer m f) ≡ with_buffer m (begin_parse f)
  unfolding begin_parse
  begin_parse-local h = ground (arith, a 0, a 1, a 3)

module _ (f : RecvMsg) (m : Buffer) (a : Agree 0 f.pcp_msg_len m f.pcp_msg_buffer) where
  parse_v1_map-local : parse_v1_map (with_buffer m f) 24 ≡ parsed_with m (parse_v1_map f 24)
  unfolding parse_v1_map
  parse_v1_map-local = ground (arith, get_map_v1-local f m a 24)

  parse_v1_peer-local : parse_v1_peer (with_buffer m f) 24 ≡ parsed_with m (parse_v1_peer f 24)
  unfolding parse_v1_peer
  parse_v1_peer-local = ground (arith, get_peer_v1-local f m a 24)

  parse_v2_map-local : parse_v2_map (with_buffer m f) 24 ≡ parsed_with m (parse_v2_map f 24)
  unfolding parse_v2_map get_nonce
  parse_v2_map-local =
      ground (arith, get_nonce-local f m a 24, get_map_v1-local (get_nonce 24 f) m a 36)

  parse_v2_peer-local : parse_v2_peer (with_buffer m f) 24 ≡ parsed_with m (parse_v2_peer f 24)
  unfolding parse_v2_peer get_nonce
  parse_v2_peer-local =
      ground (arith, get_nonce-local f m a 24, get_peer_v1-local (get_nonce 24 f) m a 36)

module _ (f : RecvMsg) (m : Buffer) (a : Agree 0 f.pcp_msg_len m f.pcp_msg_buffer) where
  parse_v1_resp-local : parse_v1_resp (with_buffer m f) ≡ parsed_with m (parse_v1_resp f)
  unfolding parse_v1_resp get_response_header
  parse_v1_resp-local = ground (
    arith,
    get_response_header-local f m a,
    parse_v1_map-local (get_response_header f) m a,
    parse_v1_peer-local (get_response_header f) m a,
  )

  parse_v2_resp-local : parse_v2_resp (with_buffer m f) ≡ parsed_with m (parse_v2_resp f)
  unfolding parse_v2_resp get_response_header
  parse_v2_resp-local = ground (
    arith,
    get_response_header-local f m a,
    parse_v2_map-local (get_response_header f) m a,
    parse_v2_peer-local (get_response_header f) m a,
  )

module _ (f : RecvMsg) (m : Buffer) (a : Agree 0 f.pcp_msg_len m f.pcp_msg_buffer) where
  -- Of a message that validate_pcp_msg accepts, parse_response reads the received bytes only: with
  -- any other bytes behind them the error code and every parsed field are the same.
  pub parse_response-local :
      validate_pcp_msg f ≡ true
      → parse_response (with_buffer m f) ≡ parsed_with m (parse_response f)
  unfolding parse_response begin_parse validate_pcp_msg
  parse_response-local v =
      let long : 4 ≤ f.pcp_msg_len = ground arith in
      ground (
        arith,
        begin_parse-local f m a long,
        parse_v0_resp-local (begin_parse f) m a,
        parse_v1_resp-local (begin_parse f) m a,
        parse_v2_resp-local (begin_parse f) m a,
      )

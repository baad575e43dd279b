-- ===== src/TestServer/Exchange.antt =====
-- A request of lib/src/pcp_msg.c, its answer by test-server/pcp-server.c, and what the library
-- reads in it.
use emulebb_libpcpnatpmp.Base.{ℕ, ◌+◌, ◌≤◌, ◌≡◌, refl, ap, ◌∙◌, arith, none, some}
use emulebb_libpcpnatpmp.Wire.{Buffer}
use emulebb_libpcpnatpmp.Wire.Laws.{Agree, IsIn6Addr}
use emulebb_libpcpnatpmp.Data.{Flow, Server, RecvMsg, err_success, opcode_map}
use emulebb_libpcpnatpmp.Msg.Build.{build_pcp_msg, buffer_or_calloc, add_options}
use emulebb_libpcpnatpmp.Msg.Lengths.{
  fixed_part, fixed_len, options_len, IsPcpRequest, build_pcp_msg-FitsMessage,
}
use emulebb_libpcpnatpmp.Msg.Fields.{IsFlow}
use emulebb_libpcpnatpmp.Msg.Parse.{
  parse_response, begin_parse, parse_v1_resp, get_response_header, parse_v1_map, get_map_v1,
}
use emulebb_libpcpnatpmp.FlowMachine.Table.{res_success, res_unsupp_version}
use emulebb_libpcpnatpmp.ServerMachine.Versions.{negotiate, unsupp_version}
use emulebb_libpcpnatpmp.TestServer.{TestServer, reset_option_occur}
use emulebb_libpcpnatpmp.TestServer.Analysis.{print_pcp_req}
use emulebb_libpcpnatpmp.TestServer.Response.{create_response, put_response_header}
use emulebb_libpcpnatpmp.TestServer.Running.{answer_request}
use emulebb_libpcpnatpmp.TestServer.RoundTrip.{
  HoldsRequest, version_held, opcode_held, print_pcp_req-HoldsRequest,
}
use emulebb_libpcpnatpmp.TestServer.Answers.{Granted, parse_response-create_response}

-- What the library has read from its socket.
abbrev pub delivered : RecvMsg → ℕ × Buffer → RecvMsg
delivered r d = record r { pcp_msg_len = d.0; pcp_msg_buffer = d.1 }

-- The datagram that arrives is the message of the flow.
abbrev pub Carries : Flow → Buffer → Type 0
Carries g m = Agree 0 g.pcp_msg_len m (buffer_or_calloc g.pcp_msg_buffer)

module _ (s : Server) (f : Flow) (k : IsPcpRequest s f) (fresh : f.pcp_msg_buffer ≡ none)
    (m : Buffer) (arrived : Carries (build_pcp_msg (some s) f) m) where
  request_len : (build_pcp_msg (some s) f).pcp_msg_len ≡ fixed_len s f + options_len f
  request_len = (build_pcp_msg-FitsMessage s f k).len

  request_held : HoldsRequest s f m
  request_held i lo hi =
      let fits = build_pcp_msg-FitsMessage s f k in
      arrived i lo (omega (arith, request_len))
      ∙ ap (λ b. buffer_or_calloc b i) fits.kept
      ∙ ap (λ b. b i) fits.options
      ∙ ap (λ b. (add_options f (fixed_part s f (buffer_or_calloc b))).0 i) fresh

module _ (s : Server) (f : Flow) (k : IsPcpRequest s f) (h : IsFlow f)
    (map : f.kd.operation ≡ opcode_map) (fresh : f.pcp_msg_buffer ≡ none) (m : Buffer)
    (arrived : Carries (build_pcp_msg (some s) f) m) (v : TestServer) (time : ℕ)
    (analyzes : v.server_info.default_result_code ≡ 255) where
  abbrev size : ℕ
  size = (build_pcp_msg (some s) f).pcp_msg_len

  module _ (known : s.pcp_version ≤ v.server_info.server_version)
      (ip : IsIn6Addr v.server_info.ext_ip) (r : RecvMsg) where
    abbrev reply : ℕ × Buffer
    reply = (size, create_response time m res_success v.server_info)

    request_granted : (answer_request v size m time).sent ≡ some reply
    unfolding answer_request
    request_granted =
        let ok : (print_pcp_req m size reset_option_occur v.server_info.server_version).0
            ≡ res_success =
          ap (λ n. (print_pcp_req m n reset_option_occur v.server_info.server_version).0)
            (request_len s f k fresh m arrived)
          ∙ print_pcp_req-HoldsRequest s f k map m (request_held s f k fresh m arrived)
              v.server_info.server_version known in
        rw (analyzes, ok) refl

    -- A MAP request of PCP version 1 or 2 is built for a flow that has no message yet and whose
    -- numbers fit their types, and arrives at a test server that knows the version, decides the
    -- result codes itself, and whose external address fits its fields.
    -- The server sends as many bytes back, in which parse_response finds no error: a success, the
    -- lifetime asked for, the time since the server's start in 32 bits, and the mapping asked for with the server's external
    -- address.
    pub answer_request-build_pcp_msg :
        ((answer_request v size m time).sent ≡ some reply)
        × ((parse_response (delivered r reply)).0 ≡ err_success)
        × Granted time v.server_info s f (parse_response (delivered r reply)).1
    answer_request-build_pcp_msg =
        let p =
          parse_response-create_response s f k h map m (request_held s f k fresh m arrived)
            v.server_info ip time (delivered r reply) (request_len s f k fresh m arrived) refl in
        (request_granted, p.0, p.1)

  module _ (two : s.pcp_version ≡ 2) (one : v.server_info.server_version ≡ 1) (r : RecvMsg) where
    abbrev refusal : ℕ × Buffer
    refusal = (size, create_response time m res_unsupp_version v.server_info)

    request_refused : (answer_request v size m time).sent ≡ some refusal
    unfolding answer_request print_pcp_req
    request_refused =
        let fits = build_pcp_msg-FitsMessage s f k in
        let ver = version_held s f k map m (request_held s f k fresh m arrived) in
        let refused : (print_pcp_req m size reset_option_occur v.server_info.server_version).0
            ≡ res_unsupp_version =
          ground (arith, fits.aligned, fits.bounded, fits.len, ver) in
        rw (analyzes, refused) refl

    refusal_parsed :
        ((parse_response (delivered r refusal)).0 ≡ err_success)
        × ((parse_response (delivered r refusal)).1.recv_version ≡ 1)
        × ((parse_response (delivered r refusal)).1.recv_result ≡ res_unsupp_version)
    unfolding parse_response begin_parse parse_v1_resp get_response_header parse_v1_map get_map_v1
        create_response put_response_header
    refusal_parsed = ground (
      arith,
      opcode_held s f k map m (request_held s f k fresh m arrived),
      (build_pcp_msg-FitsMessage s f k).len,
    )

    lowered : negotiate (unsupp_version 1 s) ≡ some (record s { next_version = 1; pcp_version = 1 })
    unfolding negotiate unsupp_version
    lowered = ground arith

    -- A MAP request of version 2, built for a flow that has no message yet and whose numbers fit
    -- their types, arrives at a test server of version 1 that decides the result codes itself. Its
    -- response is parsed without error as PCP_RES_UNSUPP_VERSION, and with the version in it the
    -- library goes on in version 1.
    pub negotiate-answer_request :
        ((answer_request v size m time).sent ≡ some refusal)
        × ((parse_response (delivered r refusal)).0 ≡ err_success)
        × ((parse_response (delivered r refusal)).1.recv_result ≡ res_unsupp_version)
        × (negotiate (unsupp_version (parse_response (delivered r refusal)).1.recv_version s)
            ≡ some (record s { next_version = 1; pcp_version = 1 }))
    negotiate-answer_request = (
      request_refused,
      refusal_parsed.0,
      refusal_parsed.2,
      ap (λ n. negotiate (unsupp_version n s)) refusal_parsed.1 ∙ lowered,
    )

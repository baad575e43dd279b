-- ===== src/Tests/Responder.antt =====
-- The theorems on the test server of test-server/pcp-server.c, at concrete requests.
use emulebb_libpcpnatpmp.Base.{ℕ, ◌≡◌, refl, arith, [], ◌∷◌, some, true, false, pos, replicate}
use emulebb_libpcpnatpmp.TimeVal.{zero_time}
use emulebb_libpcpnatpmp.Wire.{Buffer, zero_buffer, poke}
use emulebb_libpcpnatpmp.Data.{err_success}
use emulebb_libpcpnatpmp.Msg.Build.{build_pcp_msg}
use emulebb_libpcpnatpmp.Msg.Parse.{parse_response}
use emulebb_libpcpnatpmp.FlowMachine.Table.{res_success, res_unsupp_version}
use emulebb_libpcpnatpmp.ServerMachine.Versions.{negotiate, unsupp_version}
use emulebb_libpcpnatpmp.TestServer.{ServerInfo, TestServer, reset_option_occur}
use emulebb_libpcpnatpmp.TestServer.Options.{
  Walk, print_pcp_options, print_options, third_party_option, filter_option,
}
use emulebb_libpcpnatpmp.TestServer.Analysis.{
  walk_at, analyze_options, print_pcp_req, analyze_version_2, analyze_opcode,
}
use emulebb_libpcpnatpmp.TestServer.Response.{create_response}
use emulebb_libpcpnatpmp.TestServer.Running.{PulseIo, datagram, answer_request, exec_pcp_server}
use emulebb_libpcpnatpmp.TestServer.Walks.{
  Reaches, here, onward, RunsInBounds, analyze_options-Reaches, analyze_options-last,
}
use emulebb_libpcpnatpmp.TestServer.Answers.{Granted}
use emulebb_libpcpnatpmp.TestServer.Exchange.{
  delivered, Carries, answer_request-build_pcp_msg, negotiate-answer_request,
}
use emulebb_libpcpnatpmp.TestServer.Counting.{
  FitsMetadata, MeetsDatagram, meets, Answered, exec_pcp_server-Answered,
}
use emulebb_libpcpnatpmp.Tests.{test_ip, map_flow, pcp_server, test_msg}
use emulebb_libpcpnatpmp.Tests.Codec.{map_IsPcpRequest, map_IsFlow, sent_bytes}

-- A MAP request with two THIRD_PARTY options, which are an error, and a FILTER option.
abbrev twice_third_party : Buffer
twice_third_party =
    poke 0 (2 ∷ 1 ∷ []) (poke 60 (1 ∷ []) (poke 80 (1 ∷ []) (poke 100 (3 ∷ []) zero_buffer)))

abbrev start_walk : Walk
unfolding reset_option_occur
start_walk = walk_at reset_option_occur 124 36 36

abbrev first_option : ℕ × Walk
first_option = print_pcp_options twice_third_party start_walk

abbrev second_option : ℕ × Walk
second_option = print_pcp_options twice_third_party first_option.1

options_fit : (analyze_options twice_third_party start_walk).1.overrun ≡ false
unfolding analyze_options print_options print_pcp_options reset_option_occur third_party_option
    filter_option
options_fit = refl

analyze_options-Reaches_example :
    RunsInBounds twice_third_party
      (res_success, start_walk)
      (analyze_options twice_third_party start_walk)
    × ((analyze_options twice_third_party start_walk).1.remaining ≡ 0)
analyze_options-Reaches_example = analyze_options-Reaches twice_third_party start_walk options_fit

two_options : Reaches twice_third_party (res_success, start_walk) second_option
unfolding print_pcp_options reset_option_occur third_party_option filter_option
two_options =
    onward (res_success, start_walk) second_option (λ e. omega arith)
      (onward first_option second_option (λ e. omega arith) (here second_option))

-- The second option's code is PCP_RES_MALFORMED_OPTION, and the request is accepted.
analyze_options-last_example :
    analyze_options twice_third_party start_walk
    ≡ print_pcp_options twice_third_party second_option.1
unfolding print_pcp_options reset_option_occur third_party_option filter_option
analyze_options-last_example =
    analyze_options-last twice_third_party start_walk second_option two_options (λ e. omega arith)
      refl

second_option_malformed :
    (second_option.0 ≡ 6) × ((print_pcp_options twice_third_party second_option.1).0 ≡ res_success)
unfolding print_pcp_options reset_option_occur third_party_option filter_option
second_option_malformed = (refl, refl)

abbrev test_info : ServerInfo
test_info = record {
  server_version = 2;
  end_after_recv = 2;
  default_result_code = 255;
  ext_ip = test_ip 77;
  app_bit = 1;
  ret_dscp = 10;
  tv = zero_time;
  epoch_time_start = 1000;
}

abbrev test_server : ServerInfo → TestServer
test_server info = record {
  server_info = info;
  timeout_time = zero_time;
  remaining_messages = pos 2;
  running = true;
}

abbrev sent_len : ℕ
sent_len = (build_pcp_msg (some pcp_server) map_flow).pcp_msg_len

sent_Carries : Carries (build_pcp_msg (some pcp_server) map_flow) sent_bytes
sent_Carries i lo hi = refl

abbrev granting : ℕ × Buffer
granting = (sent_len, create_response 1500 sent_bytes res_success test_info)

answer_request_example :
    ((answer_request (test_server test_info) sent_len sent_bytes 1500).sent ≡ some granting)
    × ((parse_response (delivered test_msg granting)).0 ≡ err_success)
    × Granted 1500 test_info pcp_server map_flow (parse_response (delivered test_msg granting)).1
answer_request_example =
    answer_request-build_pcp_msg pcp_server map_flow map_IsPcpRequest map_IsFlow refl refl
      sent_bytes sent_Carries (test_server test_info) 1500 refl (omega arith) (ground arith)
      test_msg

-- The server knows version 1 only.
abbrev old_info : ServerInfo
old_info = record test_info { server_version = 1 }

abbrev refusing : ℕ × Buffer
refusing = (sent_len, create_response 1500 sent_bytes res_unsupp_version old_info)

negotiate-answer_request_example :
    ((answer_request (test_server old_info) sent_len sent_bytes 1500).sent ≡ some refusing)
    × ((parse_response (delivered test_msg refusing)).0 ≡ err_success)
    × ((parse_response (delivered test_msg refusing)).1.recv_result ≡ res_unsupp_version)
    × (negotiate
          (unsupp_version (parse_response (delivered test_msg refusing)).1.recv_version pcp_server)
        ≡ some (record pcp_server { next_version = 1; pcp_version = 1 }))
negotiate-answer_request_example =
    negotiate-answer_request pcp_server map_flow map_IsPcpRequest map_IsFlow refl refl sent_bytes
      sent_Carries (test_server old_info) 1500 refl refl refl test_msg

abbrev pulse_io : PulseIo
pulse_io = record { tod = zero_time; wait = λ t. datagram 124 twice_third_party 1500 }

sent_fits : FitsMetadata 2 124 twice_third_party
unfolding print_pcp_req analyze_version_2 analyze_opcode analyze_options print_options
    print_pcp_options reset_option_occur third_party_option filter_option
sent_fits = refl

one_comes : MeetsDatagram 2 pulse_io
one_comes = meets zero_time 124 twice_third_party 1500 sent_fits

-- Three requests come, and two are waited for.
exec_pcp_server_example :
    Answered 2 (replicate 3 pulse_io) (exec_pcp_server (replicate 3 pulse_io) zero_time test_info)
exec_pcp_server_example =
    exec_pcp_server-Answered (replicate 3 pulse_io) zero_time test_info
      (one_comes, (one_comes, (one_comes, tt))) refl (omega arith)

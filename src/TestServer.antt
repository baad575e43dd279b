-- ===== src/TestServer.antt =====
-- The PCP server that the project tests its client with, test-server/pcp-server.c and
-- test-server/pcp-server.h: the records that its functions share. The log file and the socket's
-- descriptor are left out.
pub mod Options
pub mod Analysis
pub mod Response
pub mod Running
pub mod Walks
pub mod Accepts
pub mod RoundTrip
pub mod Answers
pub mod Counting
pub mod Exchange
use emulebb_libpcpnatpmp.Base.{ℕ, Bool, false, ℤ}
use emulebb_libpcpnatpmp.TimeVal.{TimeVal}
use emulebb_libpcpnatpmp.Wire.{In6Addr}

abbrev pub opcode_sadscp : ℕ
opcode_sadscp = 3

abbrev pub res_malformed_option : ℕ
res_malformed_option = 6

-- server_info_t
pub record ServerInfo : Type 0 where
  pub server_version : ℕ
  pub end_after_recv : ℕ
  pub default_result_code : ℕ
  pub ext_ip : In6Addr
  pub app_bit : ℕ
  pub ret_dscp : ℕ
  pub tv : TimeVal
  pub epoch_time_start : ℕ

-- pcp_test_server_t
pub record TestServer : Type 0 where
  pub server_info : ServerInfo
  pub timeout_time : TimeVal
  pub remaining_messages : ℤ
  pub running : Bool

-- options_occur_t, whose numbers are 0 or 1.
pub record OptionsOccur : Type 0 where
  pub third_party_occur : Bool
  pub pfailure_occur : Bool

unfoldable pub reset_option_occur : OptionsOccur
reset_option_occur = record { third_party_occur = false; pfailure_occur = false }

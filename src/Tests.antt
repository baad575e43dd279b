-- ===== src/Tests.antt =====
-- Concrete flows, servers and messages that the theorems are applied to.
pub mod Codec
pub mod Machine
pub mod Database
pub mod Servers
pub mod Context
pub mod Responder
pub mod Finding
pub mod Text
use emulebb_libpcpnatpmp.Base.{ℕ, ◌+◌, Option, none, some, pos, true, arith, ◌≤◌, ◌<◌}
use emulebb_libpcpnatpmp.TimeVal.{TimeVal, zero_time}
use emulebb_libpcpnatpmp.Wire.{Buffer, In6Addr, Nonce, zero_in6, zero_buffer}
use emulebb_libpcpnatpmp.Data.{FlowKeyData, zero_key, Flow, pfs_idle, Server, pss_wait_io, RecvMsg}
use emulebb_libpcpnatpmp.ClientDb.Servers.{zero_server}
use emulebb_libpcpnatpmp.ClientDb.Flows.{fresh_flow}
use emulebb_libpcpnatpmp.FlowMachine.Send.{Io}

-- ::ffff:192.0.2.n
abbrev pub test_ip : ℕ → In6Addr
test_ip n = record { w0 = 0; w1 = 0; w2 = 65535; w3 = 3221225984 + n }

abbrev pub test_nonce : Nonce
test_nonce = record { n0 = 16909060; n1 = 84281096; n2 = 151653132 }

abbrev pub map_key : FlowKeyData
map_key = record zero_key {
  operation = 1;
  src_ip = test_ip 2;
  pcp_server_ip = test_ip 1;
  nonce = test_nonce;
  protocol = 6;
  src_port = 8080;
}

-- A server of PCP version 2 and one of NAT-PMP.
abbrev pub pcp_server : Server
pcp_server = record zero_server {
  pcp_ip = test_ip 1;
  pcp_port = 5351;
  pcp_version = 2;
  server_state = pss_wait_io;
}

abbrev pub natpmp_server : Server
natpmp_server = record pcp_server { pcp_version = 0 }

abbrev pub map_flow : Flow
map_flow = record (fresh_flow 0 pcp_server map_key) {
  lifetime = 3600;
  ext_port = 80;
  pfailure_option_present = true;
}

-- A PEER flow, which NAT-PMP does not have.
abbrev pub peer_flow : Flow
peer_flow = record map_flow { kd = record map_key { operation = 2 } }

abbrev pub test_msg : RecvMsg
test_msg = record {
  kd = map_key;
  assigned_ext_ip = test_ip 9;
  assigned_ext_port = 8081;
  recv_version = 2;
  recv_epoch = 1000;
  recv_lifetime = 600;
  recv_result = 0;
  received_time = pos 50;
  pcp_msg_len = 0;
  pcp_msg_buffer = zero_buffer;
}

-- A socket that takes all it is given, at a time of `sec` seconds.
abbrev pub io_at : ℕ → Io
io_at sec = record {
  now = record { tv_sec = pos sec; tv_usec = pos 0 };
  rand = 77;
  sendto = λ offset len. pos len;
  sendto-le = λ offset len. omega arith;
}

-- ===== src/Data.antt =====
-- The records of the library: lib/src/pcp_client_db.h (flows, servers, received messages) and the
-- enumerations of lib/src/pcp_event_handler.h and lib/include/pcpnatpmp.h.
use emulebb_libpcpnatpmp.Base.{ℕ, Bool, Option, ℤ}
use emulebb_libpcpnatpmp.TimeVal.{TimeVal}
use emulebb_libpcpnatpmp.Wire.{Buffer, In6Addr, Nonce, zero_in6, zero_nonce}

-- pcp_errno: PCP_ERR_SUCCESS is 0, the others are negative.
pub data PcpErrno : Type 0 where
  err_success err_max_size err_opt_already_present err_bad_afinet : PcpErrno
  err_send_failed err_recv_failed err_unsup_version err_no_mem : PcpErrno
  err_bad_args err_unknown err_short_lifetime_err err_timeout : PcpErrno
  err_not_found err_wouldblock err_addrinuse : PcpErrno

abbrev pub opcode_announce : ℕ
opcode_announce = 0

abbrev pub opcode_map : ℕ
opcode_map = 1

abbrev pub opcode_peer : ℕ
opcode_peer = 2

abbrev pub natpmp_opcode_map_udp : ℕ
natpmp_opcode_map_udp = 1

abbrev pub natpmp_opcode_map_tcp : ℕ
natpmp_opcode_map_tcp = 2

abbrev pub ipproto_tcp : ℕ
ipproto_tcp = 6

abbrev pub ipproto_udp : ℕ
ipproto_udp = 17

abbrev pub pcp_max_len : ℕ
pcp_max_len = 1100

abbrev pub pcp_max_supported_version : ℕ
pcp_max_supported_version = 2

-- struct flow_key_data, with the fields of the union's one member map_peer.
pub record FlowKeyData : Type 0 where
  pub operation : ℕ
  pub src_ip : In6Addr
  pub pcp_server_ip : In6Addr
  pub scope_id : ℕ
  pub nonce : Nonce
  pub protocol : ℕ
  pub src_port : ℕ
  pub dst_ip : In6Addr
  pub dst_port : ℕ

-- memset(&kd, 0, sizeof(kd))
abbrev pub zero_key : FlowKeyData
zero_key = record {
  operation = 0;
  src_ip = zero_in6;
  pcp_server_ip = zero_in6;
  scope_id = 0;
  nonce = zero_nonce;
  protocol = 0;
  src_port = 0;
  dst_ip = zero_in6;
  dst_port = 0;
}

pub data FlowState : Type 0 where
  pfs_any pfs_idle pfs_wait_for_server_init pfs_send pfs_wait_resp : FlowState
  pfs_wait_after_short_life_error pfs_wait_for_lifetime_renew pfs_send_renew : FlowState
  pfs_failed : FlowState

-- pcp_flow_event_e: `fev_res r` is the value FEV_RES_BEGIN + r.
pub data FlowEvent : Type 0 where
  fev_flow_timedout fev_server_initialized fev_send fev_msg_sent fev_failed fev_none : FlowEvent
  fev_server_restarted fev_ignored : FlowEvent
  fev_res : ℕ → FlowEvent

-- pcp_fstate_e, what the application is told of a flow.
pub data FState : Type 0 where
  pcp_state_processing pcp_state_succeeded pcp_state_partial_result : FState
  pcp_state_short_lifetime_error pcp_state_failed : FState

pub data ServerState : Type 0 where
  pss_any pss_unitialized pss_allocated pss_ping pss_wait_ping_resp : ServerState
  pss_version_negotiation pss_send_all_msgs pss_wait_io pss_wait_io_calc_nearest_timeout :
      ServerState
  pss_server_restart pss_server_reping pss_set_not_working pss_not_working : ServerState

pub data PcpEvent : Type 0 where
  pcpe_any pcpe_timeout pcpe_io_event pcpe_terminate : PcpEvent

-- struct pcp_recv_msg
pub record RecvMsg : Type 0 where
  pub kd : FlowKeyData
  pub assigned_ext_ip : In6Addr
  pub assigned_ext_port : ℕ
  pub recv_version : ℕ
  pub recv_epoch : ℕ
  pub recv_lifetime : ℕ
  pub recv_result : ℕ
  pub received_time : ℤ
  pub pcp_msg_len : ℕ
  pub pcp_msg_buffer : Buffer

-- struct pcp_flow_s. A flow is a pointer in the code: `address` is its identity, and the pointers
-- between flows are such addresses. The list through `next` is the list of its bucket.
pub record Flow : Type 0 where
  pub address : ℕ
  pub kd : FlowKeyData
  pub key_bucket : Option ℕ  -- none is EMPTY
  pub lifetime : ℕ
  pub ext_ip : In6Addr
  pub ext_port : ℕ
  pub recv_lifetime : ℤ
  pub recv_result : ℕ
  pub next_child : Option ℕ
  pub pcp_server_indx : ℕ
  pub state : FlowState
  pub resend_timeout : ℕ
  pub retry_count : ℕ
  pub timeout : TimeVal
  pub pfailure_option_present : Bool
  pub filter_option_present : Bool
  pub filter_prefix : ℕ
  pub filter_port : ℕ
  pub filter_ip : In6Addr
  pub third_party_option_present : Bool
  pub third_party_ip : In6Addr
  pub pcp_msg_len : ℕ
  pub pcp_msg_buffer : Option Buffer  -- none is NULL

-- struct pcp_server. `ping_flow_msg` and `restart_flow_msg` are addresses of flows.
pub record Server : Type 0 where
  pub index : ℕ
  pub pcp_ip : In6Addr
  pub pcp_port : ℕ
  pub pcp_scope_id : ℕ
  pub src_ip : In6Addr
  pub pcp_version : ℕ
  pub next_version : ℕ
  pub server_state : ServerState
  pub epoch : ℕ
  pub cepoch : ℤ
  pub nonce : Nonce
  pub ping_flow_msg : Option ℕ
  pub restart_flow_msg : Option ℕ
  pub ping_count : ℕ
  pub next_timeout : TimeVal
  pub natpmp_ext_addr : ℕ

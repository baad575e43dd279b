-- ===== src/ServerMachine/Ping.antt =====
-- Pinging a server and agreeing on a version with it: the handlers of lib/src/pcp_event_handler.c
-- that use the server's ping message.
use emulebb_libpcpnatpmp.Base.{
  ℕ, zero, suc, ◌+◌, Bool, true, false, ◌&&◌, List, [], ◌∷◌, Option, none, some, leb, ◌==◌, length,
  if◌then◌else◌,
}
use emulebb_libpcpnatpmp.TimeVal.{zero_time}
use emulebb_libpcpnatpmp.Data.{
  Flow, FlowState, pfs_idle, pfs_wait_for_server_init, pfs_send, pfs_failed, fev_send,
  fev_flow_timedout, FlowKeyData, zero_key, Server, ServerState, pss_ping, pss_wait_ping_resp,
  pss_set_not_working,
}
use emulebb_libpcpnatpmp.FlowMachine.Timeout.{u32}
use emulebb_libpcpnatpmp.ClientDb.Flows.{pcp_create_flow, pcp_db_add_flow}
use emulebb_libpcpnatpmp.System.{
  Action, pure, fault, ◌>>=◌, ◌>>◌, load, store, load_server, store_server, send_event,
}
use emulebb_libpcpnatpmp.System.Iterate.{flow_addresses}
use emulebb_libpcpnatpmp.ServerMachine.Versions.{lower_version, negotiate}
use emulebb_libpcpnatpmp.ServerMachine.Broadcast.{set_next_timeout, set_timeout_now}

abbrev pub has_failed : FlowState → Bool
has_failed pfs_failed = true
has_failed _ = false

-- The states in which get_first_flow_iter takes a flow.
abbrev pub is_unsent : FlowState → Bool
is_unsent pfs_idle = true
is_unsent pfs_wait_for_server_init = true
is_unsent pfs_send = true
is_unsent _ = false

abbrev pub is_pending : ℕ → Flow → Bool
is_pending index f = f.pcp_server_indx == index && is_unsent f.state

-- pcp_db_foreach_flow with get_first_flow_iter, which ends it at the first flow that it takes.
unfoldable pub find_first : ℕ → List ℕ → Action (Option ℕ)
find_first index [] = pure none
find_first index (a ∷ rest) = do
  f ← load a
  let other = find_first index rest
  if is_pending index f then pure (some a) else other

unfoldable pub get_ping_msg : ℕ → Action (Option ℕ)
unfolding find_first
get_ping_msg i = do
  s ← load_server i
  flows ← flow_addresses
  found ← find_first s.index flows
  store_server i (record s { ping_flow_msg = found })
  pure found

-- pcp_create_flow and pcp_db_add_flow.
unfoldable pub create_and_add : Server → FlowKeyData → Action ℕ
create_and_add s kd c =
    let (f, db) = pcp_create_flow s kd c.db in
    some (f.address, record c { db = pcp_db_add_flow f db })

abbrev pub announce_key : Server → FlowKeyData
announce_key s = record zero_key { src_ip = s.src_ip; pcp_server_ip = s.pcp_ip; nonce = s.nonce }

unfoldable pub create_natpmp_ann_msg : ℕ → Action ℕ
unfolding create_and_add
create_natpmp_ann_msg i = do
  s ← load_server i
  a ← create_and_add s (announce_key s)
  store_server i (record s { ping_flow_msg = some a })
  pure a

-- The server waits for the response to a flow's message as long as the flow does.
unfoldable pub await_ping : ℕ → ℕ → Action ServerState
await_ping i a = do g ← load a; set_next_timeout i g.timeout; pure pss_wait_ping_resp

unfoldable pub no_ping : ℕ → Action ServerState
no_ping i = do set_next_timeout i zero_time; pure pss_ping

-- A round of the `while` of handle_server_ping, and what comes after it.
unfoldable pub ping_round : Action ServerState → ℕ → Option ℕ → Action ServerState
unfolding await_ping no_ping
ping_round again i none = no_ping i
ping_round again i (some a) = do
  f ← load a
  store a (record f { retry_count = 0 })
  st ← send_event a fev_send none
  if has_failed st then again else await_ping i a

-- The `while` of handle_server_ping. A round without an answer leaves one flow less to take.
unfoldable pub ping_loop : ℕ → ℕ → Action ServerState
unfolding get_ping_msg ping_round
ping_loop zero i = fault
ping_loop (suc fuel) i = do
  let again = ping_loop fuel i
  found ← get_ping_msg i
  ping_round again i found

unfoldable pub server_ping : ℕ → Action ServerState
unfolding ping_loop
server_ping i = do
  s ← load_server i
  store_server i (record s { ping_count = 0 })
  flows ← flow_addresses
  ping_loop (length flows + 1) i

abbrev pub pcp_max_ping_count : ℕ
pcp_max_ping_count = 5

unfoldable pub await_flow : ℕ → Option ℕ → Action ServerState
unfolding await_ping no_ping
await_flow i none = no_ping i
await_flow i (some a) = await_ping i a

-- `s->ping_flow_msg` read anew, after the event.
unfoldable pub await_ping_msg : ℕ → Action ServerState
unfolding await_flow
await_ping_msg i = do s ← load_server i; await_flow i s.ping_flow_msg

unfoldable pub give_up : ℕ → Action ServerState
give_up i = do set_timeout_now i; pure pss_set_not_working

unfoldable pub ping_again : ℕ → Option ℕ → Action ServerState
unfolding give_up await_ping_msg
ping_again i none = do set_timeout_now i; pure pss_ping
ping_again i (some a) = do
  st ← send_event a fev_flow_timedout none
  if has_failed st then give_up i else await_ping_msg i

unfoldable pub wait_ping_resp_timeout : ℕ → Action ServerState
unfolding ping_again give_up
wait_ping_resp_timeout i = do
  s ← load_server i
  let n = u32 (s.ping_count + 1)
  store_server i (record s { ping_count = n })
  if leb pcp_max_ping_count n then give_up i else ping_again i s.ping_flow_msg

-- The ping message of a server that is now asked with NAT-PMP waits for the server again.
unfoldable pub drop_ping : Option ℕ → Action (Unit {0})
drop_ping none = pure tt
drop_ping (some a) = do
  f ← load a
  store a (record f { state = pfs_wait_for_server_init; timeout = zero_time })

unfoldable pub keep_ping : ℕ → Option ℕ → Action (Option ℕ)
unfolding get_ping_msg
keep_ping i none = get_ping_msg i
keep_ping i (some a) = pure (some a)

unfoldable pub choose_ping : ℕ → Server → Action (Option ℕ)
unfolding create_natpmp_ann_msg keep_ping drop_ping
choose_ping i s =
    if s.pcp_version == 0
    then (do drop_ping s.ping_flow_msg; a ← create_natpmp_ann_msg i; pure (some a))
    else keep_ping i s.ping_flow_msg

unfoldable pub ping_with : ℕ → Option ℕ → Action ServerState
unfolding await_ping no_ping
ping_with i none = no_ping i
ping_with i (some a) = do
  f ← load a
  store a (record f { retry_count = 0; resend_timeout = 0 })
  st ← send_event a fev_send none
  if has_failed st then pure pss_set_not_working else await_ping i a

unfoldable pub negotiated : ℕ → Option Server → Action ServerState
unfolding choose_ping ping_with
negotiated i none = pure pss_set_not_working
negotiated i (some t) = do store_server i t; found ← choose_ping i t; ping_with i found

unfoldable pub version_negotiation : ℕ → Action ServerState
unfolding negotiated
version_negotiation i = do
  s ← load_server i
  store_server i (lower_version s)
  negotiated i (negotiate s)

-- ===== src/ServerMachine/Simple.antt =====
-- The handlers of the server state machine in lib/src/pcp_event_handler.c that touch no flow.
use emulebb_libpcpnatpmp.TimeVal.{TimeVal, zero_time}
use emulebb_libpcpnatpmp.Data.{
  Server, ServerState, pss_allocated, pss_ping, pss_set_not_working, pcp_max_supported_version,
}

-- A handler returns the state that it is to go to, and the server as it leaves it.
abbrev pub Step : Type 0
Step = ServerState × Server

unfoldable pub server_reping : TimeVal → Server → Step
server_reping now s =
    (pss_ping, record s { pcp_version = pcp_max_supported_version; next_timeout = now })

unfoldable pub terminate_server : Server → Step
terminate_server s = (pss_allocated, record s { next_timeout = zero_time })

unfoldable pub ignored_event : Server → Step
ignored_event s = (s.server_state, record s { next_timeout = zero_time })

unfoldable pub unexpected_event : TimeVal → Server → Step
unexpected_event now s = (pss_set_not_working, record s { next_timeout = now })

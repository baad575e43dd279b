-- ===== src/Lib.antt =====
-- Verification of the client library for PCP (RFC 6887) and NAT-PMP (RFC 6886), lib/, and of the
-- PCP server that it is tested with, test-server/.
--
-- The library keeps flows (mappings asked for) and servers in a database, writes requests, reads
-- responses, and drives each flow by a state machine: the application creates flows, pcp_pulse
-- receives messages and checks timeouts, and both raise events at flows. The parts and their files:
--
-- - TimeVal: timeval_align, timeval_comp and timeval_subtract of lib/src/pcp_utils.h. A function
--   returns the values that the code writes through its pointers.
-- - Epoch: compare_epochs of the same file, on 32-bit numbers.
-- - Wire, Msg: the codec, lib/src/pcp_msg.c over the structures of lib/src/pcp_msg_structs.h.
--   Msg/Build is build_pcp_msg with its callees, Msg/Parse is validate_pcp_msg and parse_response.
--   A buffer is a function from offsets to bytes, a pointer into it an offset; numbers are those
--   that the bytes spell in network order, so that htonl and its kin are the writing of bytes.
-- - Data: the records of lib/src/pcp_client_db.h, the enumerations of lib/src/pcp_event_handler.h
--   and lib/include/pcpnatpmp.h.
-- - FlowMachine: lib/src/pcp_event_handler.c. Table is flow_transitions and flow_events_sm, Send is
--   pcp_flow_send_msg, Timeout is PCP_RT, Handlers are the functions fhndl_*, Machine is
--   handle_flow_event, with pcp_eval_flow_state of lib/src/pcp_api.c. Api is pcp_flow_updated, with the
--   setters and pcp_close_flow_intern of lib/src/pcp_api.c.
-- - System: what the handlers share through the context, struct pcp_ctx_s of lib/src/pcp_client_db.h.
--   An action is a function of that state which gives nothing where it would follow a null or dangling
--   pointer. send_event is handle_flow_event at a flow of the database: the loop of Machine between
--   two walks of pcp_eval_flow_state along next_child. Sound says what every action keeps: IsSound is
--   what pcp_delete_flow and pcp_terminate need, and IsSafe says besides that next_child leads from a
--   flow to one made later, as pcp_new_flow links them. Runs says that an action comes to its end and
--   keeps a safe state.
--   Iterate is pcp_db_foreach_flow with its callbacks.
-- - ServerMachine: the server handlers of lib/src/pcp_event_handler.c. Table is server_sm, Simple,
--   Broadcast, Ping and Receive are the handlers, Versions is the arithmetic of
--   handle_version_negotiation, Machine is run_server_state_machine, and Safety its diagram.
-- - Pulse: pcp_pulse of the same file with hserver_iter and read_msg.
-- - Interface: lib/src/pcp_api.c on the context. Create is pcp_new_flow, Close is pcp_close_flow,
--   Delete is pcp_delete_flow with pcp_delete_flow_intern, Terminate is pcp_terminate with
--   pcp_db_free_pcp_servers of lib/src/pcp_client_db.c, Info is pcp_flow_get_info with the entries of Told, Address is
--   pcp_fill_in6_addr of lib/src/net/pcp_socket.c.
-- - ClientDb: lib/src/pcp_client_db.c. Key is compute_flow_key, Flows is the table of flows, Servers
--   the array of servers; Rekey is pcp_flow_set_nonce of lib/src/pcp_api.c. A flow is an address in
--   a heap, and the chain through `next` is the list of its addresses.
-- - Discovery: lib/src/pcp_server_discovery.c, with pcp_add_server and pcp_init of
--   lib/src/pcp_api.c. Lookup is the search for a server in an array that changes, Laws, Added and
--   Adding are what adding a server does, Gateways and Places are what
--   adding any number of them keeps.
-- - SockText: lib/src/net/sock_ntop.c. Grammar is the spellings of a host and a port, RoundTrip is
--   sock_pton after sock_ntop, Prefix is sock_pton_with_prefix. A string is a list of codes.
-- - TestServer: test-server/pcp-server.c. Options is print_PCP_options, Analysis is printPCPreq,
--   Response is create_response, Running is the server's life; Walks, Accepts, RoundTrip, Answers
--   and Counting are lemmas on them, and Exchange sends a request of Msg to it and parses its response.
-- - Base holds what these share, and Tests concrete values.
--
-- The outside is a parameter: gettimeofday, rand and pcp_socket_sendto in Io, which reports at most
-- as many bytes as it is given, as documented; IN6_IS_ADDR_LINKLOCAL and the nonce that is drawn in
-- Servers; what pcp_socket_recvfrom, findsaddr, findsaddr6 and getgateways give; getaddrinfo,
-- inet_ntop, atoi and the printing of a port in SockText; and what select and recvfrom report to
-- the test server, whose pulses that end are given as a list. Memory is taken to be available,
-- and time_t is an unbounded integer. The structure that is hashed is laid out as on the common
-- 64-bit systems with little-endian numbers.
--
-- Fuel: handle_flow_event has five rounds, which are enough for every event; the sending loop has
-- a round for each byte, and each call sends one; handle_server_ping has a round more than there are
-- flows; the test server's loop over options has one for each byte that remains, and each option
-- takes at least four or ends it; the loops along next_child have as many rounds as addresses have
-- been given out, and a chain of a safe state has no more flows. The loop of hserver_iter depends on
-- the clock: its rounds are a parameter, and it is left undone after them.
--
-- Not modelled: failing allocations; the callback of the
-- application; the options that lib/default_config.h turns off (PCP_EXPERIMENTAL, PCP_FLOW_PRIORITY,
-- PCP_SADSCP) and the build with PCP_USE_IPV6_SOCKET; the reading of routing tables, sockets,
-- interfaces and logging, which are calls of the operating system; the command-line client, the
-- test server's printing and command line, and the tests.
pub mod Base
pub mod TimeVal
pub mod Epoch
pub mod Wire
pub mod Data
pub mod Msg
pub mod FlowMachine
pub mod ServerMachine
pub mod ClientDb
pub mod System
pub mod Interface
pub mod Pulse
pub mod Discovery
pub mod SockText
pub mod TestServer
pub mod Tests

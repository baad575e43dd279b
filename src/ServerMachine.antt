-- ===== src/ServerMachine.antt =====
-- The server state machine of lib/src/pcp_event_handler.c.
pub mod Table
pub mod Simple
pub mod Broadcast
pub mod Ping
pub mod Receive
pub mod Machine
pub mod Dispatch
pub mod Versions
pub mod Safety

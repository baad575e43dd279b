-- ===== src/Msg.antt =====
-- The message codec, lib/src/pcp_msg.c over the structures of lib/src/pcp_msg_structs.h.
pub mod Build
pub mod Parse
pub mod Lengths
pub mod Bounds
pub mod Fields
pub mod RoundTrip
pub mod Options
pub mod Natpmp

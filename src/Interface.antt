-- ===== src/Interface.antt =====
-- The calls of lib/src/pcp_api.c that go along the flows of a next_child chain or through the servers,
-- on the state of the context.
pub mod Address
pub mod Close
pub mod Create
pub mod Delete
pub mod Told
pub mod Info
pub mod Terminate

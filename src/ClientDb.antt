-- ===== src/ClientDb.antt =====
-- The client's database of flows and servers, lib/src/pcp_client_db.c.
pub mod Key
pub mod Flows
pub mod Chains
pub mod Servers
pub mod Invariant
pub mod Lookup
pub mod Removal
pub mod Rekey
pub mod Allocation

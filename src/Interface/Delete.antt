-- ===== src/Interface/Delete.antt =====
-- pcp_delete_flow of lib/src/pcp_api.c, with pcp_delete_flow_intern of lib/src/pcp_client_db.c.
pub mod Chains
pub mod Freed
pub mod Laws
use emulebb_libpcpnatpmp.Base.{
  ℕ, zero, suc, Bool, true, false, List, Option, none, some, ◌==◌, set, if◌then◌else◌,
}
use emulebb_libpcpnatpmp.Data.{Flow, Server}
use emulebb_libpcpnatpmp.ClientDb.Flows.{update, pcp_db_rem_flow}
use emulebb_libpcpnatpmp.ClientDb.Servers.{get_pcp_server}
use emulebb_libpcpnatpmp.System.{Sys, Action, pure, fault, ◌>>=◌, ◌>>◌, load}

abbrev pub points_to : Option ℕ → ℕ → Bool
points_to none a = false
points_to (some b) a = b == a

-- The array without the ping message of the server of the flow, if that is the flow.
abbrev pub clear_ping : ℕ → ℕ → Option Server → List Server → List Server
clear_ping a i none ss = ss
clear_ping a i (some s) ss =
    if points_to s.ping_flow_msg a then set ss i (record s { ping_flow_msg = none }) else ss

-- The flow is unlinked and freed.
abbrev pub freed : Sys → ℕ → Flow → Sys
freed c a f =
    let (errno, db) = pcp_db_rem_flow f c.db in
    record c {
      db = record db { heap = update db.heap a none };
      servers =
          clear_ping a f.pcp_server_indx (get_pcp_server c.servers f.pcp_server_indx) c.servers;
    }

unfoldable pub pcp_delete_flow_intern : ℕ → Action (Unit {0})
pcp_delete_flow_intern a c = elim (c.db.heap a) [ none ↦ none | some f ↦ some (tt, freed c a f) ]

-- The `while` of pcp_delete_flow; the link is read before the flow is freed.
unfoldable pub delete_loop : ℕ → Option ℕ → Action (Unit {0})
unfolding pcp_delete_flow_intern
delete_loop fuel none = pure tt
delete_loop zero (some a) = fault
delete_loop (suc fuel) (some a) = do
  f ← load a
  pcp_delete_flow_intern a
  delete_loop fuel f.next_child

-- There are no more flows on a chain than addresses have been given out.
unfoldable pub pcp_delete_flow : Option ℕ → Action (Unit {0})
unfolding delete_loop
pcp_delete_flow o c = delete_loop c.db.next_address o c

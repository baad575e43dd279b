-- ===== src/Interface/Terminate.antt =====
-- pcp_terminate of lib/src/pcp_api.c with pcp_db_free_pcp_servers of lib/src/pcp_client_db.c. The
-- socket is closed by the system.
pub mod Freeing
pub mod Laws
pub mod Servers
use emulebb_libpcpnatpmp.Base.{
  ℕ, zero, suc, ◌+◌, Bool, ◌||◌, true, false, List, [], Option, none, some, if◌then◌else◌, length,
}
use emulebb_libpcpnatpmp.TimeVal.{zero_time}
use emulebb_libpcpnatpmp.Wire.{In6Addr}
use emulebb_libpcpnatpmp.Data.{ServerState, pss_allocated, pcpe_terminate}
use emulebb_libpcpnatpmp.ClientDb.Servers.{is_unitialized}
use emulebb_libpcpnatpmp.System.{Sys, Action, pure, ◌>>=◌, ◌>>◌, load_server}
use emulebb_libpcpnatpmp.System.Iterate.{flow_addresses, foreach}
use emulebb_libpcpnatpmp.ServerMachine.Machine.{run_server_state_machine}
use emulebb_libpcpnatpmp.Pulse.{Datagram, pcp_pulse, count_servers}
use emulebb_libpcpnatpmp.Interface.Delete.{pcp_delete_flow_intern}
use emulebb_libpcpnatpmp.Interface.Close.{close_at}

abbrev pub is_allocated : ServerState → Bool
is_allocated pss_allocated = true
is_allocated _ = false

-- The callbacks take nothing but the flow.
unfoldable pub delete_flow_iter : ℕ → Unit {0} → Action (Unit {0})
delete_flow_iter a u = pcp_delete_flow_intern a

unfoldable pub close_flow_iter : ℕ → Unit {0} → Action (Unit {0})
close_flow_iter a u = close_at a

-- A server that is not in use, or only allocated, is passed over.
abbrev pub is_idle : ServerState → Bool
is_idle st = is_unitialized st || is_allocated st

unfoldable pub terminate_at : ℕ → Action (Unit {0})
terminate_at i = do
  s ← load_server i
  if is_idle s.server_state then pure tt else run_server_state_machine i pcpe_terminate

unfoldable pub terminate_from : ℕ → ℕ → Action (Unit {0})
unfolding terminate_at
terminate_from zero i = pure tt
terminate_from (suc n) i = do terminate_at i; terminate_from n (i + 1)

unfoldable pub no_servers : Action (Unit {0})
no_servers c = some (tt, record c { servers = [] })

unfoldable pub pcp_db_free_pcp_servers : Action (Unit {0})
unfolding terminate_from no_servers count_servers
pcp_db_free_pcp_servers = do n ← count_servers; terminate_from n 0; no_servers

unfoldable pub delete_all : Action (Unit {0})
unfolding delete_flow_iter foreach flow_addresses
delete_all = do cs ← flow_addresses; foreach delete_flow_iter cs tt

module _ (is_linklocal : In6Addr → Bool) (rounds : ℕ) (d : Option Datagram) where
  unfoldable pub close_all : Action (Unit {0})
  unfolding close_flow_iter foreach flow_addresses
  close_all = do
    cs ← flow_addresses
    foreach close_flow_iter cs tt
    t ← pcp_pulse is_linklocal rounds d zero_time
    pure tt

  unfoldable pub pcp_terminate : Bool → Action (Unit {0})
  unfolding close_all delete_all pcp_db_free_pcp_servers
  pcp_terminate close_flows = do
    (if close_flows then close_all else pure tt)
    delete_all
    pcp_db_free_pcp_servers

-- ===== src/Interface/Close.antt =====
-- pcp_close_flow of lib/src/pcp_api.c: pcp_close_flow_intern at each flow of a next_child chain, and a
-- call of pcp_pulse.
pub mod Safety
use emulebb_libpcpnatpmp.Base.{ℕ, zero, suc, Bool, true, false, Option, none, some, if◌then◌else◌}
use emulebb_libpcpnatpmp.TimeVal.{TimeVal, zero_time}
use emulebb_libpcpnatpmp.Wire.{In6Addr}
use emulebb_libpcpnatpmp.Data.{Server}
use emulebb_libpcpnatpmp.FlowMachine.Api.{is_inactive, pcp_close_flow_intern}
use emulebb_libpcpnatpmp.ClientDb.Servers.{get_pcp_server}
use emulebb_libpcpnatpmp.System.{
  Sys, Action, pure, fault, ◌>>=◌, ◌>>◌, gettimeofday, load, store, store_server,
}
use emulebb_libpcpnatpmp.Pulse.{Datagram, pcp_pulse}

unfoldable pub server_at : ℕ → Action (Option Server)
server_at i c = some (get_pcp_server c.servers i, c)

unfoldable pub put_server : ℕ → Option Server → Action (Unit {0})
put_server i none = pure tt
put_server i (some s) = store_server i s

-- The clock is read where the flow is active, by each of the two calls of pcp_flow_updated.
unfoldable pub close_times : Bool → Action (TimeVal × TimeVal)
close_times inactive =
    if inactive
    then pure (zero_time, zero_time)
    else do now ← gettimeofday; later ← gettimeofday; pure (now, later)

unfoldable pub close_at : ℕ → Action (Unit {0})
unfolding server_at put_server close_times
close_at a = do
  f ← load a
  times ← close_times (is_inactive f.state)
  o ← server_at f.pcp_server_indx
  let r = pcp_close_flow_intern times.0 times.1 (f, o)
  store a r.0
  put_server f.pcp_server_indx r.1

unfoldable pub close_loop : ℕ → Option ℕ → Action (Unit {0})
unfolding close_at
close_loop fuel none = pure tt
close_loop zero (some a) = fault
close_loop (suc fuel) (some a) = do close_at a; g ← load a; close_loop fuel g.next_child

module _ (is_linklocal : In6Addr → Bool) (rounds : ℕ) (d : Option Datagram) where
  -- The timeout of pcp_pulse is the temporary one.
  unfoldable pub pulse_after : Option ℕ → Action (Unit {0})
  pulse_after none = pure tt
  pulse_after (some a) = do t ← pcp_pulse is_linklocal rounds d zero_time; pure tt

  -- There are no more flows on a chain than addresses have been given out.
  unfoldable pub pcp_close_flow : Option ℕ → Action (Unit {0})
  unfolding close_loop pulse_after
  pcp_close_flow o c = (close_loop c.db.next_address o >> pulse_after o) c

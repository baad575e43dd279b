-- ===== src/System/Iterate.antt =====
-- pcp_db_foreach_flow of lib/src/pcp_client_db.c, with the callbacks check_flow_timeout and
-- flow_send_event_iter of lib/src/pcp_event_handler.c. Both return 0, so that every flow is visited;
-- neither links nor unlinks a flow, so that the chains can be read at the start. The timeout that
-- `*timeout` points to is handed from call to call.
pub mod Safety
use emulebb_libpcpnatpmp.Base.{
  ℕ, Bool, List, [], ◌∷◌, ◌++◌, Option, none, some, pos, ltb_ℤ, ◌==◌, if◌then◌else◌,
}
use emulebb_libpcpnatpmp.TimeVal.{TimeVal, is_zero_time, timeval_comp, timeval_subtract}
use emulebb_libpcpnatpmp.Data.{Flow, FlowEvent, fev_flow_timedout, Server}
use emulebb_libpcpnatpmp.ClientDb.Flows.{FlowDb}
use emulebb_libpcpnatpmp.System.{
  Sys, Action, pure, ◌>>=◌, ◌>>◌, gettimeofday, load, store, load_server, store_server, send_event,
}

abbrev pub flatten : List (List ℕ) → List ℕ
flatten [] = []
flatten (c ∷ cs) = c ++ flatten cs

-- The flows in the order of pcp_db_foreach_flow.
unfoldable pub flow_addresses : Action (List ℕ)
flow_addresses c = some (flatten c.db.flows, c)

module _ {B : Type 0} where
  unfoldable pub foreach : (ℕ → B → Action B) → List ℕ → B → Action B
  foreach f [] b = pure b
  foreach f (a ∷ rest) b = do r ← f a b; foreach f rest r

-- The end of check_flow_timeout: the nearer of two times that are left, where zero is none.
unfoldable pub sooner : TimeVal → TimeVal → TimeVal
sooner ctv tout =
    let r = timeval_comp ctv tout in
    if is_zero_time tout then ctv else if ltb_ℤ r.order (pos 0) then r.left else r.right

unfoldable pub time_out_if : Bool → ℕ → Action (Unit {0})
time_out_if late a =
    if late then (do st ← send_event a fev_flow_timedout none; pure tt) else pure tt

unfoldable pub time_left : ℕ → TimeVal → TimeVal → Action TimeVal
unfolding sooner
time_left a ctv tout = do
  g ← load a
  if is_zero_time g.timeout then pure tout else do
    let d = timeval_subtract g.timeout ctv
    store a (record g { timeout = d.left })
    pure (sooner d.result tout)

unfoldable pub check_flow_timeout : ℕ → TimeVal → Action TimeVal
unfolding time_out_if time_left
check_flow_timeout a tout = do
  f ← load a
  if is_zero_time f.timeout then pure tout else do
    ctv ← gettimeofday
    let r = timeval_comp f.timeout ctv
    store a (record f { timeout = r.left })
    time_out_if (ltb_ℤ r.order (pos 1)) a
    time_left a r.right tout

unfoldable pub flow_send_event_iter : ℕ → FlowEvent → ℕ → TimeVal → Action TimeVal
flow_send_event_iter index ev a tout = do
  f ← load a
  if f.pcp_server_indx == index
      then (do st ← send_event a ev none; check_flow_timeout a tout)
      else pure tout

-- An event for all flows of a server; its next_timeout is the timeout that is pointed to.
unfoldable pub send_to_all : ℕ → FlowEvent → Action (Unit {0})
send_to_all i ev = do
  s ← load_server i
  flows ← flow_addresses
  t ← foreach (flow_send_event_iter s.index ev) flows s.next_timeout
  u ← load_server i
  store_server i (record u { next_timeout = t })

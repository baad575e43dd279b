-- ===== src/System.antt =====
-- The state that the handlers of lib/src/pcp_event_handler.c share through the context: the database
-- of flows and servers, the message that was received, and what the outside still has to give. An
-- action is a function of this state; it gives nothing where it would follow a pointer to nothing.
pub mod Flows
pub mod Sound
pub mod Actions
pub mod Iterate
use emulebb_libpcpnatpmp.Base.{
  ℕ, zero, suc, ◌+◌, Bool, List, [], ◌∷◌, Option, none, some, get_elem?, set, if◌then◌else◌,
}
use mathlib.Core.Option
use emulebb_libpcpnatpmp.TimeVal.{TimeVal}
use emulebb_libpcpnatpmp.Data.{Flow, FlowState, FState, FlowEvent, Server, RecvMsg}
use emulebb_libpcpnatpmp.FlowMachine.Send.{Io}
use emulebb_libpcpnatpmp.FlowMachine.Machine.{
  World, Run, done, null_dereference, out_of_fuel, handle_flow_event, pcp_eval_flow_state,
}
use emulebb_libpcpnatpmp.ClientDb.Flows.{Heap, FlowDb, update}
use emulebb_libpcpnatpmp.ClientDb.Servers.{get_pcp_server}

-- struct pcp_ctx_s without its callback and socket.
pub record Sys : Type 0 where
  pub db : FlowDb
  pub servers : List Server
  pub msg : RecvMsg
  pub outside : World

abbrev pub Action : Type 0 → Type 0
Action A = Sys → Option (A × Sys)

module _ {A : Type 0} where
  abbrev pub pure : A → Action A
  pure a c = some (a, c)

  abbrev pub fault : Action A
  fault c = none

module _ {A B : Type 0} where
  abbrev pub and_then : Option (A × Sys) → (A → Action B) → Option (B × Sys)
  and_then none k = none
  and_then (some (a, c)) k = k a c

  infixl 5 ◌>>=◌ ◌>>◌
  unfoldable pub ◌>>=◌ : Action A → (A → Action B) → Action B
  (m >>= k) c = and_then (m c) k

  abbrev pub ◌>>◌ : Action A → Action B → Action B
  m >> n = m >>= λ _. n

abbrev pub with_flow : Sys → ℕ → Flow → Sys
with_flow c a f = record c { db = record c.db { heap = update c.db.heap a (some f) } }

-- gettimeofday
unfoldable pub gettimeofday : Action TimeVal
gettimeofday c = some ((c.outside 0).now, record c { outside = λ n. c.outside (n + 1) })

-- A flow through its pointer.
unfoldable pub load : ℕ → Action Flow
load a c = elim (c.db.heap a) [ none ↦ none | some f ↦ some (f, c) ]

-- A write to the fields of a flow that is there.
unfoldable pub store : ℕ → Flow → Action (Unit {0})
store a f c = elim (c.db.heap a) [ none ↦ none | some _ ↦ some (tt, with_flow c a f) ]

-- A record of the array of servers.
unfoldable pub load_server : ℕ → Action Server
load_server i c = elim (get_elem? c.servers i) [ none ↦ none | some s ↦ some (s, c) ]

unfoldable pub store_server : ℕ → Server → Action (Unit {0})
store_server i s c = elim (get_elem? c.servers i) [
  | none ↦ none
  | some _ ↦ some (tt, record c { servers = set c.servers i s })
]

-- A run of the flow's machine, and what it leaves.
abbrev pub settle : Sys → ℕ → Run → Option (FlowState × Sys)
settle c a (done g n) =
    some (g.state, record (with_flow c a g) { outside = λ k. c.outside (n + k) })
settle c a null_dereference = none
settle c a out_of_fuel = none

-- The states of the flows from one on along next_child; none where a link leads to nothing.
unfoldable pub chain_states : ℕ → Heap → Option ℕ → Option (List FlowState)
chain_states fuel h none = some []
chain_states zero h (some a) = none
chain_states (suc fuel) h (some a) = elim (h a) [
  | none ↦ none
  | some f ↦ Option.map (λ ss. f.state ∷ ss) (chain_states fuel h f.next_child)
]

abbrev pub evaluated : Sys → Option (List FlowState) → Option (FState × Sys)
evaluated c none = none
evaluated c (some ss) = some ((pcp_eval_flow_state ss).1, c)

-- pcp_eval_flow_state at a flow. There are no more flows on a chain than addresses have been given
-- out.
unfoldable pub eval_flow : ℕ → Action FState
eval_flow a c = evaluated c (chain_states c.db.next_address c.db.heap (some a))

-- The loop of handle_flow_event at a flow of the database.
unfoldable pub run_events : ℕ → FlowEvent → Option RecvMsg → Action FlowState
run_events a ev msg c = elim (c.db.heap a) [
  | none ↦ none
  | some f ↦
      settle c a (handle_flow_event c.outside (get_pcp_server c.servers f.pcp_server_indx) msg ev f)
]

-- handle_flow_event: the chain's state is evaluated before and after the loop. Whom a change of it is
-- told to is the application's code.
unfoldable pub send_event : ℕ → FlowEvent → Option RecvMsg → Action FlowState
unfolding run_events eval_flow
send_event a ev msg = do
  before ← eval_flow a
  st ← run_events a ev msg
  after ← eval_flow a
  pure st

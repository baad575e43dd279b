-- ===== src/FlowMachine/Rest.antt =====
-- Where the `for (;;)` of handle_flow_event in lib/src/pcp_event_handler.c may end, and which events
-- lead into each state.
use emulebb_libpcpnatpmp.Base.{ℕ, ◌≤◌, ◌≡◌, ◌≢◌, ◌⊎◌, refl, ◌∙◌, arith, Option, none, some}
use emulebb_libpcpnatpmp.Data.{
  FlowState, pfs_any, pfs_idle, pfs_wait_for_server_init, pfs_send, pfs_wait_resp,
  pfs_wait_after_short_life_error, pfs_wait_for_lifetime_renew, pfs_send_renew, pfs_failed,
  FlowEvent, fev_send, fev_msg_sent, fev_ignored, fev_res, Flow, RecvMsg,
}
use emulebb_libpcpnatpmp.FlowMachine.Diagram.{diagram}
use emulebb_libpcpnatpmp.FlowMachine.Outcomes.{Keeps}
use emulebb_libpcpnatpmp.FlowMachine.Machine.{Run, done}

-- The states in which a flow waits for the next event.
pub data IsResting : FlowState → Type 0 where
  for_server : IsResting pfs_wait_for_server_init
  for_response : IsResting pfs_wait_resp
  after_error : IsResting pfs_wait_after_short_life_error
  for_renewal : IsResting pfs_wait_for_lifetime_renew
  given_up : IsResting pfs_failed

-- The run ends after at most so many handlers, in the same flow, at rest.
pub record EndsAtRest (bound : ℕ) (f : Flow) (r : Run) : Type 0 where
  pub flow : Flow
  pub calls : ℕ
  pub ends : r ≡ done flow calls
  pub bounded : calls ≤ bound
  pub rests : IsResting flow.state
  pub address : flow.address ≡ f.address
  pub kd : flow.kd ≡ f.kd
  pub key_bucket : flow.key_bucket ≡ f.key_bucket
  pub next_child : flow.next_child ≡ f.next_child
  pub pcp_server_indx : flow.pcp_server_indx ≡ f.pcp_server_indx
  pub lifetime : flow.lifetime ≡ f.lifetime

-- An event that a response raises comes with the response.
abbrev pub HasMsg : FlowEvent → Option RecvMsg → Type 0
HasMsg (fev_res r) none = ⊥
HasMsg _ _ = Unit {0}

abbrev pub IsRes : FlowEvent → Type 0
IsRes (fev_res r) = Unit {0}
IsRes _ = ⊥

pub msg_of :
    (ev : FlowEvent) (msg : Option RecvMsg)
    → IsRes ev
    → HasMsg ev msg
    → (m : RecvMsg) × (msg ≡ some m)
msg_of (fev_res r) none i h = absurd h
msg_of (fev_res r) (some m) i h = (m, refl)
msg_of _ _ i h = absurd i

-- Only a response leads to a short-lifetime error, or to a renewed or new mapping.
pub error-IsRes :
    (cur : FlowState) (ev : FlowEvent)
    → diagram cur ev ≡ some pfs_wait_after_short_life_error
    → IsRes ev
error-IsRes pfs_idle fev_send e = cc
error-IsRes _ (fev_res r) e = tt
error-IsRes _ _ e = cc

pub granted-IsRes :
    (cur : FlowState) (ev : FlowEvent)
    → diagram cur ev ≡ some pfs_wait_for_lifetime_renew
    → (cur ≡ pfs_wait_resp) ⊎ (cur ≡ pfs_wait_for_lifetime_renew)
    → IsRes ev
granted-IsRes pfs_idle fev_send e h = cc
granted-IsRes _ (fev_res r) e h = tt
granted-IsRes pfs_send fev_ignored e h = absurd (ground arith)
granted-IsRes pfs_send_renew fev_msg_sent e h = absurd (ground arith)
granted-IsRes _ _ e h = cc

pub never_idle : (cur : FlowState) (ev : FlowEvent) → diagram cur ev ≢ some pfs_idle
never_idle cur ev e = ground arith

pub never_any : (cur : FlowState) (ev : FlowEvent) → diagram cur ev ≢ some pfs_any
never_any cur ev e = ground arith

-- A response is awaited only after a message was sent.
pub sent_only :
    (cur : FlowState) (ev : FlowEvent)
    → diagram cur ev ≡ some pfs_wait_resp
    → (cur ≡ pfs_send) × (ev ≡ fev_msg_sent)
sent_only cur ev e = ground arith

abbrev pub goto : FlowState → Flow → Flow
goto next f = record f { state = next }

pub rest_here :
    (bound n : ℕ) (f g : Flow) (next : FlowState)
    → IsResting next
    → n ≤ bound
    → Keeps (goto next f) g
    → EndsAtRest bound f (done g n)
rest_here bound n f g next rest le k = record {
  flow = g;
  calls = n;
  ends = refl;
  bounded = le;
  rests = rw k.state rest;
  address = k.address;
  kd = k.kd;
  key_bucket = k.key_bucket;
  next_child = k.next_child;
  pcp_server_indx = k.pcp_server_indx;
  lifetime = k.lifetime;
}

-- A later round of the same flow.
pub carry :
    {bound : ℕ} {next : FlowState} {f g : Flow} {r : Run}
    → Keeps (goto next f) g
    → EndsAtRest bound g r
    → EndsAtRest bound f r
carry k e = record {
  flow = e.flow;
  calls = e.calls;
  ends = e.ends;
  bounded = e.bounded;
  rests = e.rests;
  address = e.address ∙ k.address;
  kd = e.kd ∙ k.kd;
  key_bucket = e.key_bucket ∙ k.key_bucket;
  next_child = e.next_child ∙ k.next_child;
  pcp_server_indx = e.pcp_server_indx ∙ k.pcp_server_indx;
  lifetime = e.lifetime ∙ k.lifetime;
}

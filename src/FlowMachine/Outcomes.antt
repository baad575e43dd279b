-- ===== src/FlowMachine/Outcomes.antt =====
-- Which events the handlers of lib/src/pcp_event_handler.c return, and what of a flow they leave.
use emulebb_libpcpnatpmp.Base.{
  ℕ, ◌+◌, ◌≡◌, ◌⊎◌, inl, inr, refl, ◌∙◌, arith, Bool, true, false, Option, none, some,
  if◌then◌else◌,
}
use emulebb_libpcpnatpmp.Data.{
  Flow, Server, RecvMsg, FlowEvent, fev_failed, fev_ignored, fev_msg_sent, fev_none,
}
use emulebb_libpcpnatpmp.Msg.Build.{build_pcp_msg, keep_msg}
use emulebb_libpcpnatpmp.FlowMachine.Send.{
  Io, ensure_msg, send_built, pcp_flow_send_msg, pcp_flow_clear_msg_buf,
}
use emulebb_libpcpnatpmp.FlowMachine.Timeout.{u32}
use emulebb_libpcpnatpmp.FlowMachine.Handlers.{
  Handled, is_restart_flow, sent_ok, set_resend, send_handler, resend_handler,
  shortlifeerror_handler, received_success_handler, send_renew_handler, clear_timeouts_handler,
  waitresp_handler,
}

-- The identity of a flow, which no handler touches, and its state, which handle_flow_event sets.
pub record Keeps (f g : Flow) : Type 0 where
  pub address : g.address ≡ f.address
  pub kd : g.kd ≡ f.kd
  pub key_bucket : g.key_bucket ≡ f.key_bucket
  pub next_child : g.next_child ≡ f.next_child
  pub pcp_server_indx : g.pcp_server_indx ≡ f.pcp_server_indx
  pub lifetime : g.lifetime ≡ f.lifetime
  pub state : g.state ≡ f.state

pub Keeps-trans : {f g h : Flow} → Keeps f g → Keeps g h → Keeps f h
Keeps-trans p q = record {
  address = q.address ∙ p.address;
  kd = q.kd ∙ p.kd;
  key_bucket = q.key_bucket ∙ p.key_bucket;
  next_child = q.next_child ∙ p.next_child;
  pcp_server_indx = q.pcp_server_indx ∙ p.pcp_server_indx;
  lifetime = q.lifetime ∙ p.lifetime;
  state = q.state ∙ p.state;
}

build_pcp_msg-Keeps : (s : Option Server) (f : Flow) → Keeps f (build_pcp_msg s f)
unfolding build_pcp_msg keep_msg
build_pcp_msg-Keeps s f = ground arith

ensure_msg-Keeps : (s : Server) (f : Flow) → Keeps f (ensure_msg s f)
ensure_msg-Keeps s f = ground (arith, build_pcp_msg-Keeps (some s) f)

send_built-Keeps : (io : Io) (f : Flow) → Keeps f (send_built io f).flow
unfolding send_built
send_built-Keeps io f = ground arith

pub pcp_flow_send_msg-Keeps :
    (io : Io) (s : Server) (f : Flow) → Keeps f (pcp_flow_send_msg io s f).flow
unfolding pcp_flow_send_msg
pcp_flow_send_msg-Keeps io s f =
    ground (arith, ensure_msg-Keeps s f, send_built-Keeps io (ensure_msg s f))

-- The handler ends with an event of the kind, the flow kept.
abbrev pub Emits : (FlowEvent → Type 0) → Flow → Handled → Type 0
Emits P f h = (g : Flow) × (e : FlowEvent) × (h ≡ some (g, e)) × Keeps f g × P e

abbrev pub AfterSend : FlowEvent → Type 0
AfterSend e = (e ≡ fev_failed) ⊎ ((e ≡ fev_ignored) ⊎ (e ≡ fev_msg_sent))

abbrev pub AfterRenew : FlowEvent → Type 0
AfterRenew e = (e ≡ fev_failed) ⊎ (e ≡ fev_msg_sent)

abbrev pub AfterWait : FlowEvent → Type 0
AfterWait e = (e ≡ fev_failed) ⊎ (e ≡ fev_none)

abbrev pub Quiet : FlowEvent → Type 0
Quiet e = e ≡ fev_none

Keeps-refl : (f : Flow) → Keeps f f
Keeps-refl f = ground arith

Emits-ok :
    (P : FlowEvent → Type 0) (f g : Flow) (e : FlowEvent)
    → Keeps f g
    → P e
    → Emits P f (some (g, e))
Emits-ok P f g e k p = (g, e, refl, k, p)

Emits-if :
    (P : FlowEvent → Type 0) (f : Flow) (b : Bool) (x y : Handled)
    → Emits P f x
    → Emits P f y
    → Emits P f (if b then x else y)
Emits-if P f true x y p q = p
Emits-if P f false x y p q = q

set_resend-Keeps : (io : Io) (ms : ℕ) (f : Flow) → Keeps f (set_resend io ms f)
unfolding set_resend
set_resend-Keeps io ms f = ground arith

pub send_handler-Emits :
    (io : Io) (s : Option Server) (f : Flow) → Emits AfterSend f (send_handler io s f)
unfolding send_handler
send_handler-Emits io none f = Emits-ok AfterSend f f fev_failed (Keeps-refl f) (inl refl)
send_handler-Emits io (some s) f =
    let r = pcp_flow_send_msg io s f in
    let k = pcp_flow_send_msg-Keeps io s f in
    Emits-if AfterSend f (is_restart_flow s f) _ _
      (Emits-ok AfterSend f f fev_ignored (Keeps-refl f) (inr (inl refl)))
      (Emits-if AfterSend f (sent_ok r) _ _
        (Emits-ok AfterSend f _ fev_msg_sent (Keeps-trans k (set_resend-Keeps io _ r.flow))
          (inr (inr refl)))
        (Emits-ok AfterSend f r.flow fev_failed k (inl refl)))

pub resend_handler-Emits :
    (io : Io) (s : Option Server) (f : Flow) → Emits AfterSend f (resend_handler io s f)
unfolding resend_handler
resend_handler-Emits io none f = Emits-ok AfterSend f f fev_failed (Keeps-refl f) (inl refl)
resend_handler-Emits io (some s) f =
    let g : Flow = record f { retry_count = u32 (f.retry_count + 1) } in
    let kg : Keeps f g = ground arith in
    let r = pcp_flow_send_msg io s g in
    let k = Keeps-trans kg (pcp_flow_send_msg-Keeps io s g) in
    Emits-if AfterSend f _ _ _ (Emits-ok AfterSend f g fev_failed kg (inl refl)) (
      Emits-if AfterSend f (sent_ok r) _ _
        (Emits-ok AfterSend f _ fev_msg_sent (Keeps-trans k (set_resend-Keeps io _ r.flow))
          (inr (inr refl)))
        (Emits-ok AfterSend f r.flow fev_failed k (inl refl)))

pub send_renew_handler-Emits :
    (io : Io) (s : Option Server) (f : Flow) → Emits AfterRenew f (send_renew_handler io s f)
unfolding send_renew_handler
send_renew_handler-Emits io none f = Emits-ok AfterRenew f f fev_failed (Keeps-refl f) (inl refl)
send_renew_handler-Emits io (some s) f =
    let r = pcp_flow_send_msg io s f in
    let k = pcp_flow_send_msg-Keeps io s f in
    Emits-if AfterRenew f (sent_ok r) _ _
      (Emits-if AfterRenew f _ _ _ (Emits-ok AfterRenew f _ fev_failed (ground arith) (inl refl))
        (Emits-ok AfterRenew f _ fev_msg_sent (ground arith) (inr refl)))
      (Emits-ok AfterRenew f r.flow fev_failed k (inl refl))

pub waitresp_handler-Emits : (io : Io) (f : Flow) → Emits AfterWait f (waitresp_handler io f)
unfolding waitresp_handler
waitresp_handler-Emits io f =
    Emits-if AfterWait f _ _ _ (Emits-ok AfterWait f _ fev_failed (ground arith) (inl refl))
      (Emits-ok AfterWait f _ fev_none (ground arith) (inr refl))

pub clear_timeouts_handler-Emits :
    (msg : Option RecvMsg) (f : Flow) → Emits Quiet f (clear_timeouts_handler msg f)
unfolding clear_timeouts_handler pcp_flow_clear_msg_buf
clear_timeouts_handler-Emits msg f = Emits-ok Quiet f _ fev_none (ground arith) refl

pub shortlifeerror_handler-Emits :
    (io : Io) (msg : RecvMsg) (f : Flow) → Emits Quiet f (shortlifeerror_handler io (some msg) f)
unfolding shortlifeerror_handler
shortlifeerror_handler-Emits io msg f = Emits-ok Quiet f _ fev_none (ground arith) refl

pub received_success_handler-Emits :
    (io : Io) (msg : RecvMsg) (f : Flow) → Emits Quiet f (received_success_handler io (some msg) f)
unfolding received_success_handler
received_success_handler-Emits io msg f = Emits-ok Quiet f _ fev_none (ground arith) refl

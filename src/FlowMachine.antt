-- ===== src/FlowMachine.antt =====
-- The flow state machine of lib/src/pcp_event_handler.c, and pcp_eval_flow_state of
-- lib/src/pcp_api.c.
pub mod Table
pub mod Send
pub mod Timeout
pub mod Handlers
pub mod Machine
pub mod Diagram
pub mod Outcomes
pub mod Rest
pub mod Rounds
pub mod Termination
pub mod Sending
pub mod Renewal
pub mod Summary
pub mod Api
pub mod Updates

-- ===== src/Fsm.antt =====
-- runtime/engine/fsm: the state machine of a plan's life, from the user's input to a terminal state.
pub mod Context
pub mod Action
pub mod State
pub mod Machine
pub mod Plan
pub mod Finish
pub mod Recovery
pub mod Diagram

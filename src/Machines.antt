-- ===== src/Machines.antt =====
-- packages/machines/src: the two state machines, over the state machine library that runs them.
pub mod Engine
pub mod Approval
pub mod ValueLifecycle

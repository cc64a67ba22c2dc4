-- ===== src/Strategy.antt =====
-- packages/domain-strategy/src/index.ts: the strategy graph and its states.
pub mod Types
pub mod Cycle
pub mod Rules
pub mod Graph
pub mod States
mod Tests

-- ===== src/Engine.antt =====
-- layer4/engine/src: the execution engine. Each child models the file that its header names.
pub mod Types
pub mod Gas
pub mod Confirmation
pub mod Nonce
pub mod Idempotency
pub mod Breaker
pub mod External
pub mod Auth
pub mod SafeAuth
pub mod Handoff
pub mod Builder
pub mod Submitter
pub mod Runner
pub mod Orchestrator

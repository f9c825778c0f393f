-- ===== src/Scheduling.antt =====
-- server/src/services/schedule.service.ts and server/src/services/scheduling: which schedules are
-- active, which of them win their target, and what the evaluator and the events dispatch.
mod Examples
pub mod Types
pub mod Conditions
pub mod Conflicts
pub mod Activation
pub mod Dispatch
pub mod Service
pub mod Once
pub mod Targeted
pub mod Audience
pub mod Events
pub mod Resumption

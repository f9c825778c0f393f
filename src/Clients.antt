-- ===== src/Clients.antt =====
-- server/src/services/client.service.ts: registration, playlist assignments and interruptions.
mod Examples
pub mod Service
pub mod Interrupts
pub mod Assignments

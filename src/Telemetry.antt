-- ===== src/Telemetry.antt =====
-- server/src/services/telemetry.service.ts: the alerts on what clients report of themselves.
mod Examples
pub mod Service
pub mod Window

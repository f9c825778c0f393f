-- ===== src/Uploads.antt =====
-- server/src/services/chunked-upload.service.ts: files that arrive in chunks.
mod Examples
pub mod Sessions
pub mod Completion
pub mod Pigeonhole
pub mod Ongoing
pub mod Reassembly
pub mod Retry
pub mod Stale

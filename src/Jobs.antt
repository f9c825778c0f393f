-- ===== src/Jobs.antt =====
-- The job tables and their pollers: server/src/services/thumbnail-queue.service.ts and
-- server/src/services/upload-completion-queue.service.ts.
mod Examples
pub mod Table
pub mod Claims
pub mod Thumbnails
pub mod Completions
pub mod Fifo

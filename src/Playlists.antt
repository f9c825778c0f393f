-- ===== src/Playlists.antt =====
-- server/src/services/playlist.service.ts: playlists and the order of their items.
mod Examples
pub mod Table
pub mod Service
pub mod Reorder
pub mod Dense
pub mod Gaps

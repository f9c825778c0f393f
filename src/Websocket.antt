-- ===== src/Websocket.antt =====
-- server/src/websocket: connections of playback clients and admin browsers.
pub mod Types
pub mod Manager
mod Examples

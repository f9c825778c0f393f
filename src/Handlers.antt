-- ===== src/Handlers.antt =====
-- server/src/websocket/handlers.ts: what the server does with the messages of its clients.
mod Examples
pub mod Notifications
pub mod Messages
pub mod Reports
pub mod Register
pub mod Untargeted

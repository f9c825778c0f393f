-- ===== src/Groups.antt =====
-- server/src/services/group.service.ts: groups of clients.
mod Examples
pub mod Service
pub mod Membership

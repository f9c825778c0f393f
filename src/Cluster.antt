-- ===== src/Cluster.antt =====
-- server/src/cluster/session-store.ts: values that expire.
mod Examples
pub mod SessionStore
pub mod Expiry

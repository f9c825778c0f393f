-- ===== src/Folders.antt =====
-- server/src/services/folder.service.ts: the tree of media folders, with the path of each stored.
mod Examples
pub mod Table
pub mod Service
pub mod Paths
pub mod Tree
pub mod Moves
pub mod Cycles
pub mod Growth

-- ===== src/Playlists/Dense.antt =====
-- The positions of the items of a playlist, as server/src/services/playlist.service.ts keeps them: 0, 1
-- and so on, as many as there are items.
pub mod Counts
pub mod Append
pub mod Adds
pub mod Cascade
pub mod Lengths
pub mod Reordered
pub mod Run
use montr.Base.{ℕ, Bool, true, false, some, ◌≡◌, ◌<◌, nat_eq, length}
use montr.Base.Map.{get, has, Distinct}
use montr.Playlists.Table.{pos, PlaylistItem, Items, PlaylistTables, items_of}

abbrev pub count : ℕ → Items → ℕ
count p items = length (items_of p items)

-- No two items of a playlist are at the same position, and each is below the number of its items; so
-- that the positions of a playlist are all the numbers below that number.
pub record IsDense (t : PlaylistTables) : Type 0 where
  pub distinct : Distinct t.items
  pub given_out : (id : ℕ) → has id t.items ≡ true → id < t.next_item
  pub positions :
      (id : ℕ) (row : PlaylistItem)
      → get id t.items ≡ some row
      → (j : ℕ) × (row.order_index ≡ pos j) × (j < count row.playlist_id t.items)
  pub unique :
      (id k : ℕ) (row other : PlaylistItem)
      → get id t.items ≡ some row
      → get k t.items ≡ some other
      → row.playlist_id ≡ other.playlist_id
      → row.order_index ≡ other.order_index
      → id ≡ k

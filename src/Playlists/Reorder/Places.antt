-- ===== src/Playlists/Reorder/Places.antt =====
-- `reorderPlaylistItems` of server/src/services/playlist.service.ts, as a whole.
use montr.Base.{
  ℕ, true, Option, none, some, List, [], ◌∷◌, nat_eq, eqb_iff, ◌≡◌, ◌≢◌, refl, sym, ap, ◌∙◌, arith,
  inl, inr, Option-cases, includes, ok,
}
use montr.Base.Map.{get, Distinct}
use montr.Playlists.Table.{
  ℤ, pos, negsuc, Playlist, PlaylistItem, Items, PlaylistTables, reorder_rows,
}
use montr.Playlists.Service.{
  get_playlist_by_id, get_playlist_item_by_id, check_items, reorder_playlist_items,
}
use montr.Playlists.Reorder.{index_from, place, NoRepeats, all_belong, belongs_row, index_from-some}
use montr.Playlists.Reorder.Loops.{IsBelow, Reordered, set_orders-Reordered}

-- No item of the playlist has a negative position.
abbrev pub IsNatural : ℕ → Items → Type 0
IsNatural p items =
    (id : ℕ) (row : PlaylistItem) (j : ℕ)
    → get id items ≡ some row
    → row.playlist_id ≡ p
    → row.order_index ≢ negsuc j

-- The ids are those of the items of the playlist, each once.
pub record IsOrderOf (p : ℕ) (ids : List ℕ) (items : Items) : Type 0 where
  pub once : NoRepeats ids
  pub own : all_belong p items ids ≡ true
  pub all :
      (id : ℕ) (row : PlaylistItem)
      → get id items ≡ some row
      → row.playlist_id ≡ p
      → includes ids id ≡ true

place-place :
    (c d : ℕ → ℤ) (i : Option ℕ) (o : Option PlaylistItem) → place d i (place c i o) ≡ place d i o
place-place c d none o = refl
place-place c d (some i) none = refl
place-place c d (some i) (some row) = refl

pub playlist-place :
    (c : ℕ → ℤ) (i : Option ℕ) (o : Option PlaylistItem) (row : PlaylistItem)
    → place c i o ≡ some row
    → (old : PlaylistItem) × (o ≡ some old) × (row.playlist_id ≡ old.playlist_id)
playlist-place c none o row h = (row, h, refl)
playlist-place c (some i) none row h = absurd cc
playlist-place c (some i) (some old) row h = (old, refl, ground (arith, h))

pub placed_index :
    (c : ℕ → ℤ) (i : ℕ) (old row : PlaylistItem)
    → place c (some i) (some old) ≡ some row
    → row.order_index ≡ c i
placed_index c i old row h = ground (arith, h)

all_belong-placed :
    (p : ℕ) (c : ℕ → ℤ) (items moved : Items) (index : ℕ → Option ℕ)
    → ((k : ℕ) → get k moved ≡ place c (index k) (get k items))
    → (ids : List ℕ) → all_belong p items ids ≡ true
    → all_belong p moved ids ≡ true
all_belong-placed p c items moved index h [] a = refl
all_belong-placed p c items moved index h (id ∷ ids) a =
    let (row, found, inside) = belongs_row p id items (ground (arith, a)) in
    let rest = all_belong-placed p c items moved index h ids (ground (arith, a)) in
    elim (Option-cases (index id)) [
      | inl e ↦ ground (arith, h id, e, found, inside, rest, eqb_iff row.playlist_id p)
      | inr (i, e) ↦ ground (arith, h id, e, found, inside, rest, eqb_iff row.playlist_id p)
    ]

-- After the first loop no item of the playlist has a position from 0 on.
all_negative :
    (p : ℕ) (ids : List ℕ) (items : Items)
    → IsOrderOf p ids items
    → (r : Reordered negsuc 0 ids items) → IsBelow pos p 0 r.moved
all_negative p ids items o r k row j found inside position =
    let (old, before, kept) =
      playlist-place negsuc (index_from 0 k ids) (get k items) row (sym (r.rows k) ∙ found) in
    let (i, at) = index_from-some 0 k ids (o.all k old before (sym kept ∙ inside)) in
    let here : place negsuc (some i) (some old) ≡ some row =
      ground (arith, r.rows k, found, before, at) in
    absurd (ground (arith, placed_index negsuc i old row here, position))

pos_injective : (a b : ℕ) → pos a ≡ pos b → a ≡ b
pos_injective a b e = ground (arith, e)

negsuc_injective : (a b : ℕ) → negsuc a ≡ negsuc b → a ≡ b
negsuc_injective a b e = ground (arith, e)

-- What the adapter's transaction does to the items.
pub record Placed (ids : List ℕ) (t : PlaylistTables) : Type 0 where
  pub items : Items
  pub commits : reorder_rows ids t ≡ (record t { items = items }, ok tt)
  pub distinct : Distinct items
  pub rows : (k : ℕ) → get k items ≡ place pos (index_from 0 k ids) (get k t.items)

pub reorder_rows-Placed :
    (p : ℕ) (ids : List ℕ) (t : PlaylistTables)
    → Distinct t.items
    → IsOrderOf p ids t.items
    → IsNatural p t.items
    → Placed ids t
unfolding reorder_rows
reorder_rows-Placed p ids t d o n =
    let first =
      set_orders-Reordered negsuc negsuc_injective p ids 0 t.items d o.once o.own
        (λ id row j f i e. absurd (n id row j f i e)) in
    let second =
      set_orders-Reordered pos pos_injective p ids 0 first.moved first.distinct o.once
        (all_belong-placed p negsuc t.items first.moved (λ k. index_from 0 k ids) first.rows ids
          o.own)
        (all_negative p ids t.items o first) in
    record {
      items = second.moved;
      commits = rw (reorder_rows, first.runs) (rw second.runs refl);
      distinct = second.distinct;
      rows = λ k.
          second.rows k
          ∙ ap (place pos (index_from 0 k ids)) (first.rows k)
          ∙ place-place negsuc pos (index_from 0 k ids) (get k t.items);
    }

pub check_items_own :
    (p : ℕ) (ids : List ℕ) (t : PlaylistTables)
    → all_belong p t.items ids ≡ true
    → check_items p ids t ≡ (t, ok tt)
unfolding check_items get_playlist_item_by_id
check_items_own p [] t h = refl
check_items_own p (id ∷ ids) t h =
    let (row, found, inside) = belongs_row p id t.items (ground (arith, h)) in
    ground (arith, h, found, inside, eqb_iff row.playlist_id p, check_items_own p ids t)

-- Given the ids of all the items of an existing playlist, each once, in any order, and no negative
-- position in it, reorderPlaylistItems succeeds: no update of its two loops meets the UNIQUE
-- constraint, each item ends at its place in the list, and nothing else about any item changes.
pub reorder_playlist_items-places :
    (p : ℕ) (playlist : Playlist) (ids : List ℕ) (t : PlaylistTables)
    → get p t.playlists ≡ some playlist
    → Distinct t.items
    → IsOrderOf p ids t.items
    → IsNatural p t.items
    → let (t', result) = reorder_playlist_items p ids t in
      (result ≡ ok tt) × ((k : ℕ) → get k t'.items ≡ place pos (index_from 0 k ids) (get k t.items))
unfolding reorder_playlist_items get_playlist_by_id
reorder_playlist_items-places p playlist ids t h d o n =
    let placed = reorder_rows-Placed p ids t d o n in
    let whole : reorder_playlist_items p ids t ≡ (record t { items = placed.items }, ok tt) =
      ground (arith, h, check_items_own p ids t o.own, placed.commits) in
    rw whole (refl, placed.rows)

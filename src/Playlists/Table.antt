-- ===== src/Playlists/Table.antt =====
-- The playlists, their items and the media files of server/src/database/adapters/sql-base.adapter.ts,
-- by id. `order_index` is UNIQUE in a playlist; a statement that breaks a constraint throws.
use montr.Base.{
  ℕ, zero, suc, ◌+◌, Text, Bool, true, false, not, ◌&&◌, ◌||◌, Option, none, some, List, [], ◌∷◌,
  leb, eqb, ◌==◌, nat_eq, if◌then◌else◌, Result, ok, throw, foreign,
}
use montr.Base.Map.{Map, get, set, has, delete, modify}

-- `negsuc n` is -(n + 1).
pub data ℤ : Type 0 where
  pos negsuc : ℕ → ℤ

abbrev pub eq_int : ℤ → ℤ → Bool
eq_int (pos a) (pos b) = eqb a b
eq_int (negsuc a) (negsuc b) = eqb a b
eq_int _ _ = false

abbrev pub le_int : ℤ → ℤ → Bool
le_int (pos a) (pos b) = leb a b
le_int (negsuc a) (negsuc b) = leb b a
le_int (negsuc a) (pos b) = true
le_int (pos a) (negsuc b) = false

pub data MediaType : Type 0 where
  video image : MediaType

pub data ApprovalStatus : Type 0 where
  pending approved rejected : ApprovalStatus

pub record MediaFile : Type 0 where
  pub type : MediaType
  pub duration : Option ℕ
  pub approval_status : ApprovalStatus

pub record Playlist : Type 0 where
  pub name : Text
  pub description : Option Text

pub record PlaylistItem : Type 0 where
  pub playlist_id : ℕ
  pub media_id : ℕ
  pub order_index : ℤ
  pub image_duration : ℕ

abbrev pub Items : Type 0
Items = Map ℕ PlaylistItem

pub record PlaylistTables : Type 0 where
  pub media : Map ℕ MediaFile
  pub playlists : Map ℕ Playlist
  pub items : Items
  pub next_playlist : ℕ
  pub next_item : ℕ

pub record AddPlaylistItemInput : Type 0 where
  pub playlist_id : ℕ
  pub media_id : ℕ
  pub order_index : Option ℤ
  pub image_duration : Option ℕ

pub record UpdatePlaylistItemInput : Type 0 where
  pub order_index : Option ℤ
  pub image_duration : Option ℕ

-- `createPlaylist`; an empty description is stored as NULL.
unfoldable pub insert_playlist : Text → Option Text → PlaylistTables → PlaylistTables × Result ℕ
insert_playlist name description t =
    let text : Option Text = elim description [
      | none ↦ none
      | some [] ↦ none
      | some (c ∷ s) ↦ some (c ∷ s)
    ] in
    (
      record t {
        playlists = set t.next_playlist (record { name = name; description = text }) t.playlists;
        next_playlist = t.next_playlist + 1;
      },
      ok t.next_playlist,
    )

-- `UNIQUE(playlist_id, order_index)` for another row than `id`.
unfoldable pub is_taken : ℕ → ℤ → ℕ → Items → Bool
is_taken playlist_id ix id [] = false
is_taken playlist_id ix id ((k, row) ∷ items) =
    (not (k == id) && (row.playlist_id == playlist_id && eq_int row.order_index ix))
    || is_taken playlist_id ix id items

-- `WHERE playlist_id = …`
unfoldable pub items_of : ℕ → Items → Items
items_of playlist_id [] = []
items_of playlist_id ((k, row) ∷ items) =
    if row.playlist_id == playlist_id
    then (k, row) ∷ items_of playlist_id items
    else items_of playlist_id items

unfoldable pub insert_item : ℕ × PlaylistItem → Items → Items
insert_item i [] = i ∷ []
insert_item i (j ∷ js) =
    if le_int i.1.order_index j.1.order_index then i ∷ j ∷ js else j ∷ insert_item i js

-- `ORDER BY order_index ASC`
unfoldable pub sort_items : Items → Items
unfolding insert_item
sort_items [] = []
sort_items (i ∷ is) = insert_item i (sort_items is)

unfoldable pub get_playlist_items : ℕ → Items → Items
unfolding items_of sort_items
get_playlist_items playlist_id items = sort_items (items_of playlist_id items)

-- `image_duration || 5`
abbrev pub or_five : Option ℕ → ℕ
or_five none = 5
or_five (some zero) = 5
or_five (some (suc n)) = suc n

abbrev pub new_item : AddPlaylistItemInput → ℤ → PlaylistItem
new_item input ix = record {
  playlist_id = input.playlist_id;
  media_id = input.media_id;
  order_index = ix;
  image_duration = or_five input.image_duration;
}

-- The constraints of a new row: both foreign keys, and that the position is free.
abbrev pub may_insert : AddPlaylistItemInput → ℤ → PlaylistTables → Bool
may_insert input ix t =
    has input.playlist_id t.playlists
    && (has input.media_id t.media && not (is_taken input.playlist_id ix t.next_item t.items))

-- `addPlaylistItem`, with the position that its caller chose.
unfoldable pub insert_playlist_item :
    AddPlaylistItemInput → ℤ → PlaylistTables → PlaylistTables × Result ℕ
unfolding is_taken
insert_playlist_item input ix t =
    if may_insert input ix t
    then (
      record t { items = set t.next_item (new_item input ix) t.items; next_item = t.next_item + 1 },
      ok t.next_item,
    )
    else (t, throw foreign)

abbrev pub or_kept : {A : Type 0} → Option A → A → A
or_kept none a = a
or_kept (some b) a = b

abbrev pub changed : UpdatePlaylistItemInput → PlaylistItem → PlaylistItem
changed input row = record row {
  order_index = or_kept input.order_index row.order_index;
  image_duration = or_kept input.image_duration row.image_duration;
}

-- Whether an UPDATE of a row may write this position.
abbrev pub may_move : ℕ → PlaylistItem → Option ℤ → Items → Bool
may_move id row none items = true
may_move id row (some ix) items = not (is_taken row.playlist_id ix id items)

-- `updatePlaylistItem`
unfoldable pub update_item_row :
    ℕ → UpdatePlaylistItemInput → PlaylistTables → PlaylistTables × Result (Unit {0})
unfolding is_taken
update_item_row id input t = elim (get id t.items) [
  | none ↦ (t, throw foreign)
  | some row ↦
      if may_move id row input.order_index t.items
      then (record t { items = modify id (changed input) t.items }, ok tt)
      else (t, throw foreign)
]

-- `UPDATE playlist_items SET order_index = … WHERE id = …`; `none` if the position is taken.
unfoldable pub set_order : ℕ → ℤ → Items → Option Items
unfolding is_taken
set_order id ix items = elim (get id items) [
  | none ↦ some items
  | some row ↦
      if is_taken row.playlist_id ix id items
      then none
      else some (modify id (λ r. record r { order_index = ix }) items)
]

-- One of the two loops of `reorderPlaylistItems`, from its round `i` on.
unfoldable pub set_orders : (ℕ → ℤ) → ℕ → List ℕ → Items → Option Items
unfolding set_order
set_orders position i [] items = some items
set_orders position i (id ∷ ids) items = elim (set_order id (position i) items) [
  | none ↦ none
  | some moved ↦ set_orders position (suc i) ids moved
]

abbrev pub bind_items : Option Items → (Items → Option Items) → Option Items
bind_items none f = none
bind_items (some items) f = f items

-- `reorderPlaylistItems`: a transaction, which an error rolls back.
unfoldable pub reorder_rows : List ℕ → PlaylistTables → PlaylistTables × Result (Unit {0})
unfolding set_orders
reorder_rows ids t = elim (bind_items (set_orders negsuc 0 ids t.items) (set_orders pos 0 ids)) [
  | none ↦ (t, throw foreign)
  | some items ↦ (record t { items = items }, ok tt)
]

unfoldable pub delete_rows : (PlaylistItem → Bool) → Items → Items
delete_rows p [] = []
delete_rows p ((k, row) ∷ items) =
    if p row then delete_rows p items else (k, row) ∷ delete_rows p items

-- `deletePlaylist` and `deleteMedia`: the items go with them, by ON DELETE CASCADE.
unfoldable pub delete_playlist_row : ℕ → PlaylistTables → PlaylistTables
unfolding delete_rows
delete_playlist_row id t = record t {
  playlists = delete id t.playlists;
  items = delete_rows (λ row. row.playlist_id == id) t.items;
}

unfoldable pub delete_media : ℕ → PlaylistTables → PlaylistTables
unfolding delete_rows
delete_media id t = record t {
  media = delete id t.media;
  items = delete_rows (λ row. row.media_id == id) t.items;
}

-- ===== src/Playlists/Service.antt =====
-- server/src/services/playlist.service.ts, class PlaylistService. `strict` is
-- `config.content.requireMediaApproval`.
use montr.Base.{
  ℕ, suc, ◌+◌, Text, Bool, true, false, not, ◌&&◌, Option, none, some, List, [], ◌∷◌, map, length,
  ◌==◌, nat_eq, Action, app_error, foreign, bad_request, playlist_not_found,
  playlist_item_not_found, media_not_found, ◌>>=◌, ◌>>◌, give, reads, writes, require, reject_if,
}
use montr.Base.Map.{Map, get, delete, modify}
use montr.Playlists.Table.{
  ℤ, pos, video, image, ApprovalStatus, approved, MediaFile, Playlist, PlaylistItem, Items,
  PlaylistTables, AddPlaylistItemInput, UpdatePlaylistItemInput, get_playlist_items,
  insert_playlist_item, update_item_row, reorder_rows, delete_playlist_row, or_kept,
  insert_playlist,
}

-- `undefined` is `none`.
pub record UpdatePlaylistInput : Type 0 where
  pub name : Option Text
  pub description : Option Text

unfoldable pub create_playlist : Text → Option Text → Action PlaylistTables ℕ
unfolding insert_playlist
create_playlist name description = insert_playlist name description

unfoldable pub get_playlist_by_id : ℕ → Action PlaylistTables Playlist
get_playlist_by_id id = do
  playlist ← reads (λ t. get id t.playlists)
  require (app_error playlist_not_found) playlist

abbrev pub changed_playlist : UpdatePlaylistInput → Playlist → Playlist
changed_playlist input p = record {
  name = or_kept input.name p.name;
  description = elim input.description [ none ↦ p.description | some d ↦ some d ];
}

unfoldable pub update_playlist : ℕ → UpdatePlaylistInput → Action PlaylistTables Playlist
unfolding get_playlist_by_id
update_playlist id input = do
  p ← get_playlist_by_id id
  writes (λ t. record t { playlists = modify id (changed_playlist input) t.playlists })
  row ← reads (λ t. get id t.playlists)
  require foreign row

unfoldable pub delete_playlist : ℕ → Action PlaylistTables (Unit {0})
unfolding get_playlist_by_id delete_playlist_row
delete_playlist id = do p ← get_playlist_by_id id; writes (delete_playlist_row id)

abbrev pub is_approved : ApprovalStatus → Bool
is_approved approved = true
is_approved _ = false

-- `order_index` of the input, or the number of the items.
abbrev pub position_or_end : Option ℤ → ℕ → Items → ℤ
position_or_end (some ix) playlist_id items = ix
position_or_end none playlist_id items = pos (length (get_playlist_items playlist_id items))

module _ (strict : Bool) where
  -- `assertMediaApproved`
  abbrev pub assert_media_approved : MediaFile → Action PlaylistTables (Unit {0})
  assert_media_approved media =
      reject_if (strict && not (is_approved media.approval_status)) (app_error bad_request)

  -- `getMediaById`, with both checks.
  unfoldable pub check_media : ℕ → Action PlaylistTables (Unit {0})
  check_media media_id = do
    row ← reads (λ t. get media_id t.media)
    media ← require (app_error media_not_found) row
    assert_media_approved media

  unfoldable pub add_playlist_item : AddPlaylistItemInput → Action PlaylistTables ℕ
  unfolding get_playlist_by_id check_media get_playlist_items insert_playlist_item
  add_playlist_item input = do
    p ← get_playlist_by_id input.playlist_id
    check_media input.media_id
    ix ← reads (λ t. position_or_end input.order_index input.playlist_id t.items)
    insert_playlist_item input ix

  -- The loop of `addPlaylistItems`; what was added before an error stays.
  unfoldable pub add_each : ℕ → List ℕ → ℕ → Action PlaylistTables (List ℕ)
  unfolding check_media insert_playlist_item
  add_each playlist_id [] ix = give []
  add_each playlist_id (media_id ∷ media_ids) ix = do
    check_media media_id
    let input : AddPlaylistItemInput = record {
      playlist_id = playlist_id;
      media_id = media_id;
      order_index = some (pos ix);
      image_duration = some 5;
    }
    id ← insert_playlist_item input (pos ix)
    ids ← add_each playlist_id media_ids (suc ix)
    give (id ∷ ids)

  unfoldable pub add_playlist_items : ℕ → List ℕ → Action PlaylistTables (List ℕ)
  unfolding get_playlist_by_id add_each get_playlist_items
  add_playlist_items playlist_id media_ids = do
    p ← get_playlist_by_id playlist_id
    n ← reads (λ t. length (get_playlist_items playlist_id t.items))
    add_each playlist_id media_ids n

unfoldable pub get_playlist_item_by_id : ℕ → Action PlaylistTables PlaylistItem
get_playlist_item_by_id id = do
  item ← reads (λ t. get id t.items)
  require (app_error playlist_item_not_found) item

unfoldable pub update_playlist_item : ℕ → UpdatePlaylistItemInput → Action PlaylistTables (Unit {0})
unfolding get_playlist_item_by_id update_item_row
update_playlist_item id input = do item ← get_playlist_item_by_id id; update_item_row id input

abbrev pub reorder_unless_empty : List ℕ → Action PlaylistTables (Unit {0})
reorder_unless_empty [] = give tt
reorder_unless_empty (id ∷ ids) = reorder_rows (id ∷ ids)

unfoldable pub delete_playlist_item : ℕ → Action PlaylistTables (Unit {0})
unfolding get_playlist_item_by_id get_playlist_items reorder_rows
delete_playlist_item id = do
  item ← get_playlist_item_by_id id
  writes (λ t. record t { items = delete id t.items })
  ids ← reads (λ t. map (λ i. i.0) (get_playlist_items item.playlist_id t.items))
  reorder_unless_empty ids

-- The loop of `reorderPlaylistItems` that checks the items.
unfoldable pub check_items : ℕ → List ℕ → Action PlaylistTables (Unit {0})
unfolding get_playlist_item_by_id
check_items playlist_id [] = give tt
check_items playlist_id (id ∷ ids) = do
  item ← get_playlist_item_by_id id
  reject_if (not (item.playlist_id == playlist_id)) (app_error bad_request)
  check_items playlist_id ids

unfoldable pub reorder_playlist_items : ℕ → List ℕ → Action PlaylistTables (Unit {0})
unfolding get_playlist_by_id check_items reorder_rows
reorder_playlist_items playlist_id ids = do
  p ← get_playlist_by_id playlist_id
  check_items playlist_id ids
  reorder_rows ids

pub record PlaylistStats : Type 0 where
  pub total_items : ℕ
  pub total_duration : ℕ
  pub video_count : ℕ
  pub image_count : ℕ

abbrev pub seconds : Option ℕ → ℕ
seconds none = 0
seconds (some n) = n

-- The items of `getPlaylistWithItems` that join a media file, and what `forEach` counts.
unfoldable pub count_item : Option MediaFile → PlaylistItem → PlaylistStats → PlaylistStats
count_item none row s = s
count_item (some media) row s = elim media.type [
  | video ↦ record s {
    total_items = s.total_items + 1;
    video_count = s.video_count + 1;
    total_duration = s.total_duration + seconds media.duration;
  }
  | image ↦ record s {
    total_items = s.total_items + 1;
    image_count = s.image_count + 1;
    total_duration = s.total_duration + row.image_duration;
  }
]

unfoldable pub count_items : Map ℕ MediaFile → Items → PlaylistStats → PlaylistStats
unfolding count_item
count_items media [] s = s
count_items media ((k, row) ∷ items) s =
    count_items media items (count_item (get row.media_id media) row s)

unfoldable pub get_playlist_stats : ℕ → Action PlaylistTables PlaylistStats
unfolding get_playlist_by_id count_items get_playlist_items
get_playlist_stats id = do
  p ← get_playlist_by_id id
  reads (λ t.
      count_items t.media (get_playlist_items id t.items)
        (record { total_items = 0; total_duration = 0; video_count = 0; image_count = 0 }))

-- ===== src/Playlists/Gaps.antt =====
-- What the deletion of a media file, server/src/services/media.service.ts, does to the playlists that
-- server/src/services/playlist.service.ts keeps: its items go without the others moving up.
use montr.Base.{
  ℕ, Bool, true, none, some, ◌==◌, nat_eq, eqb_iff, ◌≡◌, ◌≢◌, refl, sym, ◌∙◌, arith, throw, foreign,
}
use montr.Base.Map.{get, get-delete, has-of_get}
use montr.Playlists.Table.{
  pos, MediaFile, approved, Playlist, PlaylistItem, Items, PlaylistTables, AddPlaylistItemInput,
  is_taken, insert_playlist_item, delete_media,
}
use montr.Playlists.Service.{add_playlist_item}
use montr.Playlists.Reorder.{taken_by_holder}
use montr.Playlists.Dense.{count, IsDense}
use montr.Playlists.Dense.Adds.{add_playlist_item_appends}
use montr.Playlists.Dense.Cascade.{delete_rows-keeps}

-- A playlist with a gap: its last item is past its number of items.
taken_end :
    (p id k : ℕ) (row : PlaylistItem) (items : Items)
    → id ≢ k
    → get k items ≡ some row
    → row.playlist_id ≡ p
    → row.order_index ≡ pos (count p items)
    → is_taken p (pos (count p items)) id items ≡ true
taken_end p id k row items n h i e =
    taken_by_holder p (pos (count p items)) id k row items (λ s. n (sym s)) h i
      (rw e ((eqb_iff (count p items) (count p items)).1 refl))

-- Where a media file is deleted, and an item of a dense playlist that is not of this file is left at the
-- position that equals the number of the items left, as the last item is when the file stood once before
-- it, every addPlaylistItem that names no position fails with an error of the database, for any other
-- approved media file, and changes nothing.
pub add_playlist_item-after_delete_media :
    (strict : Bool) (m last : ℕ) (row : PlaylistItem) (input : AddPlaylistItemInput)
    (playlist : Playlist) (media : MediaFile) (t : PlaylistTables)
    → IsDense t
    → get last t.items ≡ some row
    → row.playlist_id ≡ input.playlist_id
    → row.media_id ≢ m
    → row.order_index ≡ pos (count input.playlist_id (delete_media m t).items)
    → get input.playlist_id t.playlists ≡ some playlist
    → get input.media_id t.media ≡ some media
    → media.approval_status ≡ approved
    → input.media_id ≢ m
    → input.order_index ≡ none
    → add_playlist_item strict input (delete_media m t) ≡ (delete_media m t, throw foreign)
unfolding delete_media insert_playlist_item
add_playlist_item-after_delete_media strict m last row input playlist media t d h i n e g f a k o =
    let stays =
      delete_rows-keeps (λ r. r.media_id == m) last row t.items h
        (ground (arith, n, eqb_iff row.media_id m)) in
    let below = d.given_out last (has-of_get last row t.items h) in
    let taken =
      taken_end input.playlist_id t.next_item last row (delete_media m t).items
        (λ s. omega (arith, s, below)) stays i e in
    let appends =
      add_playlist_item_appends strict input playlist media (delete_media m t) g
        (ground (arith, f, k, get-delete m input.media_id t.media)) a o in
    appends ∙ ground (arith, taken)

-- ===== src/Playlists/Examples.antt =====
-- A playlist of three items, of two media files.
use montr.Base.{
  ℕ, true, none, [], ◌∷◌, codes, nat_eq, ◌≡◌, ◌≢◌, refl, throw, foreign, ok, arith, subst,
}
use montr.Base.Map.{get, has, set}
use montr.Playlists.Table.{
  pos, MediaFile, image, approved, Playlist, PlaylistItem, PlaylistTables, AddPlaylistItemInput,
  items_of, delete_rows, delete_media,
}
use montr.Playlists.Service.{
  add_playlist_item, add_playlist_items, delete_playlist_item, reorder_playlist_items,
}
use montr.Playlists.Reorder.{index_from, place}
use montr.Playlists.Reorder.Places.{IsOrderOf, IsNatural, reorder_playlist_items-places}
use montr.Playlists.Dense.{IsDense}
use montr.Playlists.Dense.Run.{stays, goes_on, appends_all, removes, Reaches-IsDense}
use montr.Playlists.Gaps.{add_playlist_item-after_delete_media}

abbrev still_image : MediaFile
still_image = record { type = image; duration = none; approval_status = approved }

abbrev loop : Playlist
loop = record { name = codes "loop"; description = none }

abbrev item : ℕ → ℕ → PlaylistItem
item media_id place = record {
  playlist_id = 1;
  media_id = media_id;
  order_index = pos place;
  image_duration = 5;
}

abbrev empty_loop : PlaylistTables
empty_loop = record {
  media = (1, still_image) ∷ (2, still_image) ∷ [];
  playlists = (1, loop) ∷ [];
  items = [];
  next_playlist = 2;
  next_item = 1;
}

abbrev two_items : PlaylistTables
two_items = record empty_loop { items = (1, item 1 0) ∷ (2, item 2 1) ∷ []; next_item = 3 }

empty_loop-IsDense : IsDense empty_loop
unfolding get has
empty_loop-IsDense = record {
  distinct = tt;
  given_out = λ id h. absurd cc;
  positions = λ id row h. absurd cc;
  unique = λ id k row other h g same place. absurd cc;
}

Reaches-IsDense_example :
    IsDense (delete_playlist_item 1 (add_playlist_items true 1 (1 ∷ 2 ∷ []) empty_loop).0).0
Reaches-IsDense_example =
    Reaches-IsDense true empty_loop
      (delete_playlist_item 1 (add_playlist_items true 1 (1 ∷ 2 ∷ []) empty_loop).0).0
      (goes_on (goes_on stays (appends_all 1 (1 ∷ 2 ∷ []))) (removes 1)) empty_loop-IsDense

abbrev appended : PlaylistTables
appended = (add_playlist_items true 1 (1 ∷ 2 ∷ []) empty_loop).0

appended_two : appended ≡ two_items
unfolding add_playlist_items get has set items_of
appended_two = refl

two_items-IsDense : IsDense two_items
two_items-IsDense = subst IsDense appended_two (
    Reaches-IsDense true empty_loop appended (goes_on stays (appends_all 1 (1 ∷ 2 ∷ [])))
      empty_loop-IsDense)

two_items-IsNatural : IsNatural 1 two_items.items
two_items-IsNatural id row j found inside e =
    let (i, at, below) = two_items-IsDense.positions id row found in ground (arith, at, e)

second_first : IsOrderOf 1 (2 ∷ 1 ∷ []) two_items.items
unfolding get
second_first = record {
  once = (refl, (refl, tt));
  own = refl;
  all = λ id row found inside. ground (arith, found);
}

reorder_playlist_items-places_example :
    let (t, result) = reorder_playlist_items 1 (2 ∷ 1 ∷ []) two_items in
    (result ≡ ok tt)
    × ((k : ℕ) → get k t.items ≡ place pos (index_from 0 k (2 ∷ 1 ∷ [])) (get k two_items.items))
unfolding get has
reorder_playlist_items-places_example =
    reorder_playlist_items-places 1 loop (2 ∷ 1 ∷ []) two_items refl two_items-IsDense.distinct
      second_first two_items-IsNatural

abbrev append_second : AddPlaylistItemInput
append_second = record { playlist_id = 1; media_id = 2; order_index = none; image_duration = none }

other_file : (item 2 1).media_id ≢ 1
other_file e = omega (arith, e)

-- The first file is deleted; nothing can be appended any more.
add_playlist_item-after_delete_media_example :
    add_playlist_item true append_second (delete_media 1 two_items)
    ≡ (delete_media 1 two_items, throw foreign)
unfolding get delete_media delete_rows items_of
add_playlist_item-after_delete_media_example =
    add_playlist_item-after_delete_media true 1 2 (item 2 1) append_second loop still_image
      two_items two_items-IsDense refl refl other_file refl refl refl refl other_file refl

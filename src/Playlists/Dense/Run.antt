-- ===== src/Playlists/Dense/Run.antt =====
-- The calls of server/src/services/playlist.service.ts that edit playlists, one after the other.
use montr.Base.{
  ℕ, Text, Bool, Option, none, some, List, [], ◌∷◌, nat_eq, ◌≡◌, refl, sym, arith, inl, inr,
  Option-cases,
}
use montr.Base.Map.{
  Map, get, delete, modify, get-modify_self, get-delete, has-delete, Distinct-delete,
}
use montr.Playlists.Table.{
  Playlist, PlaylistItem, PlaylistTables, AddPlaylistItemInput, reorder_rows, set_orders,
  get_playlist_items, insert_playlist,
}
use montr.Playlists.Service.{
  UpdatePlaylistInput, create_playlist, update_playlist, delete_playlist, add_playlist_item,
  add_playlist_items, get_playlist_by_id, get_playlist_item_by_id, delete_playlist_item,
  reorder_playlist_items, reorder_unless_empty, changed_playlist,
}
use montr.Playlists.Reorder.Places.{IsOrderOf, reorder_rows-Placed, check_items_own}
use montr.Playlists.Dense.{IsDense}
use montr.Playlists.Dense.Counts.{ids_of, get_playlist_items-IsOrderOf, count-delete_other}
use montr.Playlists.Dense.Adds.{add_playlist_item-IsDense, add_playlist_items-IsDense}
use montr.Playlists.Dense.Lengths.{length-order}
use montr.Playlists.Dense.Cascade.{delete_playlist-IsDense}
use montr.Playlists.Dense.Reordered.{IsDenseBut, Placed-IsDense}

IsDense-but : (p : ℕ) (t : PlaylistTables) → IsDense t → IsDenseBut p t
IsDense-but p t d = record {
  distinct = d.distinct;
  given_out = d.given_out;
  natural = λ id row j found inside e.
      let (i, at, below) = d.positions id row found in absurd (ground (arith, at, e));
  positions = λ id row found other. d.positions id row found;
  unique = d.unique;
}

-- A deleted item leaves a gap in its own playlist at most.
delete-IsDenseBut :
    (id : ℕ) (item : PlaylistItem) (t : PlaylistTables)
    → IsDense t
    → get id t.items ≡ some item
    → IsDenseBut item.playlist_id (record t { items = delete id t.items })
delete-IsDenseBut id item t d h = record {
  distinct = Distinct-delete id t.items d.distinct;
  given_out = λ k e. d.given_out k (ground (arith, e, has-delete id k t.items));
  natural = λ k row j found inside e.
      let (i, at, below) = d.positions k row (kept k row found) in absurd (ground (arith, at, e));
  positions = λ k row found other.
      let (j, at, below) = d.positions k row (kept k row found) in
      let same =
        count-delete_other row.playlist_id id item t.items d.distinct h (λ e. other (sym e)) in
      (j, at, omega (arith, below, same));
  unique = λ k l row other found found' same place.
      d.unique k l row other (kept k row found) (kept l other found') same place;
}
  where
    kept :
        (k : ℕ) (row : PlaylistItem)
        → get k (delete id t.items) ≡ some row
        → get k t.items ≡ some row
    kept k row e = ground (arith, e, get-delete id k t.items)

reorder_unless_empty_lem :
    (ids : List ℕ) (t : PlaylistTables) → reorder_unless_empty ids t ≡ reorder_rows ids t
unfolding reorder_rows set_orders
reorder_unless_empty_lem [] t = refl
reorder_unless_empty_lem (id ∷ ids) t = refl

reorder_rows-IsDense :
    (p : ℕ) (ids : List ℕ) (t : PlaylistTables)
    → IsDenseBut p t
    → IsOrderOf p ids t.items
    → IsDense (reorder_rows ids t).0
reorder_rows-IsDense p ids t d o =
    let placed = reorder_rows-Placed p ids t d.distinct o d.natural in
    let counted = length-order p ids t.items d.distinct o in
    rw placed.commits (Placed-IsDense p ids t d o counted placed)

delete_playlist_item-IsDense :
    (id : ℕ) (t : PlaylistTables) → IsDense t → IsDense (delete_playlist_item id t).0
unfolding delete_playlist_item get_playlist_item_by_id
delete_playlist_item-IsDense id t d = elim (Option-cases (get id t.items)) [
  | inl e ↦ rw e d
  | inr (item, e) ↦
      let left : PlaylistTables = record t { items = delete id t.items } in
      let ids = ids_of (get_playlist_items item.playlist_id left.items) in
      let but = delete-IsDenseBut id item t d e in
      rw (e, reorder_unless_empty_lem ids left)
        (reorder_rows-IsDense item.playlist_id ids left but
          (get_playlist_items-IsOrderOf item.playlist_id left.items but.distinct))
]

reorder_playlist_items-IsDense :
    (p : ℕ) (ids : List ℕ) (t : PlaylistTables)
    → IsDense t
    → IsOrderOf p ids t.items
    → IsDense (reorder_playlist_items p ids t).0
unfolding reorder_playlist_items get_playlist_by_id
reorder_playlist_items-IsDense p ids t d o = elim (Option-cases (get p t.playlists)) [
  | inl e ↦ rw e d
  | inr (playlist, e) ↦
      rw (e, check_items_own p ids t o.own) (reorder_rows-IsDense p ids t (IsDense-but p t d) o)
]

-- One call of the service, whether it succeeds or throws: appends, removals, and reorderings that
-- list every item of the playlist once.
pub data Step (strict : Bool) (t : PlaylistTables) : PlaylistTables → Type 0 where
  creates : (name : Text) (text : Option Text) → Step strict t (create_playlist name text t).0
  updates : (id : ℕ) (input : UpdatePlaylistInput) → Step strict t (update_playlist id input t).0
  deletes : (id : ℕ) → Step strict t (delete_playlist id t).0
  appends :
      (input : AddPlaylistItemInput)
      → input.order_index ≡ none
      → Step strict t (add_playlist_item strict input t).0
  appends_all :
      (p : ℕ) (media_ids : List ℕ) → Step strict t (add_playlist_items strict p media_ids t).0
  removes : (id : ℕ) → Step strict t (delete_playlist_item id t).0
  reorders :
      (p : ℕ) (ids : List ℕ)
      → IsOrderOf p ids t.items
      → Step strict t (reorder_playlist_items p ids t).0

pub data Reaches (strict : Bool) : PlaylistTables → PlaylistTables → Type 0 where
  stays : {t : PlaylistTables} → Reaches strict t t
  goes_on : {t u v : PlaylistTables} → Reaches strict t u → Step strict u v → Reaches strict t v

-- The playlists themselves say nothing of the positions.
with_playlists-IsDense :
    (playlists : Map ℕ Playlist) (n : ℕ) (t : PlaylistTables)
    → IsDense t
    → IsDense (record t { playlists = playlists; next_playlist = n })
with_playlists-IsDense playlists n t d = record {
  distinct = d.distinct;
  given_out = d.given_out;
  positions = d.positions;
  unique = d.unique;
}

update_playlist-IsDense :
    (id : ℕ) (input : UpdatePlaylistInput) (t : PlaylistTables)
    → IsDense t
    → IsDense (update_playlist id input t).0
unfolding update_playlist get_playlist_by_id
update_playlist-IsDense id input t d = elim (Option-cases (get id t.playlists)) [
  | inl e ↦ rw e d
  | inr (p, e) ↦
      let changes = changed_playlist input in
      let row = get-modify_self id changes p t.playlists e in
      rw (e, row) (with_playlists-IsDense (modify id changes t.playlists) t.next_playlist t d)
]

Step-IsDense : (strict : Bool) (t t' : PlaylistTables) → Step strict t t' → IsDense t → IsDense t'
unfolding create_playlist insert_playlist
Step-IsDense strict t t' (creates name text) d = with_playlists-IsDense _ _ t d
Step-IsDense strict t t' (updates id input) d = update_playlist-IsDense id input t d
Step-IsDense strict t t' (deletes id) d = delete_playlist-IsDense id t d
Step-IsDense strict t t' (appends input e) d = add_playlist_item-IsDense strict input t e d
Step-IsDense strict t t' (appends_all p ids) d = add_playlist_items-IsDense strict p ids t d
Step-IsDense strict t t' (removes id) d = delete_playlist_item-IsDense id t d
Step-IsDense strict t t' (reorders p ids o) d = reorder_playlist_items-IsDense p ids t d o

-- From tables whose playlists are dense, no sequence of calls that create, update and delete playlists,
-- append items without naming a position, remove items, and reorder all items of a playlist, whether
-- a call succeeds or throws, leaves a gap: the positions of the items of a playlist stay the numbers
-- from 0 on, as many as there are items and no two the same.
pub Reaches-IsDense :
    (strict : Bool) (t t' : PlaylistTables) → Reaches strict t t' → IsDense t → IsDense t'
Reaches-IsDense strict t t' stays d = d
Reaches-IsDense strict t t' (goes_on {u = u} r s) d =
    Step-IsDense strict u t' s (Reaches-IsDense strict t u r d)

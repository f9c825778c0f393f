-- ===== src/Playlists/Dense/Adds.antt =====
-- addPlaylistItem, without a position, and addPlaylistItems of
-- server/src/services/playlist.service.ts.
use montr.Base.{
  ℕ, suc, Bool, not, ◌&&◌, none, some, List, [], ◌∷◌, nat_eq, ◌≡◌, refl, sym, ap, ◌∙◌, ◌⊎◌, arith,
  length, inl, inr, Bool-cases, Option-cases, Result, ok, throw, Thrown, app_error, media_not_found,
  bad_request, foreign, and_then, give, ◌>>◌, ◌>>=◌, subst,
}
use montr.Base.Map.{get}
use montr.Playlists.Table.{
  ℤ, pos, PlaylistTables, AddPlaylistItemInput, new_item, may_insert, insert_playlist_item,
  get_playlist_items, MediaFile, Playlist, approved,
}
use montr.Playlists.Service.{
  get_playlist_by_id, check_media, add_playlist_item, add_each, add_playlist_items, is_approved,
}
use montr.Playlists.Dense.{count, IsDense}
use montr.Playlists.Dense.Counts.{length-get_playlist_items}
use montr.Playlists.Dense.Append.{insert-IsDense, insert-count, with_item}

check_media_cases :
    (strict : Bool) (id : ℕ) (t : PlaylistTables)
    → (check_media strict id t ≡ (t, ok tt))
      ⊎ ((e : Thrown) × (check_media strict id t ≡ (t, throw e)))
unfolding check_media
check_media_cases strict id t = elim (Option-cases (get id t.media)) [
  | inl e ↦ inr (app_error media_not_found, ground (arith, e))
  | inr (media, e) ↦ elim (Bool-cases (strict && not (is_approved media.approval_status))) [
    | inl bad ↦ inr (app_error bad_request, ground (arith, e, bad))
    | inr fine ↦ inl (ground (arith, e, fine))
  ]
]

-- An append is the insert of a row at the end, or an error that changes nothing.
pub add_playlist_item_cases :
    (strict : Bool) (input : AddPlaylistItemInput) (t : PlaylistTables)
    → input.order_index ≡ none
    → ((add_playlist_item strict input t).0 ≡ t)
      ⊎ (add_playlist_item strict input t
          ≡ insert_playlist_item input (pos (count input.playlist_id t.items)) t)
unfolding add_playlist_item get_playlist_by_id
add_playlist_item_cases strict input t e = elim (Option-cases (get input.playlist_id t.playlists)) [
  | inl g ↦ inl (ground (arith, g))
  | inr (p, g) ↦ elim (check_media_cases strict input.media_id t) [
    | inl fine ↦
        inr (ground (arith, e, g, fine, length-get_playlist_items input.playlist_id t.items))
    | inr (x, bad) ↦ inl (ground (arith, g, bad))
  ]
]

-- For an existing playlist and an approved media file, the append comes to the insert.
pub add_playlist_item_appends :
    (strict : Bool) (input : AddPlaylistItemInput) (playlist : Playlist) (media : MediaFile)
    (t : PlaylistTables)
    → get input.playlist_id t.playlists ≡ some playlist
    → get input.media_id t.media ≡ some media
    → media.approval_status ≡ approved
    → input.order_index ≡ none
    → add_playlist_item strict input t
      ≡ insert_playlist_item input (pos (count input.playlist_id t.items)) t
unfolding add_playlist_item get_playlist_by_id check_media
add_playlist_item_appends strict input playlist media t g f a e =
    let size = length-get_playlist_items input.playlist_id t.items in
    ground (arith, g, f, a, e, size)

pub add_playlist_item-IsDense :
    (strict : Bool) (input : AddPlaylistItemInput) (t : PlaylistTables)
    → input.order_index ≡ none
    → IsDense t
    → IsDense (add_playlist_item strict input t).0
add_playlist_item-IsDense strict input t e d = elim (add_playlist_item_cases strict input t e) [
  | inl same ↦ rw same d
  | inr inserts ↦ rw inserts (insert-IsDense input t d)
]

given-state :
    {A B : Type 0} (f : A → B) (r : PlaylistTables × Result A)
    → (and_then r (λ a. give (f a))).0 ≡ r.0
given-state f (t, ok a) = refl
given-state f (t, throw e) = refl

abbrev counted_input : ℕ → ℕ → ℕ → AddPlaylistItemInput
counted_input p m n = record {
  playlist_id = p;
  media_id = m;
  order_index = some (pos n);
  image_duration = some 5;
}

-- One round of the loop.
add_each_stops :
    (strict : Bool) (p m n : ℕ) (ms : List ℕ) (t : PlaylistTables)
    → check_media strict m t ≡ (t, ok tt)
    → insert_playlist_item (counted_input p m n) (pos n) t ≡ (t, throw foreign)
    → (add_each strict p (m ∷ ms) n t).0 ≡ t
unfolding add_each
add_each_stops strict p m n ms t fine h = ground (arith, fine, h)

add_each_goes :
    (strict : Bool) (p m n id : ℕ) (ms : List ℕ) (t t' : PlaylistTables)
    → check_media strict m t ≡ (t, ok tt)
    → insert_playlist_item (counted_input p m n) (pos n) t ≡ (t', ok id)
    → (add_each strict p (m ∷ ms) n t).0 ≡ (add_each strict p ms (suc n) t').0
unfolding add_each
add_each_goes strict p m n id ms t t' fine h =
    rw (◌>>◌, ◌>>=◌, fine)
      (rw (◌>>=◌, h) (given-state (λ ids. id ∷ ids) (add_each strict p ms (suc n) t')))

-- What an insert comes to.
insert_cases :
    (input : AddPlaylistItemInput) (ix : ℤ) (t : PlaylistTables)
    → (insert_playlist_item input ix t ≡ (t, throw foreign))
      ⊎ ((t' : PlaylistTables) × (insert_playlist_item input ix t ≡ (t', ok t.next_item)))
unfolding insert_playlist_item
insert_cases input ix t = elim (Bool-cases (may_insert input ix t)) [
  | inl e ↦ inr (with_item (new_item input ix) t, rw (insert_playlist_item, e) refl)
  | inr e ↦ inl (rw (insert_playlist_item, e) refl)
]

add_each-IsDense :
    (strict : Bool) (p n : ℕ) (media_ids : List ℕ) (t : PlaylistTables)
    → n ≡ count p t.items
    → IsDense t
    → IsDense (add_each strict p media_ids n t).0
unfolding add_each
add_each-IsDense strict p n [] t e d = d
add_each-IsDense strict p n (m ∷ ms) t e d = elim (check_media_cases strict m t) [
  | inr (x, bad) ↦ rw bad d
  | inl fine ↦ elim (insert_cases (counted_input p m n) (pos n) t) [
    | inl stops ↦ rw (add_each_stops strict p m n ms t fine stops) d
    | inr (t', goes) ↦
        let goes' : insert_playlist_item (counted_input p m n) (pos (count p t.items)) t
            ≡ (t', ok t.next_item) =
          ap (λ k. insert_playlist_item (counted_input p m n) (pos k) t) (sym e) ∙ goes in
        let d' : IsDense t' =
          subst (λ r. IsDense r.0) goes' (insert-IsDense (counted_input p m n) t d) in
        let more = insert-count (counted_input p m n) t t' t.next_item d goes' in
        rw (add_each_goes strict p m n t.next_item ms t t' fine goes)
          (add_each-IsDense strict p (suc n) ms t' (ap suc e ∙ sym more) d')
  ]
]

pub add_playlist_items-IsDense :
    (strict : Bool) (p : ℕ) (media_ids : List ℕ) (t : PlaylistTables)
    → IsDense t
    → IsDense (add_playlist_items strict p media_ids t).0
unfolding add_playlist_items get_playlist_by_id
add_playlist_items-IsDense strict p media_ids t d = elim (Option-cases (get p t.playlists)) [
  | inl e ↦ rw e d
  | inr (playlist, e) ↦ rw e (
      add_each-IsDense strict p (length (get_playlist_items p t.items)) media_ids t
        (length-get_playlist_items p t.items) d)
]

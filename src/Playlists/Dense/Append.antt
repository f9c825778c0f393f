-- ===== src/Playlists/Dense/Append.antt =====
-- addPlaylistItem and addPlaylistItems of server/src/services/playlist.service.ts, at the end of a
-- playlist.
use montr.Base.{
  ℕ, suc, ◌+◌, ◌<◌, false, some, ◌==◌, nat_eq, eqb_iff, ◌≡◌, refl, sym, ap, ◌∙◌, ◌⊎◌, arith,
  if◌then◌else◌, inl, inr, Bool-cases, ok, beq_refl, subst,
}
use montr.Base.Map.{get, has, set, get-set, has-set, has-of_get, Distinct-set}
use montr.Playlists.Table.{
  pos, PlaylistItem, PlaylistTables, AddPlaylistItemInput, is_taken, new_item, may_insert,
  insert_playlist_item,
}
use montr.Playlists.Reorder.{is_taken-Holder}
use montr.Playlists.Dense.{count, IsDense}
use montr.Playlists.Dense.Counts.{count-set_fresh}

pos_injective : (a b : ℕ) → pos a ≡ pos b → a ≡ b
pos_injective a b e = ground (arith, e)

-- The end of a dense playlist is free.
pub end_free :
    (p id : ℕ) (t : PlaylistTables)
    → IsDense t
    → is_taken p (pos (count p t.items)) id t.items ≡ false
end_free p id t d = elim (Bool-cases (is_taken p (pos (count p t.items)) id t.items)) [
  | inl e ↦
      let h = is_taken-Holder p (pos (count p t.items)) id t.items d.distinct e in
      let (j, at, below) = d.positions h.holder h.row h.found in
      let same : j ≡ count p t.items = pos_injective j (count p t.items) (sym at ∙ h.placed) in
      absurd (omega (arith, below, same, ap (λ q. count q t.items) h.inside))
  | inr e ↦ e
]

abbrev pub with_item : PlaylistItem → PlaylistTables → PlaylistTables
with_item row t = record t { items = set t.next_item row t.items; next_item = t.next_item + 1 }

fresh_id : (t : PlaylistTables) → IsDense t → has t.next_item t.items ≡ false
fresh_id t d = elim (Bool-cases (has t.next_item t.items)) [
  | inl e ↦ absurd (omega (arith, d.given_out t.next_item e))
  | inr e ↦ e
]

module _ (t : PlaylistTables) (d : IsDense t) (row : PlaylistItem) where
  get_new :
      (k : ℕ) (found : PlaylistItem)
      → get k (with_item row t).items ≡ some found
      → ((t.next_item ≡ k) × (row ≡ found)) ⊎ ((k < t.next_item) × (get k t.items ≡ some found))
  get_new k found h = elim (Bool-cases (t.next_item == k)) [
    | inl e ↦ inl (
      ground (arith, e, eqb_iff t.next_item k),
      ground (arith, e, h, get-set t.next_item k row t.items),
    )
    | inr e ↦
        let old : get k t.items ≡ some found =
          ground (arith, e, h, get-set t.next_item k row t.items) in
        inr (d.given_out k (has-of_get k found t.items old), old)
  ]

  count_new :
      (q : ℕ)
      → count q (with_item row t).items
        ≡ (if row.playlist_id == q then suc (count q t.items) else count q t.items)
  count_new q = count-set_fresh q t.next_item row t.items (fresh_id t d)

  not_last :
      (last : row.order_index ≡ pos (count row.playlist_id t.items)) (n : ℕ) (other : PlaylistItem)
      → get n t.items ≡ some other
      → row.playlist_id ≡ other.playlist_id
      → row.order_index ≡ other.order_index
      → ⊥
  not_last last n other old same place =
      let (j, at, below) = d.positions n other old in
      let equal : j ≡ count row.playlist_id t.items =
        pos_injective j (count row.playlist_id t.items) (sym at ∙ sym place ∙ last) in
      omega (arith, below, equal, ap (λ q. count q t.items) same)

  -- A new last item keeps the positions dense.
  pub with_item-IsDense :
      row.order_index ≡ pos (count row.playlist_id t.items) → IsDense (with_item row t)
  with_item-IsDense last = record {
    distinct = Distinct-set t.next_item row t.items d.distinct;
    given_out = λ k h.
        ground (arith, h, has-set t.next_item k row t.items, eqb_iff t.next_item k, d.given_out k);
    positions = λ k found h. elim (get_new k found h) [
      | inl (here, new) ↦ (
        count found.playlist_id t.items,
        subst (λ r. r.order_index ≡ pos (count r.playlist_id t.items)) new last,
        ground (arith, count_new found.playlist_id, new, eqb_iff row.playlist_id found.playlist_id),
      )
      | inr (below, old) ↦
          let (j, at, lt) = d.positions k found old in
          (j, at, ground (arith, lt, count_new found.playlist_id))
    ];
    unique = λ k n found other h g same place. elim (get_new k found h) [
      | inl (here, new) ↦ elim (get_new n other g) [
        | inl (there, new') ↦ sym here ∙ there
        | inr (below, old) ↦ absurd (
            not_last last n other old (ap (λ r. r.playlist_id) new ∙ same)
              (ap (λ r. r.order_index) new ∙ place))
      ]
      | inr (below, old) ↦ elim (get_new n other g) [
        | inl (there, new') ↦ absurd (
            not_last last k found old (ap (λ r. r.playlist_id) new' ∙ sym same)
              (ap (λ r. r.order_index) new' ∙ sym place))
        | inr (below', old') ↦ d.unique k n found other old old' same place
      ]
    ];
  }

-- A row is inserted, or the call changes nothing.
pub insert-IsDense :
    (input : AddPlaylistItemInput) (t : PlaylistTables)
    → IsDense t
    → IsDense (insert_playlist_item input (pos (count input.playlist_id t.items)) t).0
unfolding insert_playlist_item
insert-IsDense input t d =
    elim (Bool-cases (may_insert input (pos (count input.playlist_id t.items)) t)) [
      | inl e ↦
          rw (insert_playlist_item, e)
            (with_item-IsDense t d (new_item input (pos (count input.playlist_id t.items))) refl)
      | inr e ↦ rw (insert_playlist_item, e) d
    ]

-- A row that is inserted is one more item of its playlist.
pub insert-count :
    (input : AddPlaylistItemInput) (t t' : PlaylistTables) (id : ℕ)
    → IsDense t
    → insert_playlist_item input (pos (count input.playlist_id t.items)) t ≡ (t', ok id)
    → count input.playlist_id t'.items ≡ suc (count input.playlist_id t.items)
unfolding insert_playlist_item
insert-count input t t' id d h =
    let row = new_item input (pos (count input.playlist_id t.items)) in
    elim (Bool-cases (may_insert input (pos (count input.playlist_id t.items)) t)) [
      | inl e ↦
          ground (arith, e, h, count_new t d row input.playlist_id, beq_refl input.playlist_id)
      | inr e ↦ ground (arith, e, h)
    ]

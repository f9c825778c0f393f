-- ===== src/Playlists/Dense/Cascade.antt =====
-- The rows that ON DELETE CASCADE takes from the playlist_items table of
-- server/src/database/migrations/001_initial_schema.ts.
use montr.Base.{
  ℕ, Bool, true, false, some, [], ◌∷◌, ◌==◌, nat_eq, eqb_iff, ◌≡◌, ◌≢◌, refl, ap, arith, inl, inr,
  Bool-cases, Option-cases,
}
use montr.Base.Map.{get, has, Distinct, has-of_get}
use montr.Playlists.Table.{
  PlaylistItem, Items, PlaylistTables, items_of, delete_rows, delete_playlist_row,
}
use montr.Playlists.Service.{delete_playlist, get_playlist_by_id}
use montr.Playlists.Dense.{count, IsDense}

has-delete_rows :
    (p : PlaylistItem → Bool) (k : ℕ) (items : Items)
    → has k items ≡ false
    → has k (delete_rows p items) ≡ false
unfolding delete_rows has
has-delete_rows p k [] h = refl
has-delete_rows p k ((j, row) ∷ items) h = ground (arith, h, has-delete_rows p k items)

pub Distinct-delete_rows :
    (p : PlaylistItem → Bool) (items : Items) → Distinct items → Distinct (delete_rows p items)
unfolding delete_rows
Distinct-delete_rows p [] d = tt
Distinct-delete_rows p ((j, row) ∷ items) d =
    ground (arith, d, has-delete_rows p j items, Distinct-delete_rows p items)

-- A row that stays was there, and was not to go.
pub delete_rows-kept :
    (p : PlaylistItem → Bool) (k : ℕ) (row : PlaylistItem) (items : Items)
    → get k (delete_rows p items) ≡ some row
    → Distinct items
    → (get k items ≡ some row) × (p row ≡ false)
unfolding delete_rows get
delete_rows-kept p k row [] h d = absurd cc
delete_rows-kept p k row ((j, r) ∷ items) h d = elim (Bool-cases (p r)) [
  | inl goes ↦
      let (found, stays) = delete_rows-kept p k row items (ground (arith, goes, h)) d.1 in
      (
        ground (
          arith,
          found,
          d,
          eqb_iff j k,
          has-of_get k row items,
          ap (λ i. has i items) {x = j} {y = k},
        ),
        stays,
      )
  | inr stays ↦ elim (Bool-cases (j == k)) [
    | inl same ↦ (ground (arith, stays, same, h), ground (arith, stays, same, h))
    | inr other ↦
        let (found, stays') =
          delete_rows-kept p k row items (ground (arith, stays, other, h)) d.1 in
        (ground (arith, other, found), stays')
  ]
]

-- A row that is not to go stays.
pub delete_rows-keeps :
    (p : PlaylistItem → Bool) (k : ℕ) (row : PlaylistItem) (items : Items)
    → get k items ≡ some row
    → p row ≡ false
    → get k (delete_rows p items) ≡ some row
unfolding delete_rows get
delete_rows-keeps p k row [] h n = absurd cc
delete_rows-keeps p k row ((j, r) ∷ items) h n = elim (Bool-cases (j == k)) [
  | inl same ↦ ground (arith, same, h, n)
  | inr other ↦ ground (arith, other, h, delete_rows-keeps p k row items)
]

count-delete_rows :
    (id q : ℕ) (items : Items)
    → q ≢ id
    → count q (delete_rows (λ row. row.playlist_id == id) items) ≡ count q items
unfolding delete_rows items_of
count-delete_rows id q [] n = refl
count-delete_rows id q ((j, r) ∷ items) n =
    ground
      (arith, n, eqb_iff r.playlist_id id, eqb_iff r.playlist_id q, count-delete_rows id q items)

pub delete_playlist-IsDense :
    (id : ℕ) (t : PlaylistTables) → IsDense t → IsDense (delete_playlist id t).0
unfolding delete_playlist get_playlist_by_id delete_playlist_row
delete_playlist-IsDense id t d = elim (Option-cases (get id t.playlists)) [
  | inl e ↦ rw e d
  | inr (playlist, e) ↦ rw e (record {
    distinct = Distinct-delete_rows goes t.items d.distinct;
    given_out = λ k h. d.given_out k (still k h);
    positions = λ k row h.
        let (found, stays) = delete_rows-kept goes k row t.items h d.distinct in
        let (j, at, below) = d.positions k row found in
        let other : row.playlist_id ≢ id =
          λ i. ground (arith, stays, i, eqb_iff row.playlist_id id) in
        (j, at, ground (arith, below, count-delete_rows id row.playlist_id t.items other));
    unique = λ k l row other h g same place.
        d.unique k l row other (delete_rows-kept goes k row t.items h d.distinct).0
          (delete_rows-kept goes l other t.items g d.distinct).0 same place;
  })
]
  where
    goes : PlaylistItem → Bool
    goes row = row.playlist_id == id

    still : (k : ℕ) → has k (delete_rows goes t.items) ≡ true → has k t.items ≡ true
    still k h = elim (Bool-cases (has k t.items)) [
      | inl e ↦ e
      | inr e ↦ absurd (ground (arith, h, has-delete_rows goes k t.items e))
    ]

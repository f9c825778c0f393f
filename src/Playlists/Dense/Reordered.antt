-- ===== src/Playlists/Dense/Reordered.antt =====
-- A reordering of a playlist of server/src/services/playlist.service.ts makes its positions dense.
use montr.Base.{
  ℕ, suc, ◌+◌, ◌<◌, ◌≤◌, true, none, some, List, [], ◌∷◌, ◌==◌, nat_eq, eqb_iff, ◌≡◌, ◌≢◌, refl,
  sym, ap, ◌∙◌, arith, length, inl, inr, Bool-cases, Option-cases, subst, ◌⊎◌,
}
use montr.Base.Map.{get, has, Distinct, has-of_get, has-of_get-none}
use montr.Playlists.Table.{
  ℤ, pos, negsuc, PlaylistItem, Items, PlaylistTables, set_order, set_orders, reorder_rows,
}
use montr.Playlists.Reorder.{index_from, place, index_from-some, all_belong, belongs, belongs_row}
use montr.Playlists.Reorder.Places.{IsOrderOf, IsNatural, Placed, playlist-place, placed_index}
use montr.Playlists.Dense.{count, IsDense}
use montr.Playlists.Dense.Counts.{count-moved}

count-set_order :
    (q id : ℕ) (ix : ℤ) (items moved : Items)
    → set_order id ix items ≡ some moved
    → count q moved ≡ count q items
unfolding set_order
count-set_order q id ix items moved h = elim (Option-cases (get id items)) [
  | inl e ↦ ground (arith, e, h)
  | inr (row, e) ↦ ground (arith, e, h, count-moved q id ix items)
]

count-set_orders :
    (q : ℕ) (c : ℕ → ℤ) (n : ℕ) (ids : List ℕ) (items moved : Items)
    → set_orders c n ids items ≡ some moved
    → count q moved ≡ count q items
unfolding set_orders
count-set_orders q c n [] items moved h = ground (arith, h)
count-set_orders q c n (id ∷ ids) items moved h = elim (Option-cases (set_order id (c n) items)) [
  | inl e ↦ ground (arith, e, h)
  | inr (next, e) ↦
      count-set_orders q c (suc n) ids next moved (ground (arith, e, h))
      ∙ count-set_order q id (c n) items next e
]

-- No outcome of a reordering changes how many items a playlist has.
count-reorder_rows :
    (q : ℕ) (ids : List ℕ) (t : PlaylistTables)
    → count q (reorder_rows ids t).0.items ≡ count q t.items
unfolding reorder_rows
count-reorder_rows q ids t = elim (Option-cases (set_orders negsuc 0 ids t.items)) [
  | inl e ↦ rw (reorder_rows, e) refl
  | inr (first, e) ↦ elim (Option-cases (set_orders pos 0 ids first)) [
    | inl f ↦ rw (reorder_rows, e) (rw f refl)
    | inr (second, f) ↦
        rw (reorder_rows, e)
          (rw f (
            count-set_orders q pos 0 ids first second f
            ∙ count-set_orders q negsuc 0 ids t.items first e))
  ]
]

index_from-lt :
    (n k j : ℕ) (ids : List ℕ) → index_from n k ids ≡ some j → (n ≤ j) × (j < n + length ids)
index_from-lt n k j [] h = absurd cc
index_from-lt n k j (id ∷ ids) h = ground (arith, h, index_from-lt (suc n) k j ids)

index_from-injective :
    (n k l j : ℕ) (ids : List ℕ) → index_from n k ids ≡ some j → index_from n l ids ≡ some j → k ≡ l
index_from-injective n k l j [] h g = absurd cc
index_from-injective n k l j (id ∷ ids) h g = ground (
  arith,
  h,
  g,
  eqb_iff id k,
  eqb_iff id l,
  index_from-lt (suc n) k j ids,
  index_from-lt (suc n) l j ids,
  index_from-injective (suc n) k l j ids,
)

index_from-belongs :
    (p n k j : ℕ) (items : Items) (ids : List ℕ)
    → all_belong p items ids ≡ true
    → index_from n k ids ≡ some j
    → belongs p items k ≡ true
index_from-belongs p n k j items [] a h = absurd cc
index_from-belongs p n k j items (id ∷ ids) a h = elim (Bool-cases (id == k)) [
  | inl e ↦ subst (λ i. belongs p items i ≡ true) ((eqb_iff id k).0 e) (ground (arith, a))
  | inr e ↦ index_from-belongs p (suc n) k j items ids (ground (arith, a)) (ground (arith, e, h))
]

-- The tables before: dense but for the gaps of one playlist.
pub record IsDenseBut (p : ℕ) (t : PlaylistTables) : Type 0 where
  pub distinct : Distinct t.items
  pub given_out : (id : ℕ) → has id t.items ≡ true → id < t.next_item
  pub natural : IsNatural p t.items
  pub positions :
      (id : ℕ) (row : PlaylistItem)
      → get id t.items ≡ some row
      → row.playlist_id ≢ p
      → (j : ℕ) × (row.order_index ≡ pos j) × (j < count row.playlist_id t.items)
  pub unique :
      (id k : ℕ) (row other : PlaylistItem)
      → get id t.items ≡ some row
      → get k t.items ≡ some other
      → row.playlist_id ≡ other.playlist_id
      → row.order_index ≡ other.order_index
      → id ≡ k

module _ (p : ℕ) (ids : List ℕ) (t : PlaylistTables) (d : IsDenseBut p t)
    (o : IsOrderOf p ids t.items) (counted : length ids ≡ count p t.items)
    (placed : Placed ids t) where
  counts : (q : ℕ) → count q placed.items ≡ count q t.items
  counts q = ap (λ r. count q r.0.items) (sym placed.commits) ∙ count-reorder_rows q ids t

  -- A row afterwards: one of the playlist has its place in the list, and any other is as before.
  row_after :
      (k : ℕ) (row : PlaylistItem)
      → get k placed.items ≡ some row
      → ((j : ℕ) × (index_from 0 k ids ≡ some j)
          × (row.order_index ≡ pos j)
          × (row.playlist_id ≡ p))
        ⊎ ((row.playlist_id ≢ p) × (get k t.items ≡ some row))
  row_after k row h = elim (Option-cases (index_from 0 k ids)) [
    | inl e ↦
        let old : get k t.items ≡ some row =
          sym (ap (λ i. place pos i (get k t.items)) e) ∙ sym (placed.rows k) ∙ h in
        inr (outside k row old e, old)
    | inr (j, e) ↦
        let here : place pos (some j) (get k t.items) ≡ some row =
          sym (ap (λ i. place pos i (get k t.items)) e) ∙ sym (placed.rows k) ∙ h in
        let (old, found, kept) = playlist-place pos (some j) (get k t.items) row here in
        let (own, found', inside) =
          belongs_row p k t.items (index_from-belongs p 0 k j t.items ids o.own e) in
        inl (
          j,
          e,
          placed_index pos j old row (ap (place pos (some j)) (sym found) ∙ here),
          kept ∙ ground (arith, found, found', inside),
        )
  ]
    where
      outside :
          (k : ℕ) (row : PlaylistItem)
          → get k t.items ≡ some row
          → index_from 0 k ids ≡ none
          → row.playlist_id ≢ p
      outside k row old e inside =
          let (j, at) = index_from-some 0 k ids (o.all k row old inside) in ground (arith, at, e)

  pub Placed-IsDense : IsDense (record t { items = placed.items })
  Placed-IsDense = record {
    distinct = placed.distinct;
    given_out = λ k h. elim (Option-cases (get k placed.items)) [
      | inl e ↦ absurd (ground (arith, h, has-of_get-none k placed.items e))
      | inr (row, e) ↦
          let (old, found, kept) =
            playlist-place pos (index_from 0 k ids) (get k t.items) row (sym (placed.rows k) ∙ e) in
          d.given_out k (has-of_get k old t.items found)
    ];
    positions = λ k row h. elim (row_after k row h) [
      | inl (j, at, place, inside) ↦ (
        j,
        place,
        omega (
          arith,
          index_from-lt 0 k j ids at,
          counted,
          counts p,
          ap (λ q. count q placed.items) inside,
        ),
      )
      | inr (other, old) ↦
          let (j, place, below) = d.positions k row old other in
          (j, place, omega (arith, below, counts row.playlist_id))
    ];
    unique = λ k l row other h g same place. elim (row_after k row h) [
      | inl (j, at, here, inside) ↦ elim (row_after l other g) [
        | inl (j', at', here', inside') ↦
            let equal : j ≡ j' = ground (arith, sym here ∙ place ∙ here') in
            index_from-injective 0 k l j' ids (at ∙ ap some equal) at'
        | inr (outside, old) ↦ absurd (outside (sym same ∙ inside))
      ]
      | inr (outside, old) ↦ elim (row_after l other g) [
        | inl (j, at, here, inside) ↦ absurd (outside (same ∙ inside))
        | inr (outside', old') ↦ d.unique k l row other old old' same place
      ]
    ];
  }

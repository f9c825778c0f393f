-- ===== src/Playlists/Reorder/Loops.antt =====
-- The two loops of `reorderPlaylistItems` of server/src/database/adapters/sql-base.adapter.ts: none of
-- their updates meets a taken position.
use montr.Base.{
  ℕ, suc, ◌<◌, true, false, none, some, List, [], ◌∷◌, ◌==◌, nat_eq, eqb_iff, ◌≡◌, ◌≢◌, refl, sym,
  ap, ◌∙◌, arith, inl, inr, Bool-cases, includes,
}
use montr.Base.Map.{get, modify, Distinct, get-modify_self, get-modify_other, Distinct-modify}
use montr.Playlists.Table.{ℤ, PlaylistItem, Items, is_taken, set_order, set_orders}
use montr.Playlists.Reorder.{
  is_taken-Holder, moved_to, index_from, place, NoRepeats, all_belong, belongs_row,
  all_belong-modify, index_from-none,
}

-- The positions `c j` that the rows of the playlist have are those with `j < n`.
abbrev pub IsBelow : (ℕ → ℤ) → ℕ → ℕ → Items → Type 0
IsBelow c p n items =
    (id : ℕ) (row : PlaylistItem) (j : ℕ)
    → get id items ≡ some row
    → row.playlist_id ≡ p
    → row.order_index ≡ c j
    → j < n

-- What a loop leaves.
pub record Reordered (c : ℕ → ℤ) (n : ℕ) (ids : List ℕ) (items : Items) : Type 0 where
  pub moved : Items
  pub runs : set_orders c n ids items ≡ some moved
  pub distinct : Distinct moved
  pub rows : (k : ℕ) → get k moved ≡ place c (index_from n k ids) (get k items)

module _ (c : ℕ → ℤ) (c_injective : (a b : ℕ) → c a ≡ c b → a ≡ b) (p : ℕ) where
  free :
      (n id : ℕ) (items : Items)
      → Distinct items
      → IsBelow c p n items
      → is_taken p (c n) id items ≡ false
  free n id items d b = elim (Bool-cases (is_taken p (c n) id items)) [
    | inl e ↦
        let h = is_taken-Holder p (c n) id items d e in
        absurd (omega (arith, b h.holder h.row n h.found h.inside h.placed))
    | inr e ↦ e
  ]

  set_order-moves :
      (n id : ℕ) (row : PlaylistItem) (items : Items)
      → Distinct items
      → IsBelow c p n items
      → get id items ≡ some row
      → row.playlist_id ≡ p
      → set_order id (c n) items ≡ some (modify id (moved_to (c n)) items)
  unfolding set_order
  set_order-moves n id row items d b h i =
      let unused : is_taken row.playlist_id (c n) id items ≡ false =
        ap (λ q. is_taken q (c n) id items) i ∙ free n id items d b in
      rw (set_order, h) (rw unused refl)

  IsBelow-modify :
      (n id : ℕ) (row : PlaylistItem) (items : Items)
      → get id items ≡ some row
      → IsBelow c p n items
      → IsBelow c p (suc n) (modify id (moved_to (c n)) items)
  IsBelow-modify n id row items h b k row' j h' i' e' = elim (Bool-cases (id == k)) [
    | inl same ↦
        let now : some row' ≡ some (moved_to (c n) row) =
          sym h'
          ∙ ap (λ m. get m (modify id (moved_to (c n)) items)) (sym ((eqb_iff id k).0 same))
          ∙ get-modify_self id (moved_to (c n)) row items h in
        let position : c j ≡ c n = sym e' ∙ ground (arith, now) in
        omega (arith, c_injective j n position)
    | inr other ↦
        let differs : id ≢ k = λ e. ground (arith, other, eqb_iff id k, e) in
        let before : get k items ≡ some row' =
          sym (get-modify_other id k (moved_to (c n)) items differs) ∙ h' in
        omega (arith, b k row' j before i' e')
  ]

  -- The row of an id after the update of `id` and the rest of the loop.
  place_next :
      (n id k : ℕ) (row : PlaylistItem) (ids : List ℕ) (items : Items)
      → includes ids id ≡ false
      → get id items ≡ some row
      → place c (index_from (suc n) k ids) (get k (modify id (moved_to (c n)) items))
        ≡ place c (index_from n k (id ∷ ids)) (get k items)
  place_next n id k row ids items fresh h = elim (Bool-cases (id == k)) [
    | inl same ↦
        let here : id ≡ k = (eqb_iff id k).0 same in
        let after : get k (modify id (moved_to (c n)) items) ≡ some (moved_to (c n) row) =
          ap (λ m. get m (modify id (moved_to (c n)) items)) (sym here)
          ∙ get-modify_self id (moved_to (c n)) row items h in
        let before : get k items ≡ some row = ap (λ m. get m items) (sym here) ∙ h in
        let last : index_from (suc n) k ids ≡ none =
          index_from-none (suc n) k ids (ap (includes ids) (sym here) ∙ fresh) in
        ground (arith, same, after, before, last)
    | inr other ↦
        let differs : id ≢ k = λ e. ground (arith, other, eqb_iff id k, e) in
        ground (arith, other, get-modify_other id k (moved_to (c n)) items differs)
  ]

  pub set_orders-Reordered :
      (ids : List ℕ) (n : ℕ) (items : Items)
      → Distinct items
      → NoRepeats ids
      → all_belong p items ids ≡ true
      → IsBelow c p n items
      → Reordered c n ids items
  unfolding set_orders
  set_orders-Reordered [] n items d r a b = record {
    moved = items;
    runs = refl;
    distinct = d;
    rows = λ k. refl;
  }
  set_orders-Reordered (id ∷ ids) n items d r a b =
      let (row, found, inside) = belongs_row p id items (ground (arith, a)) in
      let next = modify id (moved_to (c n)) items in
      let step = set_order-moves n id row items d b found inside in
      let rest =
        set_orders-Reordered ids (suc n) next (Distinct-modify id (moved_to (c n)) items d) r.1
          (all_belong-modify p id (c n) items ids (ground (arith, a)))
          (IsBelow-modify n id row items found b) in
      record {
        moved = rest.moved;
        runs = rw (set_orders, step) rest.runs;
        distinct = rest.distinct;
        rows = λ k. rest.rows k ∙ place_next n id k row ids items r.0 found;
      }

-- ===== src/Playlists/Reorder.antt =====
-- `reorderPlaylistItems` of server/src/services/playlist.service.ts and of
-- server/src/database/adapters/sql-base.adapter.ts: the order that is asked for is the order that is stored.
pub mod Loops
pub mod Places
use montr.Base.{
  ℕ, zero, suc, ◌+◌, ◌<◌, Bool, true, false, not, ◌&&◌, Option, none, some, List, [], ◌∷◌, ◌==◌,
  nat_eq, eqb, eqb_iff, ◌≡◌, ◌≢◌, refl, sym, ap, ◌∙◌, arith, ◌⊎◌, inl, inr, Bool-cases,
  Option-cases, includes, if◌then◌else◌, beq_refl,
}
use montr.Base.Map.{
  Map, get, has, modify, Distinct, get-modify_self, get-modify_other, Distinct-modify, has-of_get,
}
use montr.Playlists.Table.{
  ℤ, pos, negsuc, eq_int, PlaylistItem, Items, is_taken, set_order, set_orders,
}

eq_int_sound : (a b : ℤ) → eq_int a b ≡ true → a ≡ b
eq_int_sound (pos a) (pos b) h = ap pos ((eqb_iff a b).0 h)
eq_int_sound (negsuc a) (negsuc b) h = ap negsuc ((eqb_iff a b).0 h)
eq_int_sound (pos a) (negsuc b) h = absurd cc
eq_int_sound (negsuc a) (pos b) h = absurd cc

-- The row that takes a position.
pub record Holder (p : ℕ) (ix : ℤ) (id : ℕ) (items : Items) : Type 0 where
  pub holder : ℕ
  pub row : PlaylistItem
  pub differs : holder ≢ id
  pub found : get holder items ≡ some row
  pub inside : row.playlist_id ≡ p
  pub placed : row.order_index ≡ ix

-- A position that no row has is free.
pub is_taken-Holder :
    (p : ℕ) (ix : ℤ) (id : ℕ) (items : Items)
    → Distinct items
    → is_taken p ix id items ≡ true
    → Holder p ix id items
unfolding is_taken get
is_taken-Holder p ix id [] d h = absurd cc
is_taken-Holder p ix id ((k, row) ∷ items) d h =
    elim (Bool-cases (not (k == id) && (row.playlist_id == p && eq_int row.order_index ix))) [
      | inl e ↦ record {
        holder = k;
        row = row;
        differs = ground (arith, e, eqb_iff k id);
        found = rw (beq_refl k) refl;
        inside = ground (arith, e, eqb_iff row.playlist_id p);
        placed = eq_int_sound row.order_index ix (ground (arith, e));
      }
      | inr e ↦
          let r = is_taken-Holder p ix id items d.1 (ground (arith, e, h)) in
          record {
            holder = r.holder;
            row = r.row;
            differs = r.differs;
            found = ground (arith, d, r.found, eqb_iff k r.holder, has-of_get r.holder r.row items);
            inside = r.inside;
            placed = r.placed;
          }
    ]

-- The converse.
pub taken_by_holder :
    (p : ℕ) (ix : ℤ) (id k : ℕ) (row : PlaylistItem) (items : Items)
    → k ≢ id
    → get k items ≡ some row
    → row.playlist_id ≡ p
    → eq_int row.order_index ix ≡ true
    → is_taken p ix id items ≡ true
unfolding is_taken get
taken_by_holder p ix id k row [] n h i e = absurd cc
taken_by_holder p ix id k row ((j, r) ∷ items) n h i e = ground (
  arith,
  eqb_iff j id,
  eqb_iff j k,
  eqb_iff r.playlist_id p,
  eqb_iff row.playlist_id p,
  taken_by_holder p ix id k row items,
)

abbrev pub moved_to : ℤ → PlaylistItem → PlaylistItem
moved_to ix row = record row { order_index = ix }

-- The place of an id in a list whose first place is `i`.
abbrev pub index_from : ℕ → ℕ → List ℕ → Option ℕ
index_from i k [] = none
index_from i k (id ∷ ids) = if id == k then some i else index_from (suc i) k ids

-- A row at the place that the list gives it; one that is not in the list is left.
abbrev pub place : (ℕ → ℤ) → Option ℕ → Option PlaylistItem → Option PlaylistItem
place position none row = row
place position (some i) none = none
place position (some i) (some row) = some (moved_to (position i) row)

abbrev pub NoRepeats : List ℕ → Type 0
NoRepeats [] = Unit
NoRepeats (id ∷ ids) = (includes ids id ≡ false) × NoRepeats ids

abbrev pub belongs : ℕ → Items → ℕ → Bool
belongs p items id = elim (get id items) [ none ↦ false | some row ↦ row.playlist_id == p ]

abbrev pub all_belong : ℕ → Items → List ℕ → Bool
all_belong p items [] = true
all_belong p items (id ∷ ids) = belongs p items id && all_belong p items ids

pub belongs_row :
    (p id : ℕ) (items : Items)
    → belongs p items id ≡ true
    → (row : PlaylistItem) × (get id items ≡ some row) × (row.playlist_id ≡ p)
belongs_row p id items h = elim (Option-cases (get id items)) [
  | inl e ↦ absurd (ground (arith, e, h))
  | inr (row, e) ↦ (row, e, ground (arith, e, h, eqb_iff row.playlist_id p))
]

belongs-modify :
    (p id k : ℕ) (ix : ℤ) (items : Items)
    → belongs p items k ≡ true
    → belongs p (modify id (moved_to ix) items) k ≡ true
belongs-modify p id k ix items h =
    let (row, found, inside) = belongs_row p k items h in
    elim (Bool-cases (id == k)) [
      | inl same ↦ ground (
        arith,
        h,
        found,
        same,
        eqb_iff id k,
        ap (λ j. get j (modify id (moved_to ix) items)) {x = id} {y = k},
        ap (λ j. get j items) {x = id} {y = k},
        get-modify_self id (moved_to ix) row items,
      )
      | inr other ↦
          ground (arith, h, other, eqb_iff id k, get-modify_other id k (moved_to ix) items)
    ]

pub all_belong-modify :
    (p id : ℕ) (ix : ℤ) (items : Items) (ids : List ℕ)
    → all_belong p items ids ≡ true
    → all_belong p (modify id (moved_to ix) items) ids ≡ true
all_belong-modify p id ix items [] h = refl
all_belong-modify p id ix items (k ∷ ids) h =
    ground (arith, h, belongs-modify p id k ix items, all_belong-modify p id ix items ids)

pub index_from-none : (i k : ℕ) (ids : List ℕ) → includes ids k ≡ false → index_from i k ids ≡ none
index_from-none i k [] h = refl
index_from-none i k (id ∷ ids) h = ground (arith, h, index_from-none (suc i) k ids)

pub index_from-some :
    (i k : ℕ) (ids : List ℕ) → includes ids k ≡ true → (j : ℕ) × (index_from i k ids ≡ some j)
index_from-some i k [] h = absurd cc
index_from-some i k (id ∷ ids) h = elim (Bool-cases (id == k)) [
  | inl same ↦ (i, ground (arith, same))
  | inr other ↦
      let (j, e) = index_from-some (suc i) k ids (ground (arith, h, other)) in
      (j, ground (arith, other, e))
]

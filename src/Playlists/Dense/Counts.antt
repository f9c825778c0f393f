-- ===== src/Playlists/Dense/Counts.antt =====
-- The number of the items of a playlist of server/src/services/playlist.service.ts.
use montr.Base.{
  ℕ, suc, true, false, ◌||◌, some, List, [], ◌∷◌, ◌==◌, nat_eq, eqb_iff, ◌≡◌, ◌≢◌, refl, sym, ap,
  ◌∙◌, arith, map, length, includes, if◌then◌else◌, inl, inr, Option-cases, beq_refl,
}
use montr.Base.Map.{
  get, has, set, delete, modify, Distinct, has-of_get, delete_absent, get-of_has-false,
}
use montr.Playlists.Table.{
  ℤ, PlaylistItem, Items, items_of, insert_item, sort_items, get_playlist_items,
}
use montr.Playlists.Reorder.{moved_to, belongs, all_belong, NoRepeats}
use montr.Playlists.Reorder.Places.{IsOrderOf}
use montr.Playlists.Dense.{count}

pub count-set_fresh :
    (q id : ℕ) (row : PlaylistItem) (items : Items)
    → has id items ≡ false
    → count q (set id row items)
      ≡ (if row.playlist_id == q then suc (count q items) else count q items)
unfolding items_of set has
count-set_fresh q id row [] h = ground arith
count-set_fresh q id row ((k, r) ∷ items) h = ground (arith, h, count-set_fresh q id row items)

pub count-moved :
    (q id : ℕ) (ix : ℤ) (items : Items) → count q (modify id (moved_to ix) items) ≡ count q items
unfolding items_of modify
count-moved q id ix [] = refl
count-moved q id ix ((k, r) ∷ items) = ground (arith, count-moved q id ix items)

-- Without a row of another playlist.
pub count-delete_other :
    (q id : ℕ) (row : PlaylistItem) (items : Items)
    → Distinct items
    → get id items ≡ some row
    → row.playlist_id ≢ q
    → count q (delete id items) ≡ count q items
unfolding items_of delete get
count-delete_other q id row [] d h n = cc
count-delete_other q id row ((k, r) ∷ items) d h n = ground (
  arith,
  eqb_iff k id,
  eqb_iff r.playlist_id q,
  eqb_iff row.playlist_id q,
  count-delete_other q id row items,
  delete_absent id items,
  ap (λ i. has i items) {x = k} {y = id},
)

length-insert_item :
    (i : ℕ × PlaylistItem) (is : Items) → length (insert_item i is) ≡ suc (length is)
unfolding insert_item
length-insert_item i [] = refl
length-insert_item i (j ∷ js) = ground (arith, length-insert_item i js)

pub length-sort_items : (is : Items) → length (sort_items is) ≡ length is
unfolding sort_items
length-sort_items [] = refl
length-sort_items (i ∷ is) = length-insert_item i (sort_items is) ∙ ap suc (length-sort_items is)

pub length-get_playlist_items :
    (p : ℕ) (items : Items) → length (get_playlist_items p items) ≡ count p items
unfolding get_playlist_items
length-get_playlist_items p items = length-sort_items (items_of p items)

abbrev pub ids_of : Items → List ℕ
ids_of is = map (λ i. i.0) is

includes-insert_item :
    (k : ℕ) (i : ℕ × PlaylistItem) (is : Items)
    → includes (ids_of (insert_item i is)) k ≡ (i.0 == k || includes (ids_of is) k)
unfolding insert_item
includes-insert_item k i [] = refl
includes-insert_item k i (j ∷ js) = ground (arith, includes-insert_item k i js)

includes-sort_items :
    (k : ℕ) (is : Items) → includes (ids_of (sort_items is)) k ≡ includes (ids_of is) k
unfolding sort_items
includes-sort_items k [] = refl
includes-sort_items k (i ∷ is) =
    includes-insert_item k i (sort_items is) ∙ ap (λ b. i.0 == k || b) (includes-sort_items k is)

NoRepeats-insert_item :
    (i : ℕ × PlaylistItem) (is : Items)
    → includes (ids_of is) i.0 ≡ false
    → NoRepeats (ids_of is)
    → NoRepeats (ids_of (insert_item i is))
unfolding insert_item
NoRepeats-insert_item i [] h r = (refl, tt)
NoRepeats-insert_item i (j ∷ js) h r = ground (
  arith,
  h,
  r,
  eqb_iff i.0 j.0,
  eqb_iff j.0 i.0,
  includes-insert_item j.0 i js,
  NoRepeats-insert_item i js,
)

NoRepeats-sort_items : (is : Items) → NoRepeats (ids_of is) → NoRepeats (ids_of (sort_items is))
unfolding sort_items
NoRepeats-sort_items [] r = tt
NoRepeats-sort_items (i ∷ is) r =
    NoRepeats-insert_item i (sort_items is) (includes-sort_items i.0 is ∙ r.0)
      (NoRepeats-sort_items is r.1)

includes-items_of :
    (p k : ℕ) (items : Items)
    → Distinct items
    → includes (ids_of (items_of p items)) k ≡ belongs p items k
unfolding items_of get
includes-items_of p k [] d = refl
includes-items_of p k ((j, r) ∷ items) d = elim (Option-cases (get k items)) [
  | inl e ↦ ground (arith, d, e, eqb_iff j k, includes-items_of p k items)
  | inr (row, e) ↦ ground (
    arith,
    d,
    e,
    eqb_iff j k,
    includes-items_of p k items,
    has-of_get k row items,
    ap (λ i. has i items) {x = j} {y = k},
  )
]

pub includes-get_playlist_items :
    (p k : ℕ) (items : Items)
    → Distinct items
    → includes (ids_of (get_playlist_items p items)) k ≡ belongs p items k
unfolding get_playlist_items
includes-get_playlist_items p k items d =
    includes-sort_items k (items_of p items) ∙ includes-items_of p k items d

NoRepeats-items_of :
    (p : ℕ) (items : Items) → Distinct items → NoRepeats (ids_of (items_of p items))
unfolding items_of get
NoRepeats-items_of p [] d = tt
NoRepeats-items_of p ((j, r) ∷ items) d =
    ground
      (arith, d, NoRepeats-items_of p items, includes-items_of p j items, get-of_has-false j items)

pub NoRepeats-get_playlist_items :
    (p : ℕ) (items : Items) → Distinct items → NoRepeats (ids_of (get_playlist_items p items))
unfolding get_playlist_items
NoRepeats-get_playlist_items p items d =
    NoRepeats-sort_items (items_of p items) (NoRepeats-items_of p items d)

all_belong-ids :
    (p : ℕ) (items : Items) (ids : List ℕ)
    → ((k : ℕ) → includes ids k ≡ true → belongs p items k ≡ true)
    → all_belong p items ids ≡ true
all_belong-ids p items [] h = refl
all_belong-ids p items (id ∷ ids) h =
    ground (arith, h id, beq_refl id, all_belong-ids p items ids (λ k e. h k (ground (arith, e))))

pub length-ids_of : (is : Items) → length (ids_of is) ≡ length is
length-ids_of [] = refl
length-ids_of (i ∷ is) = ap suc (length-ids_of is)

-- The items of a playlist in their order are an order of its items.
pub get_playlist_items-IsOrderOf :
    (p : ℕ) (items : Items)
    → Distinct items
    → IsOrderOf p (ids_of (get_playlist_items p items)) items
get_playlist_items-IsOrderOf p items d = record {
  once = NoRepeats-get_playlist_items p items d;
  own =
      all_belong-ids p items (ids_of (get_playlist_items p items))
        (λ k e. sym (includes-get_playlist_items p k items d) ∙ e);
  all = λ id row found inside.
      includes-get_playlist_items p id items d
      ∙ ground (arith, found, inside, eqb_iff row.playlist_id p);
}

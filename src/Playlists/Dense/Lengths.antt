-- ===== src/Playlists/Dense/Lengths.antt =====
-- Any order of the items of a playlist of server/src/services/playlist.service.ts lists as many ids as
-- the playlist has items.
use montr.Base.{
  ℕ, suc, ◌≤◌, true, false, List, [], ◌∷◌, ◌==◌, nat_eq, eqb_iff, ◌≡◌, sym, ap, ◌∙◌, arith, length,
  includes, inl, inr, Bool-cases, beq_refl, not, filter,
}
use montr.Base.Map.{Distinct}
use montr.Playlists.Table.{Items, get_playlist_items}
use montr.Playlists.Reorder.{NoRepeats, belongs, all_belong, belongs_row}
use montr.Playlists.Reorder.Places.{IsOrderOf}
use montr.Playlists.Dense.{count}
use montr.Playlists.Dense.Counts.{
  ids_of, length-ids_of, length-get_playlist_items, includes-get_playlist_items,
  NoRepeats-get_playlist_items,
}

abbrev without : ℕ → List ℕ → List ℕ
without x = filter (λ y. not (y == x))

length-without-le : (x : ℕ) (ys : List ℕ) → length (without x ys) ≤ length ys
length-without-le x [] = omega arith
length-without-le x (y ∷ ys) = ground (arith, length-without-le x ys)

length-without :
    (x : ℕ) (ys : List ℕ) → includes ys x ≡ true → suc (length (without x ys)) ≤ length ys
length-without x [] h = absurd cc
length-without x (y ∷ ys) h = ground (arith, h, length-without x ys, length-without-le x ys)

includes-without :
    (x k : ℕ) (ys : List ℕ)
    → includes ys k ≡ true
    → (x == k) ≡ false
    → includes (without x ys) k ≡ true
includes-without x k [] h n = absurd cc
includes-without x k (y ∷ ys) h n =
    ground (arith, h, n, eqb_iff y x, eqb_iff y k, eqb_iff x k, includes-without x k ys)

-- A list without repeats is no longer than one that includes it.
length-includes :
    (xs ys : List ℕ)
    → NoRepeats xs
    → ((k : ℕ) → includes xs k ≡ true → includes ys k ≡ true)
    → length xs ≤ length ys
length-includes [] ys r h = omega arith
length-includes (x ∷ xs) ys r h =
    let here = length-without x ys (h x (ground (arith, beq_refl x))) in
    let rest = length-includes xs (without x ys) r.1 (λ k e. others k e) in
    omega (arith, here, rest)
  where
    others : (k : ℕ) → includes xs k ≡ true → includes (without x ys) k ≡ true
    others k e = elim (Bool-cases (x == k)) [
      | inl same ↦
          absurd (ground (arith, e, r.0, same, eqb_iff x k, ap (includes xs) {x = x} {y = k}))
      | inr other ↦ includes-without x k ys (h k (ground (arith, e))) other
    ]

includes-belongs :
    (p k : ℕ) (items : Items) (ids : List ℕ)
    → all_belong p items ids ≡ true
    → includes ids k ≡ true
    → belongs p items k ≡ true
includes-belongs p k items [] a h = absurd cc
includes-belongs p k items (id ∷ ids) a h = ground (
  arith,
  a,
  h,
  eqb_iff id k,
  ap (belongs p items) {x = id} {y = k},
  includes-belongs p k items ids,
)

pub length-order :
    (p : ℕ) (ids : List ℕ) (items : Items)
    → Distinct items
    → IsOrderOf p ids items
    → length ids ≡ count p items
length-order p ids items d o =
    let listed = ids_of (get_playlist_items p items) in
    let small =
      length-includes ids listed o.once
        (λ k e. includes-get_playlist_items p k items d ∙ includes-belongs p k items ids o.own e) in
    let large = length-includes listed ids (NoRepeats-get_playlist_items p items d) (λ k e.
      let (row, found, inside) =
        belongs_row p k items (sym (includes-get_playlist_items p k items d) ∙ e) in
      o.all k row found inside) in
    omega (
      arith,
      small,
      large,
      length-ids_of (get_playlist_items p items),
      length-get_playlist_items p items,
    )

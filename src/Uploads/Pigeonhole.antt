-- ===== src/Uploads/Pigeonhole.antt =====
-- A map whose keys are distinct numbers below its length has all of these keys.
use montr.Base.{
  ℕ, zero, suc, ◌<◌, ◌≤◌, true, ◌≡◌, arith, nat_eq, [], ◌∷◌, length, Bool-cases, eqb_iff, ap, inl,
  inr,
}
use montr.Base.Map.{
  Map, has, delete, Distinct, has-delete, Distinct-delete, length-delete, delete_absent,
}

module _ {V : Type 0} where
  -- Every key of the map is below `n`.
  abbrev pub KeysBelow : ℕ → Map ℕ V → Type 0
  KeysBelow n m = (i : ℕ) → has i m ≡ true → i < n

  KeysBelow-delete : (n : ℕ) (m : Map ℕ V) → KeysBelow (suc n) m → KeysBelow n (delete n m)
  KeysBelow-delete n m b i h = ground (arith, has-delete n i m, b i, eqb_iff n i)

  -- A map with distinct keys below `n` has at most `n` entries.
  pub length-le : (n : ℕ) (m : Map ℕ V) → Distinct m → KeysBelow n m → length m ≤ n
  unfolding has
  length-le zero [] d b = omega arith
  length-le zero ((j, v) ∷ m) d b = absurd (ground (arith, b j, eqb_iff j j))
  length-le (suc n) m d b =
      let ih = length-le n (delete n m) (Distinct-delete n m d) (KeysBelow-delete n m b) in
      elim (Bool-cases (has n m)) [
        | inl h ↦ omega (arith, ih, length-delete n m d h)
        | inr h ↦ let e = ap length (delete_absent n m h) in omega (arith, ih, e)
      ]

  -- With `n` entries, it has every key below `n`.
  pub has_all :
      (n : ℕ) (m : Map ℕ V)
      → Distinct m
      → KeysBelow n m
      → length m ≡ n
      → (i : ℕ) → i < n
      → has i m ≡ true
  has_all zero m d b e i l = absurd (omega (arith, l))
  has_all (suc n) m d b e i l = elim (Bool-cases (has n m)) [
    | inl h ↦
        let rest =
          has_all n (delete n m) (Distinct-delete n m d) (KeysBelow-delete n m b)
            (omega (arith, e, length-delete n m d h)) i in
        ground (arith, rest, has-delete n i m, eqb_iff n i, ap (λ j. has j m) {x = n} {y = i})
    | inr h ↦
        let small = length-le n (delete n m) (Distinct-delete n m d) (KeysBelow-delete n m b) in
        let e' = ap length (delete_absent n m h) in absurd (omega (arith, small, e', e))
  ]

  -- A map with distinct keys that has every key below `n` has at least `n` entries.
  pub length-ge :
      (n : ℕ) (m : Map ℕ V) → Distinct m → ((i : ℕ) → i < n → has i m ≡ true) → n ≤ length m
  length-ge zero m d h = omega arith
  length-ge (suc n) m d h =
      let ih =
        length-ge n (delete n m) (Distinct-delete n m d)
          (λ i l. ground (arith, has-delete n i m, eqb_iff n i, h i (omega (arith, l)))) in
      omega (arith, ih, length-delete n m d (h n (omega arith)))

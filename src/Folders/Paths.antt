-- ===== src/Folders/Paths.antt =====
-- Paths that begin with a path, and what follows it.
use montr.Base.{
  ℕ, true, false, List, [], ◌∷◌, ◌++◌, length, eqb_iff, ◌≡◌, refl, arith, ◌⊎◌, inl, inr,
  length-append,
}
use montr.Folders.Table.{starts_with, is_below, slice}

pub is_below-append :
    (old path : List ℕ) (k : ℕ) → is_below old (path ++ k ∷ []) ≡ starts_with old path
unfolding is_below starts_with
is_below-append [] path k = ground (arith, length-append path (k ∷ []))
is_below-append (i ∷ old) [] k = ground arith
is_below-append (i ∷ old) (j ∷ path) k = ground (arith, is_below-append old path k)

pub slice-append :
    (old path : List ℕ) (k : ℕ)
    → starts_with old path ≡ true
    → slice (length old) (path ++ k ∷ []) ≡ slice (length old) path ++ k ∷ []
unfolding slice starts_with
slice-append [] path k h = refl
slice-append (i ∷ old) [] k h = cc
slice-append (i ∷ old) (j ∷ path) k h = slice-append old path k (ground arith)

pub starts_with_self : (old : List ℕ) → starts_with old old ≡ true
unfolding starts_with
starts_with_self [] = refl
starts_with_self (i ∷ old) = ground (arith, starts_with_self old, eqb_iff i i)

pub slice_self : (old : List ℕ) → slice (length old) old ≡ []
unfolding slice
slice_self [] = refl
slice_self (i ∷ old) = slice_self old

-- A path that begins with `old` is `old`, or below it.
pub starts_with-cases :
    (old path : List ℕ) → starts_with old path ≡ true → (path ≡ old) ⊎ (is_below old path ≡ true)
unfolding is_below starts_with
starts_with-cases [] [] h = inl refl
starts_with-cases [] (j ∷ path) h = inr (ground arith)
starts_with-cases (i ∷ old) [] h = cc
starts_with-cases (i ∷ old) (j ∷ path) h = elim (starts_with-cases old path (ground arith)) [
  | inl e ↦ inl (ground (arith, e, eqb_iff i j))
  | inr b ↦ inr (ground arith)
]

pub is_below-starts : (old path : List ℕ) → starts_with old path ≡ false → is_below old path ≡ false
unfolding is_below
is_below-starts old path h = ground arith

pub last_injective : (p q : List ℕ) (j k : ℕ) → p ++ j ∷ [] ≡ q ++ k ∷ [] → j ≡ k
last_injective [] [] j k e = cc
last_injective [] (b ∷ []) j k e = cc
last_injective [] (b ∷ c ∷ q) j k e = cc
last_injective (a ∷ []) [] j k e = cc
last_injective (a ∷ b ∷ p) [] j k e = cc
last_injective (a ∷ p) (b ∷ q) j k e = last_injective p q j k cc

pub not_below_root : (p : List ℕ) (j : ℕ) → starts_with (p ++ j ∷ []) [] ≡ false
unfolding starts_with
not_below_root [] j = refl
not_below_root (a ∷ p) j = refl

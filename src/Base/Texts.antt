-- ===== src/Base/Texts.antt =====
-- JavaScript texts: `String(n)`, `padStart`, the order `<` on texts, `split` and `Number`.
pub mod Numbers
use Prim.Native.Nat.{ℕ, zero, suc, ◌+◌, ◌-◌, ◌*◌, ◌/◌, ◌%◌, ◌<◌}
use mathlib.Core.Path.{◌≡◌, refl, ap}
use mathlib.Core.Bool.{Bool, true, false, ◌&&◌, ◌||◌}
use mathlib.Core.List.{List, [], ◌∷◌, ◌++◌, map}
use mathlib.Core.Option.{Option, none, some}
use native.Mathlib.Omega.{arith}
use montr.Base.Tests.{Text, ltb, eqb, if◌then◌else◌}
use montr.Base.Lists.{length}

-- The digits of `n`; the fuel `suc n` is enough, since each round divides by ten.
unfoldable pub decimal : ℕ → ℕ → Text
decimal zero n = []
decimal (suc f) n =
    let rest = decimal f (n / 10) in
    if ltb n 10 then (b'0' + n) ∷ [] else rest ++ (b'0' + n % 10) ∷ []

unfoldable pub show_number : ℕ → Text
unfolding decimal
show_number n = decimal (suc n) n

-- `String(n).padStart(2, '0')`
unfoldable pub pad2 : ℕ → Text
unfolding show_number
pad2 n = if ltb (length (show_number n)) 2 then b'0' ∷ show_number n else show_number n

pub pad2-digits : (n : ℕ) → n < 100 → pad2 n ≡ (b'0' + n / 10) ∷ (b'0' + n % 10) ∷ []
unfolding pad2
pad2-digits zero h = refl
pad2-digits (suc n) h = ground arith

-- `s < t`, by code units.
unfoldable pub text_lt : Text → Text → Bool
text_lt [] [] = false
text_lt [] (b ∷ bs) = true
text_lt (a ∷ as') [] = false
text_lt (a ∷ as') (b ∷ bs) = ltb a b || (eqb a b && text_lt as' bs)

-- `s.split(sep)` for a separator of one character: the parts, never none.
unfoldable pub split_from : ℕ → Text → Text → List Text
split_from sep part [] = part ∷ []
split_from sep part (c ∷ s) = elim (eqb c sep) [
  | true ↦ part ∷ split_from sep [] s
  | false ↦ split_from sep (part ++ c ∷ []) s
]

unfoldable pub split : ℕ → Text → List Text
unfolding split_from
split sep s = split_from sep [] s

abbrev pub is_digit : ℕ → Bool
is_digit c = ltb 47 c && ltb c 58

-- `Number(s)` of a text of decimal digits; the empty text is 0, and any other text is not a number.
unfoldable pub number_from : ℕ → Text → Option ℕ
number_from n [] = some n
number_from n (c ∷ s) =
    let rest = number_from (n * 10 + (c - 48)) s in if is_digit c then rest else none

unfoldable pub to_number : Text → Option ℕ
unfolding number_from
to_number s = number_from 0 s

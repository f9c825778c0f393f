-- ===== src/Base/Texts/Numbers.antt =====
-- `Number` reads what `String` writes.
use Prim.Native.Nat.{ℕ, zero, suc, ◌+◌, ◌-◌, ◌*◌, ◌/◌, ◌%◌, ◌<◌}
use mathlib.Core.Path.{◌≡◌, ap}
use mathlib.Core.Bool.{true}
use mathlib.Core.List.{[], ◌∷◌, ◌++◌}
use mathlib.Core.Option.{some}
use mathlib.Core.Logic.{inl, inr}
use native.Mathlib.Omega.{arith}
use montr.Base.Tests.{Text, ltb, Bool-cases}
use montr.Base.Texts.{decimal, show_number, number_from, to_number, is_digit}

number_from-append :
    (acc v c : ℕ) (s : Text)
    → number_from acc s ≡ some v
    → is_digit c ≡ true
    → number_from acc (s ++ c ∷ []) ≡ some (v * 10 + (c - 48))
unfolding number_from
number_from-append acc v c [] h d = ground arith
number_from-append acc v c (b ∷ s) h d =
    ground (arith, number_from-append (acc * 10 + (b - 48)) v c s)

decimal-number : (f n : ℕ) → n < f → number_from 0 (decimal f n) ≡ some n
unfolding decimal
decimal-number zero n h = absurd (omega arith)
decimal-number (suc f) n h = elim (Bool-cases (ltb n 10)) [
  | inl small ↦ unfold number_from in ground arith
  | inr large ↦ ground (
    arith,
    decimal-number f (n / 10) (ground arith),
    number_from-append 0 (n / 10) (48 + n % 10) (decimal f (n / 10)),
  )
]

-- Every number is read back from its text.
pub to_number-show_number : (n : ℕ) → to_number (show_number n) ≡ some n
unfolding to_number show_number
to_number-show_number n = decimal-number (suc n) n (omega arith)

pub show_number-injective : (m n : ℕ) → show_number m ≡ show_number n → m ≡ n
show_number-injective m n h = cc (to_number-show_number m, to_number-show_number n, ap to_number h)

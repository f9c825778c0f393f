-- ===== src/Semaphore/Overshoot.antt =====
-- server/src/utils/semaphore.ts: between the wake-up of a waiter and its resumption `active` is
-- already lowered, so that a task that asks then is let in, and the waiter is counted on top.
use montr.Base.{
  ℕ, zero, suc, ◌+◌, ◌*◌, ◌≤◌, some, List, [], ◌∷◌, ◌++◌, ◌≡◌, arith, ap, ◌∙◌, Option-cases, inl,
  inr,
}
use montr.Semaphore.{Semaphore, new_semaphore, Event, acquires, releases, resumes, step, run}

abbrev sem : ℕ → ℕ → ℕ → ℕ → Semaphore
sem m a q w = record { max = m; active = a; queue = q; woken = w }

abbrev repeat : ℕ → Event → List Event
repeat zero e = []
repeat (suc n) e = e ∷ repeat n e

run-append :
    (xs ys : List Event) (s t : Semaphore) → run xs s ≡ some t → run (xs ++ ys) s ≡ run ys t
unfolding run
run-append [] ys s t h = ground arith
run-append (e ∷ xs) ys s t h = elim (Option-cases (step e s)) [
  | inl stuck ↦ cc
  | inr (s', e') ↦ rw e' (run-append xs ys s' t (ground arith))
]

waits : (n m a q w : ℕ) → m ≤ a → run (repeat n acquires) (sem m a q w) ≡ some (sem m a (q + n) w)
unfolding run
waits zero m a q w h = ground arith
waits (suc n) m a q w h = ground (arith, waits n m a (q + 1) w h)

enters :
    (n m a q w : ℕ) → a + n ≤ m → run (repeat n acquires) (sem m a q w) ≡ some (sem m (a + n) q w)
unfolding run
enters zero m a q w h = ground arith
enters (suc n) m a q w h = ground (arith, enters n m (a + 1) q w (omega arith))

leaves : (n m a w : ℕ) → run (repeat n releases) (sem m (a + n) n w) ≡ some (sem m a 0 (w + n))
unfolding run
leaves zero m a w = ground arith
leaves (suc n) m a w = ground (arith, leaves n m a (w + 1))

goes_on : (n m a q : ℕ) → run (repeat n resumes) (sem m a q n) ≡ some (sem m (a + n) q 0)
unfolding run
goes_on zero m a q = ground arith
goes_on (suc n) m a q = ground (arith, goes_on n m (a + 1) q)

-- With `a` active tasks and as many that ask: all are done at once, then `m` others ask before the
-- woken ones go on.
abbrev round_of : ℕ → ℕ → List Event
round_of m a = repeat a acquires ++ (repeat a releases ++ (repeat m acquires ++ repeat a resumes))

round_grows : (m a : ℕ) → m ≤ a → run (round_of m a) (sem m a 0 0) ≡ some (sem m (m + a) 0 0)
round_grows m a h =
    let e₁ : run (repeat a acquires) (sem m a 0 0) ≡ some (sem m a a 0) =
      ground (arith, waits a m a 0 0) in
    let e₂ : run (repeat a releases) (sem m a a 0) ≡ some (sem m 0 0 a) =
      ground (arith, leaves a m 0 0) in
    let e₃ : run (repeat m acquires) (sem m 0 0 a) ≡ some (sem m m 0 a) =
      ground (arith, enters m m 0 0 a) in
    run-append (repeat a acquires) (repeat a releases ++ (repeat m acquires ++ repeat a resumes))
      (sem m a 0 0) (sem m a a 0) e₁
    ∙ run-append (repeat a releases) (repeat m acquires ++ repeat a resumes) (sem m a a 0)
        (sem m 0 0 a) e₂
    ∙ run-append (repeat m acquires) (repeat a resumes) (sem m 0 0 a) (sem m m 0 a) e₃
    ∙ goes_on a m m 0

-- The events that lead `k` rounds above the maximum.
pub overshoot : ℕ → ℕ → List Event
overshoot m zero = repeat m acquires
overshoot m (suc k) = overshoot m k ++ round_of m (suc k * m)

-- The maximum does not bound the active tasks: for every `k` there is a sequence of requests, releases
-- and resumptions that starts from a new semaphore and ends with `k + 1` times as many active tasks as
-- the maximum allows.
pub overshoot-active :
    (m k : ℕ) (s : Semaphore)
    → new_semaphore m ≡ some s
    → run (overshoot m k) s ≡ some (record { max = m; active = suc k * m; queue = 0; woken = 0 })
unfolding overshoot new_semaphore
overshoot-active m zero s new = ground (arith, enters m m 0 0 0)
overshoot-active m (suc k) s new =
    let a = suc k * m in
    let ih = overshoot-active m k s new in
    let sum : m + a ≡ suc (suc k) * m = omega arith in
    run-append (overshoot m k) (round_of m a) s (sem m a 0 0) ih
    ∙ round_grows m a (omega arith)
    ∙ ap (λ n. some (sem m n 0 0)) sum

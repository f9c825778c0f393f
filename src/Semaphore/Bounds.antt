-- ===== src/Semaphore/Bounds.antt =====
-- server/src/utils/semaphore.ts: no waiter sleeps while a permit is free, and the cap where no task
-- asks between a wake-up and its resumption.
use montr.Base.{
  ℕ, zero, suc, ◌+◌, ◌-◌, ◌≤◌, Option, none, some, List, [], ◌∷◌, ◌≡◌, refl, arith, ◌⊎◌, inl, inr,
  Option-cases, eqb, if◌then◌else◌,
}
use montr.Semaphore.{
  Semaphore, new_semaphore, Event, acquires, releases, resumes, step, bind, run, wake,
}

-- Nobody waits, or the permits in use and those promised to woken waiters are all there are.
abbrev pub NoLostWakeup : Semaphore → Type 0
NoLostWakeup s = (s.queue ≡ 0) ⊎ (s.max ≤ s.active + s.woken)

wake-NoLostWakeup :
    (q : ℕ) (s : Semaphore)
    → s.queue ≡ q
    → (q ≡ 0) ⊎ (s.max ≤ s.active + s.woken + 1)
    → NoLostWakeup (wake q s)
wake-NoLostWakeup zero s e w = inl e
wake-NoLostWakeup (suc q) s e w = ground arith

step-NoLostWakeup :
    (e : Event) (s t : Semaphore) → step e s ≡ some t → NoLostWakeup s → NoLostWakeup t
unfolding step
step-NoLostWakeup acquires s t h w = ground arith
step-NoLostWakeup releases s t h w =
    ground
      (arith, wake-NoLostWakeup s.queue (record s { active = s.active - 1 }) refl (ground arith))
step-NoLostWakeup resumes s t h w = ground arith

run_from-NoLostWakeup :
    (es : List Event) (s t : Semaphore) → run es s ≡ some t → NoLostWakeup s → NoLostWakeup t
unfolding run
run_from-NoLostWakeup [] s t h w = ground arith
run_from-NoLostWakeup (e ∷ es) s t h w = elim (Option-cases (step e s)) [
  | inl stuck ↦ cc
  | inr (s', e') ↦ run_from-NoLostWakeup es s' t (ground arith) (step-NoLostWakeup e s s' e' w)
]

-- In whatever order tasks ask, release and go on, a waiter is left waiting only while all permits are
-- in use or promised to woken waiters.
pub run-NoLostWakeup :
    (max : ℕ) (es : List Event) (s t : Semaphore)
    → new_semaphore max ≡ some s
    → run es s ≡ some t
    → NoLostWakeup t
unfolding new_semaphore
run-NoLostWakeup max es s t new h = run_from-NoLostWakeup es s t h (ground arith)

-- Runs in which no task asks while a woken waiter has still to go on.
unfoldable pub prompt_step : Event → Semaphore → Option Semaphore
prompt_step acquires s = if eqb s.woken 0 then step acquires s else none
prompt_step releases s = step releases s
prompt_step resumes s = step resumes s

unfoldable pub prompt_run : List Event → Semaphore → Option Semaphore
unfolding prompt_step
prompt_run [] s = some s
prompt_run (e ∷ es) s = bind (prompt_step e s) (prompt_run es)

abbrev Capped : Semaphore → Type 0
Capped s = s.active + s.woken ≤ s.max

wake-Capped : (q : ℕ) (s : Semaphore) → s.active + s.woken + 1 ≤ s.max → Capped (wake q s)
wake-Capped zero s h = omega arith
wake-Capped (suc q) s h = omega arith

prompt_step-Capped : (e : Event) (s t : Semaphore) → prompt_step e s ≡ some t → Capped s → Capped t
unfolding prompt_step step
prompt_step-Capped acquires s t h w = ground arith
prompt_step-Capped releases s t h w =
    ground (arith, wake-Capped s.queue (record s { active = s.active - 1 }))
prompt_step-Capped resumes s t h w = ground arith

prompt_run_from-Capped :
    (es : List Event) (s t : Semaphore) → prompt_run es s ≡ some t → Capped s → Capped t
unfolding prompt_run
prompt_run_from-Capped [] s t h w = ground arith
prompt_run_from-Capped (e ∷ es) s t h w = elim (Option-cases (prompt_step e s)) [
  | inl stuck ↦ cc
  | inr (s', e') ↦ prompt_run_from-Capped es s' t (ground arith) (prompt_step-Capped e s s' e' w)
]

wake-max : (q : ℕ) (s : Semaphore) → (wake q s).max ≡ s.max
wake-max zero s = refl
wake-max (suc q) s = refl

max_kept : (e : Event) (s t : Semaphore) → prompt_step e s ≡ some t → t.max ≡ s.max
unfolding prompt_step step
max_kept acquires s t h = ground arith
max_kept releases s t h = ground (arith, wake-max s.queue (record s { active = s.active - 1 }))
max_kept resumes s t h = ground arith

run_max_kept : (es : List Event) (s t : Semaphore) → prompt_run es s ≡ some t → t.max ≡ s.max
unfolding prompt_run
run_max_kept [] s t h = ground arith
run_max_kept (e ∷ es) s t h = elim (Option-cases (prompt_step e s)) [
  | inl stuck ↦ cc
  | inr (s', e') ↦ ground (arith, max_kept e s s' e', run_max_kept es s' t)
]

-- If no task asks between a wake-up and the resumption of the woken waiter, the number of active tasks
-- never exceeds the maximum, not even with the woken waiters counted.
pub prompt_run-le-max :
    (max : ℕ) (es : List Event) (s t : Semaphore)
    → new_semaphore max ≡ some s
    → prompt_run es s ≡ some t
    → t.active + t.woken ≤ max
unfolding new_semaphore
prompt_run-le-max max es s t new h =
    ground (arith, run_max_kept es s t h, prompt_run_from-Capped es s t h (ground arith))

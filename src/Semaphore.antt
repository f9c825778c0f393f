-- ===== src/Semaphore.antt =====
-- server/src/utils/semaphore.ts. A waiter that `release` resolves goes on in a later microtask: until
-- then it is `woken`, and other tasks may run.
mod Examples
pub mod Bounds
pub mod Overshoot
use montr.Base.{ℕ, zero, suc, ◌+◌, ◌-◌, Bool, Option, none, some, List, [], ◌∷◌, ltb, if◌then◌else◌}

pub record Semaphore : Type 0 where
  pub max : ℕ
  pub active : ℕ
  pub queue : ℕ
  pub woken : ℕ

-- `none` is the error of the constructor.
unfoldable pub new_semaphore : ℕ → Option Semaphore
new_semaphore max =
    if ltb max 1 then none else some (record { max = max; active = 0; queue = 0; woken = 0 })

-- `acquire` up to its return, or up to its `await`.
unfoldable pub acquire : Semaphore → Semaphore
acquire s =
    if ltb s.active s.max
    then record s { active = s.active + 1 }
    else record s { queue = s.queue + 1 }

-- `acquire` behind its `await`.
unfoldable pub resume : Semaphore → Semaphore
resume s = record s { woken = s.woken - 1; active = s.active + 1 }

abbrev pub wake : ℕ → Semaphore → Semaphore
wake zero s = s
wake (suc n) s = record s { queue = n; woken = s.woken + 1 }

unfoldable pub release : Semaphore → Semaphore
release s = wake s.queue (record s { active = s.active - 1 })

-- What runs next: a task that asks, a holder that is done, or a woken waiter.
pub data Event : Type 0 where
  acquires releases resumes : Event

-- Only a holder releases, and only a woken waiter resumes; `none` where there is none.
unfoldable pub step : Event → Semaphore → Option Semaphore
unfolding acquire release resume
step acquires s = some (acquire s)
step releases s = if ltb 0 s.active then some (release s) else none
step resumes s = if ltb 0 s.woken then some (resume s) else none

abbrev pub bind : Option Semaphore → (Semaphore → Option Semaphore) → Option Semaphore
bind none f = none
bind (some s) f = f s

unfoldable pub run : List Event → Semaphore → Option Semaphore
unfolding step
run [] s = some s
run (e ∷ es) s = bind (step e s) (run es)

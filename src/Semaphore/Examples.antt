-- ===== src/Semaphore/Examples.antt =====
-- Example runs of the semaphore.
use montr.Base.{suc, ◌+◌, ◌*◌, ◌≤◌, some, List, [], ◌∷◌, ◌≡◌, refl}
use montr.Semaphore.{Semaphore, new_semaphore, Event, acquires, releases, resumes, run, step}
use montr.Semaphore.Bounds.{NoLostWakeup, run-NoLostWakeup, prompt_run, prompt_run-le-max}
use montr.Semaphore.Overshoot.{overshoot, overshoot-active}

abbrev two_permits : Semaphore
two_permits = record { max = 2; active = 0; queue = 0; woken = 0 }

-- Three tasks ask, one of the holders is done, and the third goes on.
abbrev three_tasks : List Event
three_tasks = acquires ∷ acquires ∷ acquires ∷ releases ∷ resumes ∷ []

abbrev two_active : Semaphore
two_active = record { max = 2; active = 2; queue = 0; woken = 0 }

run-NoLostWakeup_example : NoLostWakeup two_active
unfolding new_semaphore run
run-NoLostWakeup_example = run-NoLostWakeup 2 three_tasks two_permits two_active refl refl

prompt_run-le-max_example : two_active.active + two_active.woken ≤ 2
unfolding new_semaphore prompt_run step
prompt_run-le-max_example = prompt_run-le-max 2 three_tasks two_permits two_active refl refl

overshoot-active_example :
    run (overshoot 2 3) two_permits
    ≡ some (record { max = 2; active = suc 3 * 2; queue = 0; woken = 0 })
unfolding new_semaphore
overshoot-active_example = overshoot-active 2 3 two_permits refl

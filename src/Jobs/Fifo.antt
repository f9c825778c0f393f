-- ===== src/Jobs/Fifo.antt =====
-- The thumbnail queue of server/src/services/thumbnail-queue.service.ts as a queue in order of
-- arrival, through crashes.
pub mod Line
pub mod Updates
pub mod Steps
pub mod Refine
use montr.Base.{ℕ, Option, none, some, List, [], ◌∷◌, ◌++◌, ◌≤◌}
use montr.Jobs.Thumbnails.{Event, enqueues, begins, ends, restarts}

-- The media whose job is being processed, and those whose jobs wait, oldest first.
pub record Fifo : Type 0 where
  pub current : Option ℕ
  pub waiting : List ℕ

abbrev pub start : Option ℕ → List ℕ → Fifo × Option ℕ
start (some m) ms = (record { current = some m; waiting = ms }, none)
start none [] = (record { current = none; waiting = [] }, none)
start none (m ∷ ms) = (record { current = some m; waiting = ms }, some m)

-- A crash puts the job that it cut off back to the front.
abbrev pub put_back : Option ℕ → List ℕ → List ℕ
put_back none ms = ms
put_back (some m) ms = m ∷ ms

unfoldable pub run : Fifo → List Event → List (Option ℕ)
run q [] = []
run q (enqueues media_id now ∷ es) = run (record q { waiting = q.waiting ++ media_id ∷ [] }) es
run q (begins ∷ es) = let (q', m) = start q.current q.waiting in m ∷ run q' es
run q (ends error ∷ es) = run (record q { current = none }) es
run q (restarts ∷ es) = run (record { current = none; waiting = put_back q.current q.waiting }) es

-- The times of the enqueued jobs do not go back.
abbrev pub IsOnTime : ℕ → List Event → Type 0
IsOnTime t [] = Unit
IsOnTime t (enqueues m now ∷ es) = (t ≤ now) × IsOnTime now es
IsOnTime t (begins ∷ es) = IsOnTime t es
IsOnTime t (ends error ∷ es) = IsOnTime t es
IsOnTime t (restarts ∷ es) = IsOnTime t es

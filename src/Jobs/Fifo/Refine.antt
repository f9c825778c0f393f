-- ===== src/Jobs/Fifo/Refine.antt =====
-- The poller of server/src/services/thumbnail-queue.service.ts, over its table, starts the jobs that a
-- queue in order of arrival starts.
use montr.Base.{
  ℕ, ◌≤◌, Text, true, Option, none, some, List, [], ◌∷◌, ◌++◌, nat_eq, ◌≡◌, refl, arith, ap,
}
use montr.Base.Map.{Map, modify}
use montr.Jobs.Table.{
  queued, earliest, start_job, claim_job, queued_count, fail_job, slice_to, max_error, done, failed,
  requeue_running,
}
use montr.Jobs.Thumbnails
use montr.Jobs.Thumbnails.{
  ThumbnailJob, JobTable, Poller, Event, enqueues, begins, ends, restarts, enqueue_thumbnail_job,
  claim_next_thumbnail_job, begin_one, end_one, restart, new_poller, mark_thumbnail_job_done,
  mark_thumbnail_job_failed, requeue_running_thumbnail_jobs,
}
use montr.Jobs.Claims.{claim_loop_alone, claim_loop_idle}
use montr.Jobs.Fifo.{Fifo, start, put_back, run, IsOnTime}
use montr.Jobs.Fifo.Line.{
  is_over, IsBelow, IsOrdered, IsLine, set_fresh, IsLine-append, IsOrdered-append, IsBelow-append,
}
use montr.Jobs.Fifo.Updates.{
  IsBelow-SameTimes, IsOrdered-SameTimes, modify-SameTimes, requeue_running-SameTimes,
  IsOrdered-Distinct,
}
use montr.Jobs.Fifo.Steps.{
  earliest-none_waiting, claim_line, end-IsLine, one_only, requeue_idle, requeue_busy,
}

claim_next-none : (t : JobTable) → earliest t.jobs ≡ none → claim_next_thumbnail_job t ≡ (t, none)
unfolding claim_next_thumbnail_job
claim_next-none t e = rw (claim_loop_idle (queued_count t.jobs) (λ n. []) t.jobs e) refl

claim_next-some :
    (t : JobTable) (c : ℕ × ThumbnailJob)
    → IsOrdered t.jobs
    → earliest t.jobs ≡ some c
    → claim_next_thumbnail_job t
      ≡ (record t { jobs = claim_job c.0 t.jobs }, some (c.0, start_job c.1))
unfolding claim_next_thumbnail_job
claim_next-some t c o e =
    rw (claim_loop_alone (queued_count t.jobs) t.jobs c (IsOrdered-Distinct t.jobs o) e) refl

-- The poller's table and the queue, with the time of the last job.
pub record Refines (t : ℕ) (p : Poller) (q : Fifo) : Type 0 where
  pub ordered : IsOrdered p.table.jobs
  pub below : IsBelow p.table.next_id t p.table.jobs
  pub line : IsLine p.in_flight q.current q.waiting p.table.jobs

-- Both say the same, and stay together.
abbrev Agrees : ℕ → Poller × Option ℕ → Fifo × Option ℕ → Type 0
Agrees t r s = (r.1 ≡ s.1) × Refines t r.0 s.0

enqueue-Refines :
    (t media_id now : ℕ) (p : Poller) (q : Fifo)
    → t ≤ now
    → Refines t p q
    → Refines now
        (record p { table = enqueue_thumbnail_job media_id now p.table })
        (record q { waiting = q.waiting ++ media_id ∷ [] })
unfolding enqueue_thumbnail_job
enqueue-Refines t m now p q h r =
    let appended = set_fresh p.table.next_id t new_job p.table.jobs r.below in
    record {
      ordered =
          rw appended (IsOrdered-append p.table.next_id t new_job p.table.jobs h r.below r.ordered);
      below = rw appended (IsBelow-append p.table.next_id t new_job p.table.jobs h r.below);
      line = rw appended (
          IsLine-append p.in_flight q.current p.table.next_id m new_job q.waiting p.table.jobs refl
            refl r.line);
    }
  where
    new_job : ThumbnailJob
    new_job = record { work = m; state = queued; attempts = 0; last_error = none; created_at = now }

abbrev pub taken_up : JobTable × Option (ℕ × ThumbnailJob) → Poller × Option ℕ
taken_up (table, none) = (record { table = table; in_flight = none }, none)
taken_up (table, some j) = (record { table = table; in_flight = some j.0 }, some j.1.work)

begin_one_idle :
    (table : JobTable)
    → begin_one (record { table = table; in_flight = none })
      ≡ taken_up (claim_next_thumbnail_job table)
unfolding begin_one
begin_one_idle table = ground arith

-- An idle poller.
begin_idle :
    (t : ℕ) (table : JobTable) (ms : List ℕ)
    → Refines t
        (record { table = table; in_flight = none })
        (record { current = none; waiting = ms })
    → Agrees t (begin_one (record { table = table; in_flight = none })) (start none ms)
unfolding claim_job
begin_idle t table [] r =
    let nothing = claim_next-none table (earliest-none_waiting table.jobs r.line) in
    rw (begin_one_idle table, nothing) (refl, r)
begin_idle t table (m ∷ ms) r =
    let (c, claim) = claim_line m ms table.jobs r.ordered r.line in
    let claimed = claim_next-some table c r.ordered claim.0 in
    let same = modify-SameTimes c.0 start_job table.jobs (λ j. ground arith) in
    rw (begin_one_idle table, claimed)
      (
        ground (arith, claim.1),
        record {
          ordered = IsOrdered-SameTimes table.jobs (claim_job c.0 table.jobs) same r.ordered;
          below =
              IsBelow-SameTimes table.next_id t table.jobs (claim_job c.0 table.jobs) same r.below;
          line = claim.2;
        },
      )

begin-Agrees :
    (t : ℕ) (table : JobTable) (f c : Option ℕ) (ms : List ℕ)
    → Refines t (record { table = table; in_flight = f }) (record { current = c; waiting = ms })
    → Agrees t (begin_one (record { table = table; in_flight = f })) (start c ms)
unfolding begin_one
begin-Agrees t table none none ms r = begin_idle t table ms r
begin-Agrees t table (some i) (some m) ms r = (refl, r)
begin-Agrees t table none (some m) ms r = absurd (one_only table.jobs none (some m) ms tt r.line)
begin-Agrees t table (some i) none ms r = absurd (one_only table.jobs (some i) none ms tt r.line)

mark-Refines :
    (t : ℕ) (f : ThumbnailJob → ThumbnailJob) (table : JobTable) (i m : ℕ) (ms : List ℕ)
    → ((j : ThumbnailJob) → is_over (f j).state ≡ true)
    → ((j : ThumbnailJob) → (f j).created_at ≡ j.created_at)
    → Refines t
        (record { table = table; in_flight = some i })
        (record { current = some m; waiting = ms })
    → Refines t
        (record { table = record table { jobs = modify i f table.jobs }; in_flight = none })
        (record { current = none; waiting = ms })
mark-Refines t f table i m ms over kept r =
    let same = modify-SameTimes i f table.jobs kept in
    record {
      ordered = IsOrdered-SameTimes table.jobs (modify i f table.jobs) same r.ordered;
      below = IsBelow-SameTimes table.next_id t table.jobs (modify i f table.jobs) same r.below;
      line = end-IsLine f over i m ms table.jobs r.ordered r.line;
    }

end-Refines :
    (t : ℕ) (error : Option Text) (table : JobTable) (f c : Option ℕ) (ms : List ℕ)
    → Refines t (record { table = table; in_flight = f }) (record { current = c; waiting = ms })
    → Refines t
        (end_one error (record { table = table; in_flight = f }))
        (record { current = none; waiting = ms })
unfolding end_one mark_thumbnail_job_done mark_thumbnail_job_failed fail_job
end-Refines t error table none none ms r = r
end-Refines t none table (some i) (some m) ms r =
    mark-Refines t (λ j. record j { state = done; last_error = none }) table i m ms (λ j. refl)
      (λ j. refl) r
end-Refines t (some message) table (some i) (some m) ms r =
    mark-Refines t
      (λ j. record j { state = failed; last_error = some (slice_to max_error message) }) table i m
      ms (λ j. refl) (λ j. refl) r
end-Refines t error table none (some m) ms r =
    absurd (one_only table.jobs none (some m) ms tt r.line)
end-Refines t error table (some i) none ms r =
    absurd (one_only table.jobs (some i) none ms tt r.line)

restart-IsLine :
    (f c : Option ℕ) (ms : List ℕ) (jobs : Map ℕ ThumbnailJob)
    → IsLine f c ms jobs
    → IsLine none none (put_back c ms) (requeue_running jobs)
restart-IsLine none none ms jobs l = requeue_idle ms jobs l
restart-IsLine (some i) (some m) ms jobs l = requeue_busy i m ms jobs l
restart-IsLine none (some m) ms jobs l = absurd (one_only jobs none (some m) ms tt l)
restart-IsLine (some i) none ms jobs l = absurd (one_only jobs (some i) none ms tt l)

restart-Refines :
    (t : ℕ) (p : Poller) (q : Fifo)
    → Refines t p q
    → Refines t (restart p) (record { current = none; waiting = put_back q.current q.waiting })
unfolding restart requeue_running_thumbnail_jobs
restart-Refines t p q r =
    let same = requeue_running-SameTimes p.table.jobs in
    record {
      ordered = IsOrdered-SameTimes p.table.jobs (requeue_running p.table.jobs) same r.ordered;
      below =
          IsBelow-SameTimes p.table.next_id t p.table.jobs (requeue_running p.table.jobs) same
            r.below;
      line = restart-IsLine p.in_flight q.current q.waiting p.table.jobs r.line;
    }

run-Refines :
    (es : List Event) (t : ℕ) (p : Poller) (q : Fifo)
    → Refines t p q
    → IsOnTime t es
    → Thumbnails.run p es ≡ run q es
unfolding Thumbnails.run run
run-Refines [] t p q r h = refl
run-Refines (enqueues m now ∷ es) t p q r h =
    run-Refines es now _ _ (enqueue-Refines t m now p q h.0 r) h.1
run-Refines (begins ∷ es) t p q r h =
    let (said, next) = begin-Agrees t p.table p.in_flight q.current q.waiting r in
    rw said (ap (λ ms. (start q.current q.waiting).1 ∷ ms) (run-Refines es t _ _ next h))
run-Refines (ends error ∷ es) t p q r h =
    run-Refines es t _ _ (end-Refines t error p.table p.in_flight q.current q.waiting r) h
run-Refines (restarts ∷ es) t p q r h = run-Refines es t _ _ (restart-Refines t p q r) h

-- Through any requests, starts, ends and crashes whose jobs carry times that do not go back, the poller
-- starts on the media files that a queue in order of arrival starts on: each in its turn, and one that
-- a crash cut off again before all others.
pub run_lem :
    (es : List Event)
    → IsOnTime 0 es
    → Thumbnails.run new_poller es ≡ run (record { current = none; waiting = [] }) es
run_lem es h =
    run-Refines es 0 new_poller (record { current = none; waiting = [] })
      (record { ordered = tt; below = tt; line = tt }) h

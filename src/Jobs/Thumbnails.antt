-- ===== src/Jobs/Thumbnails.antt =====
-- server/src/services/thumbnail-queue.service.ts and the thumbnail_jobs table of
-- server/src/database/adapters/sql-base.adapter.ts. `updated_at` is written and never read.
use montr.Base.{ℕ, suc, ◌+◌, Text, Option, none, some, List, [], ◌∷◌, nat_eq}
use montr.Base.Map.{Map, set, modify}
use montr.Jobs.Table.{
  queued, done, Job, returns, goes_round, claim_loop, queued_count, requeue_running, fail_job,
}

-- The work of a row is the `media_id`.
abbrev pub ThumbnailJob : Type 0
ThumbnailJob = Job ℕ

pub record JobTable : Type 0 where
  pub jobs : Map ℕ ThumbnailJob
  pub next_id : ℕ

unfoldable pub enqueue_thumbnail_job : ℕ → ℕ → JobTable → JobTable
enqueue_thumbnail_job media_id now t = record {
  jobs =
      set t.next_id
        (record {
          work = media_id;
          state = queued;
          attempts = 0;
          last_error = none;
          created_at = now;
        })
        t.jobs;
  next_id = t.next_id + 1;
}

-- One process alone claims jobs; a claim that goes round for ever returns nothing.
unfoldable pub claim_next_thumbnail_job : JobTable → JobTable × Option (ℕ × ThumbnailJob)
unfolding claim_loop queued_count
claim_next_thumbnail_job t =
    let (jobs, c) = claim_loop (suc (queued_count t.jobs)) (λ n. []) t.jobs in
    (record t { jobs = jobs }, elim c [ returns j ↦ j | goes_round ↦ none ])

unfoldable pub mark_thumbnail_job_done : ℕ → JobTable → JobTable
mark_thumbnail_job_done id t = record t {
  jobs = modify id (λ j. record j { state = done; last_error = none }) t.jobs;
}

unfoldable pub mark_thumbnail_job_failed : ℕ → Text → JobTable → JobTable
unfolding fail_job
mark_thumbnail_job_failed id error t = record t { jobs = fail_job id error t.jobs }

unfoldable pub requeue_running_thumbnail_jobs : JobTable → JobTable
unfolding requeue_running
requeue_running_thumbnail_jobs t = record t { jobs = requeue_running t.jobs }

-- The service with the job that its `runOne` is at, which is between the claim and the mark.
pub record Poller : Type 0 where
  pub table : JobTable
  pub in_flight : Option ℕ

-- The first half of `runOne`, up to the call of `processThumbnailJob`, with the media id that it is
-- called with. The loop awaits each `runOne`, so that none starts while another is at a job.
unfoldable pub begin_one : Poller → Poller × Option ℕ
unfolding claim_next_thumbnail_job
begin_one p = elim p.in_flight [
  | some id ↦ (p, none)
  | none ↦
      let (table, job) = claim_next_thumbnail_job p.table in
      elim job [
        | none ↦ (record { table = table; in_flight = none }, none)
        | some j ↦ (record { table = table; in_flight = some j.0 }, some j.1.work)
      ]
]

-- The second half of `runOne`, by whether `processThumbnailJob` threw, and with what message.
unfoldable pub end_one : Option Text → Poller → Poller
unfolding mark_thumbnail_job_done mark_thumbnail_job_failed
end_one error p = elim p.in_flight [
  | none ↦ p
  | some id ↦ record {
    table = elim error [
      | none ↦ mark_thumbnail_job_done id p.table
      | some message ↦ mark_thumbnail_job_failed id message p.table
    ];
    in_flight = none;
  }
]

-- The process died, and `start` of the new one requeues.
unfoldable pub restart : Poller → Poller
unfolding requeue_running_thumbnail_jobs
restart p = record { table = requeue_running_thumbnail_jobs p.table; in_flight = none }

-- What befalls the queue, in the order of events: a request enqueues the job of a media file at a time.
pub data Event : Type 0 where
  enqueues : ℕ → ℕ → Event
  begins : Event
  ends : Option Text → Event
  restarts : Event

-- The media ids whose processing starts, in order.
unfoldable pub run : Poller → List Event → List (Option ℕ)
unfolding enqueue_thumbnail_job begin_one end_one restart
run p [] = []
run p (enqueues media_id now ∷ es) =
    run (record p { table = enqueue_thumbnail_job media_id now p.table }) es
run p (begins ∷ es) = let (p', m) = begin_one p in m ∷ run p' es
run p (ends error ∷ es) = run (end_one error p) es
run p (restarts ∷ es) = run (restart p) es

-- The table of a new database.
abbrev pub new_poller : Poller
new_poller = record { table = record { jobs = []; next_id = 1 }; in_flight = none }

-- ===== src/Jobs/Completions.antt =====
-- server/src/services/upload-completion-queue.service.ts and the upload_completion_jobs table of
-- server/src/database/adapters/sql-base.adapter.ts, where `upload_id` is UNIQUE.
pub mod Drain
pub mod Enqueue
use montr.Base.{
  ℕ, zero, suc, ◌+◌, Text, Bool, true, false, ◌==◌, Option, none, some, List, [], ◌∷◌, nat_eq,
  text_eq, if◌then◌else◌,
}
use montr.Base.Map.{Map, set, modify}
use montr.Uploads.Sessions.{Backend}
use montr.Jobs.Table.{
  JobState, queued, done, duplicate, Job, Claim, returns, goes_round, claim_loop, queued_count,
  requeue_running, fail_job,
}

pub record UploadCompletionJobInput : Type 0 where
  pub upload_id : Text
  pub storage_backend : Backend
  pub storage_key : Text
  pub original_filename : Text
  pub mime_type : Text
  pub total_size : ℕ
  pub folder_id : Option ℕ

-- What a row carries beside the columns of every job.
pub record Completion : Type 0 where
  pub input : UploadCompletionJobInput
  pub media_id : Option ℕ
  pub existing_media_id : Option ℕ

abbrev pub UploadCompletionJob : Type 0
UploadCompletionJob = Job Completion

pub record CompletionTable : Type 0 where
  pub jobs : Map ℕ UploadCompletionJob
  pub next_id : ℕ

-- `SELECT * … WHERE upload_id = …`
unfoldable pub by_upload_id : Text → Map ℕ UploadCompletionJob → Option (ℕ × UploadCompletionJob)
by_upload_id upload_id [] = none
by_upload_id upload_id (j ∷ jobs) =
    if j.1.work.input.upload_id == upload_id then some j else by_upload_id upload_id jobs

abbrev pub new_job : UploadCompletionJobInput → ℕ → UploadCompletionJob
new_job input now = record {
  work = record { input = input; media_id = none; existing_media_id = none };
  state = queued;
  attempts = 0;
  last_error = none;
  created_at = now;
}

-- `INSERT OR IGNORE`: a row whose upload_id is taken is not inserted.
unfoldable pub insert_or_ignore : UploadCompletionJobInput → ℕ → CompletionTable → CompletionTable
unfolding by_upload_id
insert_or_ignore input now t = elim (by_upload_id input.upload_id t.jobs) [
  | some j ↦ t
  | none ↦ record { jobs = set t.next_id (new_job input now) t.jobs; next_id = t.next_id + 1 }
]

-- `none` is the error of a row that is not found after the insert.
unfoldable pub enqueue_upload_completion_job :
    UploadCompletionJobInput
    → ℕ
    → CompletionTable
    → CompletionTable × Option (ℕ × UploadCompletionJob)
unfolding insert_or_ignore
enqueue_upload_completion_job input now t =
    let t' = insert_or_ignore input now t in (t', by_upload_id input.upload_id t'.jobs)

unfoldable pub claim_next_upload_completion_job :
    CompletionTable → CompletionTable × Option (ℕ × UploadCompletionJob)
unfolding claim_loop queued_count
claim_next_upload_completion_job t =
    let (jobs, c) = claim_loop (suc (queued_count t.jobs)) (λ n. []) t.jobs in
    (record t { jobs = jobs }, elim c [ returns j ↦ j | goes_round ↦ none ])

unfoldable pub mark_upload_completion_job_done : ℕ → ℕ → CompletionTable → CompletionTable
mark_upload_completion_job_done id media_id t = record t {
  jobs =
      modify id
        (λ j. record j {
          work = record j.work { media_id = some media_id };
          state = done;
          last_error = none;
        })
        t.jobs;
}

unfoldable pub mark_upload_completion_job_duplicate : ℕ → ℕ → CompletionTable → CompletionTable
mark_upload_completion_job_duplicate id existing t = record t {
  jobs =
      modify id
        (λ j. record j {
          work = record j.work { existing_media_id = some existing };
          state = duplicate;
          last_error = none;
        })
        t.jobs;
}

unfoldable pub mark_upload_completion_job_failed : ℕ → Text → CompletionTable → CompletionTable
unfolding fail_job
mark_upload_completion_job_failed id error t = record t { jobs = fail_job id error t.jobs }

unfoldable pub requeue_running_upload_completion_jobs : CompletionTable → CompletionTable
unfolding requeue_running
requeue_running_upload_completion_jobs t = record t { jobs = requeue_running t.jobs }

-- What `processUploadCompletionJob` came to; it may throw.
pub data Processed : Type 0 where
  created duplicate_of : ℕ → Processed
  threw : Text → Processed

unfoldable pub settle_job : ℕ → Processed → CompletionTable → CompletionTable
unfolding mark_upload_completion_job_done mark_upload_completion_job_duplicate
    mark_upload_completion_job_failed
settle_job id (created media_id) t = mark_upload_completion_job_done id media_id t
settle_job id (duplicate_of existing) t = mark_upload_completion_job_duplicate id existing t
settle_job id (threw message) t = mark_upload_completion_job_failed id message t

module _ (process : Completion → Processed) where
  -- `runOne`: whether there was a job.
  unfoldable pub run_one : CompletionTable → CompletionTable × Bool
  unfolding claim_next_upload_completion_job settle_job
  run_one t =
      let (t', job) = claim_next_upload_completion_job t in
      elim job [ none ↦ (t', false) | some j ↦ (settle_job j.0 (process j.1.work) t', true) ]

  -- The iterations of `runLoop` up to its first sleep, `n` at most: whether it came to the sleep.
  unfoldable pub run_loop : ℕ → CompletionTable → CompletionTable × Bool
  unfolding run_one
  run_loop zero t = (t, false)
  run_loop (suc n) t =
      let (t', drained) = run_one t in
      let rest = run_loop n t' in if drained then rest else (t', true)

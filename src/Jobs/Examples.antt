-- ===== src/Jobs/Examples.antt =====
-- Example runs of the job queues.
use montr.Base.{ℕ, codes, true, none, some, List, [], ◌∷◌, nat_eq, text_eq, ◌≡◌, refl, arith}
use montr.Base.Map.{Map, get, has}
use montr.Uploads.Sessions.{spaces}
use montr.Jobs.Table.{queued, claim_loop, queued_count}
use montr.Jobs.Thumbnails
use montr.Jobs.Thumbnails.{ThumbnailJob, Event, enqueues, begins, ends, restarts, new_poller}
use montr.Jobs.Claims.{IsClaimed, claim_loop_lem}
use montr.Jobs.Fifo.{Fifo, run}
use montr.Jobs.Fifo.Refine.{run_lem}
use montr.Jobs.Completions.{
  UploadCompletionJobInput, Completion, UploadCompletionJob, CompletionTable, Processed, threw,
  new_job, run_loop, enqueue_upload_completion_job,
}
use montr.Jobs.Completions.Drain.{drained, run_loop_lem}
use montr.Jobs.Completions.Enqueue.{enqueue_again}

abbrev waiting_job : ℕ → ThumbnailJob
waiting_job media_id = record {
  work = media_id;
  state = queued;
  attempts = 0;
  last_error = none;
  created_at = 5;
}

-- Another poller takes the first job while this one asks for it.
abbrev a_rival : ℕ → List ℕ
a_rival n = 1 ∷ []

claim_loop_lem_example :
    let jobs : Map ℕ ThumbnailJob = (1, waiting_job 7) ∷ (2, waiting_job 8) ∷ [] in
    let (rows, c) = claim_loop 3 a_rival jobs in IsClaimed a_rival 3 jobs rows c
unfolding queued_count has
claim_loop_lem_example =
    claim_loop_lem a_rival ((1, waiting_job 7) ∷ (2, waiting_job 8) ∷ []) (refl, (refl, tt))

-- Two files, a crash during the first, a failure, and both jobs are done again in order.
abbrev a_crash : List Event
a_crash =
    enqueues 7 1
    ∷ enqueues 8 1
    ∷ begins
    ∷ restarts
    ∷ begins
    ∷ ends (some (codes "broken"))
    ∷ begins
    ∷ ends none
    ∷ []

abbrev empty_fifo : Fifo
empty_fifo = record { current = none; waiting = [] }

run_lem_example : Thumbnails.run new_poller a_crash ≡ some 7 ∷ some 7 ∷ some 8 ∷ []
unfolding run
run_lem_example = run_lem a_crash (omega arith, (omega arith, tt))

abbrev an_upload : UploadCompletionJobInput
an_upload = record {
  upload_id = codes "u1";
  storage_backend = spaces;
  storage_key = codes "key";
  original_filename = codes "a.mp4";
  mime_type = codes "video/mp4";
  total_size = 9;
  folder_id = none;
}

abbrev no_completions : CompletionTable
no_completions = record { jobs = []; next_id = 1 }

abbrev one_completion : CompletionTable
one_completion = record { jobs = (1, new_job an_upload 5) ∷ []; next_id = 2 }

abbrev refuses : Completion → Processed
refuses work = threw (codes "no disk")

run_loop_lem_example :
    let (t, slept) = run_loop refuses 2 one_completion in
    (slept ≡ true) × ((id : ℕ) → get id t.jobs ≡ drained refuses (get id one_completion.jobs))
unfolding queued_count has
run_loop_lem_example = run_loop_lem refuses 2 one_completion (refl, tt) (omega arith)

enqueue_again_example :
    let (t, row) = enqueue_upload_completion_job an_upload 5 no_completions in
    (enqueue_upload_completion_job an_upload 9 t ≡ (t, row))
    × ((j : ℕ × UploadCompletionJob) × (row ≡ some j))
enqueue_again_example = enqueue_again an_upload an_upload 5 9 no_completions refl

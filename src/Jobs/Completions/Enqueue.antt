-- ===== src/Jobs/Completions/Enqueue.antt =====
-- `enqueueUploadCompletionJob` of server/src/database/adapters/sql-base.adapter.ts, when a client sends
-- /complete again.
use montr.Base.{
  ℕ, ◌+◌, Text, none, some, [], ◌∷◌, nat_eq, text_eq, ◌≡◌, refl, arith, Option-cases, inl, inr, ap,
  ◌∙◌,
}
use montr.Base.Map.{Map, set}
use montr.Jobs.Completions.{
  UploadCompletionJobInput, UploadCompletionJob, CompletionTable, by_upload_id, new_job,
  insert_or_ignore, enqueue_upload_completion_job,
}

-- The row that an insert writes is found by its upload_id, if none was before.
by_upload_id-set :
    (u : Text) (n : ℕ) (j : UploadCompletionJob) (jobs : Map ℕ UploadCompletionJob)
    → j.work.input.upload_id ≡ u
    → by_upload_id u jobs ≡ none
    → by_upload_id u (set n j jobs) ≡ some (n, j)
unfolding by_upload_id set
by_upload_id-set u n j [] e h = ground (arith, text_eq.beq_iff j.work.input.upload_id u)
by_upload_id-set u n j ((k, i) ∷ jobs) e h =
    ground (arith, text_eq.beq_iff j.work.input.upload_id u, by_upload_id-set u n j jobs e)

insert_or_ignore_new :
    (input : UploadCompletionJobInput) (now : ℕ) (t : CompletionTable)
    → by_upload_id input.upload_id t.jobs ≡ none
    → insert_or_ignore input now t
      ≡ record { jobs = set t.next_id (new_job input now) t.jobs; next_id = t.next_id + 1 }
unfolding insert_or_ignore
insert_or_ignore_new input now t e = rw (insert_or_ignore, e) refl

insert_or_ignore_old :
    (input : UploadCompletionJobInput) (now : ℕ) (t : CompletionTable) (j : ℕ × UploadCompletionJob)
    → by_upload_id input.upload_id t.jobs ≡ some j
    → insert_or_ignore input now t ≡ t
unfolding insert_or_ignore
insert_or_ignore_old input now t j e = rw (insert_or_ignore, e) refl

insert_or_ignore-found :
    (input : UploadCompletionJobInput) (now : ℕ) (t : CompletionTable)
    → (j : ℕ × UploadCompletionJob) × (by_upload_id input.upload_id
          (insert_or_ignore input now t).jobs
        ≡ some j)
insert_or_ignore-found input now t = elim (Option-cases (by_upload_id input.upload_id t.jobs)) [
  | inl e ↦ (
    (t.next_id, new_job input now),
    rw (insert_or_ignore_new input now t e)
        (by_upload_id-set input.upload_id t.next_id (new_job input now) t.jobs refl e),
  )
  | inr (j, e) ↦ (j, rw (insert_or_ignore_old input now t j e) e)
]

-- An upload that is enqueued always yields a row, and enqueued again, with whatever else the repeated
-- request says and at whatever time, it yields the same row and leaves the table as it is.
pub enqueue_again :
    (first again : UploadCompletionJobInput) (now later : ℕ) (t : CompletionTable)
    → again.upload_id ≡ first.upload_id
    → let (t', row) = enqueue_upload_completion_job first now t in
      (enqueue_upload_completion_job again later t' ≡ (t', row))
      × ((j : ℕ × UploadCompletionJob) × (row ≡ some j))
unfolding enqueue_upload_completion_job
enqueue_again first again now later t e =
    let (j, found) = insert_or_ignore-found first now t in
    let t' = insert_or_ignore first now t in
    let there : by_upload_id again.upload_id t'.jobs ≡ some j =
      ap (λ u. by_upload_id u t'.jobs) e ∙ found in
    let kept = insert_or_ignore_old again later t' j there in
    (ground (arith, found, there, kept), (j, found))

-- ===== src/Jobs/Completions/Drain.antt =====
-- server/src/services/upload-completion-queue.service.ts: what the loop does with the jobs that are queued,
-- and what a repeated enqueue does.
use montr.Base.{
  ℕ, zero, suc, ◌<◌, Bool, true, false, ◌==◌, Option, none, some, [], ◌∷◌, nat_eq, text_eq, eqb_iff,
  ◌≡◌, ◌≢◌, refl, arith, ap, sym, ◌∙◌, Option-cases, Bool-cases, inl, inr, if◌then◌else◌,
}
use montr.Base.Map.{Map, get, modify, Distinct, get-modify_self, get-modify_other, Distinct-modify}
use montr.Jobs.Table.{
  done, failed, duplicate, is_queued, earliest, start_job, claim_job, queued_count, slice_to,
  max_error, fail_job,
}
use montr.Jobs.Claims.{
  earliest-found, earliest-queued, earliest-none, claim_loop_alone, claim_loop_idle,
  claim_job-count_lt, modify-count,
}
use montr.Jobs.Completions.{
  Completion, UploadCompletionJob, CompletionTable, claim_next_upload_completion_job,
  mark_upload_completion_job_done, mark_upload_completion_job_duplicate,
  mark_upload_completion_job_failed, Processed, created, duplicate_of, threw, settle_job, run_one,
  run_loop,
}

-- The row of a job that was processed.
abbrev pub processed_job : Processed → UploadCompletionJob → UploadCompletionJob
processed_job (created media_id) j = record j {
  work = record j.work { media_id = some media_id };
  state = done;
  last_error = none;
}
processed_job (duplicate_of existing) j = record j {
  work = record j.work { existing_media_id = some existing };
  state = duplicate;
  last_error = none;
}
processed_job (threw message) j = record j {
  state = failed;
  last_error = some (slice_to max_error message);
}

settle_lem :
    (id : ℕ) (outcome : Processed) (t : CompletionTable)
    → settle_job id outcome t ≡ record t { jobs = modify id (processed_job outcome) t.jobs }
unfolding settle_job mark_upload_completion_job_done mark_upload_completion_job_duplicate
    mark_upload_completion_job_failed fail_job
settle_lem id (created m) t = refl
settle_lem id (duplicate_of m) t = refl
settle_lem id (threw e) t = refl

processed_job-queued :
    (outcome : Processed) (j : UploadCompletionJob) → is_queued (processed_job outcome j) ≡ false
processed_job-queued (created m) j = refl
processed_job-queued (duplicate_of m) j = refl
processed_job-queued (threw e) j = refl

not_queued :
    (id : ℕ) (j : UploadCompletionJob) (jobs : Map ℕ UploadCompletionJob)
    → get id jobs ≡ some j
    → queued_count jobs ≡ 0
    → is_queued j ≡ false
unfolding get queued_count
not_queued id j [] h c = absurd cc
not_queued id j ((k, i) ∷ jobs) h c = ground (arith, not_queued id j jobs)

module _ (process : Completion → Processed) where
  -- The table after the claimed job was processed.
  abbrev pub after_one : ℕ × UploadCompletionJob → CompletionTable → CompletionTable
  after_one c t = record t {
    jobs = modify c.0 (processed_job (process c.1.work)) (claim_job c.0 t.jobs);
  }

  abbrev carried_out : CompletionTable × Option (ℕ × UploadCompletionJob) → CompletionTable × Bool
  carried_out (t, none) = (t, false)
  carried_out (t, some j) = (settle_job j.0 (process j.1.work) t, true)

  run_one_claim :
      (t : CompletionTable) → run_one process t ≡ carried_out (claim_next_upload_completion_job t)
  unfolding run_one
  run_one_claim t = ground arith

  claim_next-some :
      (t : CompletionTable) (c : ℕ × UploadCompletionJob)
      → Distinct t.jobs
      → earliest t.jobs ≡ some c
      → claim_next_upload_completion_job t
        ≡ (record t { jobs = claim_job c.0 t.jobs }, some (c.0, start_job c.1))
  unfolding claim_next_upload_completion_job
  claim_next-some t c d e = rw (claim_loop_alone (queued_count t.jobs) t.jobs c d e) refl

  claim_next-none :
      (t : CompletionTable)
      → earliest t.jobs ≡ none
      → claim_next_upload_completion_job t ≡ (t, none)
  unfolding claim_next_upload_completion_job
  claim_next-none t e = rw (claim_loop_idle (queued_count t.jobs) (λ n. []) t.jobs e) refl

  work-start_job : (j : UploadCompletionJob) → (start_job j).work ≡ j.work
  work-start_job j = ground arith

  run_one-some :
      (t : CompletionTable) (c : ℕ × UploadCompletionJob)
      → Distinct t.jobs
      → earliest t.jobs ≡ some c
      → run_one process t ≡ (after_one c t, true)
  run_one-some t c d e =
      run_one_claim t
      ∙ ap carried_out (claim_next-some t c d e)
      ∙ rw (work-start_job c.1) (
          ap (λ t'. (t', true))
            (settle_lem c.0 (process c.1.work) (record t { jobs = claim_job c.0 t.jobs })))

  run_one-none : (t : CompletionTable) → earliest t.jobs ≡ none → run_one process t ≡ (t, false)
  run_one-none t e = run_one_claim t ∙ ap carried_out (claim_next-none t e)

  after_one-count :
      (t : CompletionTable) (c : ℕ × UploadCompletionJob)
      → Distinct t.jobs
      → earliest t.jobs ≡ some c
      → queued_count (after_one c t).jobs < queued_count t.jobs
  after_one-count t c d e = omega (
    arith,
    modify-count c.0 (processed_job (process c.1.work)) (claim_job c.0 t.jobs)
        (processed_job-queued (process c.1.work)),
    claim_job-count_lt c.0 c.1 t.jobs (earliest-found t.jobs c d e) (earliest-queued t.jobs c e),
  )

  after_one-Distinct :
      (t : CompletionTable) (c : ℕ × UploadCompletionJob)
      → Distinct t.jobs
      → Distinct (after_one c t).jobs
  unfolding claim_job
  after_one-Distinct t c d =
      Distinct-modify c.0 (processed_job (process c.1.work)) (claim_job c.0 t.jobs)
        (Distinct-modify c.0 start_job t.jobs d)

  after_one-get_self :
      (t : CompletionTable) (c : ℕ × UploadCompletionJob)
      → get c.0 t.jobs ≡ some c.1
      → get c.0 (after_one c t).jobs ≡ some (processed_job (process c.1.work) (start_job c.1))
  unfolding claim_job
  after_one-get_self t c h =
      get-modify_self c.0 (processed_job (process c.1.work)) (start_job c.1) (claim_job c.0 t.jobs)
        (get-modify_self c.0 start_job c.1 t.jobs h)

  after_one-get_other :
      (t : CompletionTable) (c : ℕ × UploadCompletionJob) (id : ℕ)
      → c.0 ≢ id
      → get id (after_one c t).jobs ≡ get id t.jobs
  unfolding claim_job
  after_one-get_other t c id h =
      get-modify_other c.0 id (processed_job (process c.1.work)) (claim_job c.0 t.jobs) h
      ∙ get-modify_other c.0 id start_job t.jobs h

  -- What the loop leaves at an id: the row of a queued job as its processing left it, and any other row
  -- as it was.
  abbrev pub drained : Option UploadCompletionJob → Option UploadCompletionJob
  drained none = none
  drained (some j) =
      if is_queued j then some (processed_job (process j.work) (start_job j)) else some j

  drained_one :
      (t : CompletionTable) (c : ℕ × UploadCompletionJob) (id : ℕ)
      → get c.0 t.jobs ≡ some c.1
      → is_queued c.1 ≡ true
      → drained (get id (after_one c t).jobs) ≡ drained (get id t.jobs)
  drained_one t c id h q = elim (Bool-cases (c.0 == id)) [
    | inl same ↦
        let here : get id (after_one c t).jobs
            ≡ some (processed_job (process c.1.work) (start_job c.1)) =
          ap (λ k. get k (after_one c t).jobs) (sym ((eqb_iff c.0 id).0 same))
          ∙ after_one-get_self t c h in
        let before : get id t.jobs ≡ some c.1 =
          ap (λ k. get k t.jobs) (sym ((eqb_iff c.0 id).0 same)) ∙ h in
        let over = processed_job-queued (process c.1.work) (start_job c.1) in
        ground (arith, here, before, over, q)
    | inr differs ↦
        let other : c.0 ≢ id = λ e. ground (arith, differs, eqb_iff c.0 id, e) in
        ap drained (after_one-get_other t c id other)
  ]

  drained_all :
      (t : CompletionTable) (id : ℕ)
      → queued_count t.jobs ≡ 0
      → get id t.jobs ≡ drained (get id t.jobs)
  drained_all t id h = elim (Option-cases (get id t.jobs)) [
    | inl e ↦ rw e refl
    | inr (j, e) ↦ ground (arith, e, not_queued id j t.jobs e h)
  ]

  -- However many jobs are queued and whatever their processing comes to, the loop reaches its sleep
  -- within one iteration more than there are queued jobs; by then every job that was queued stands as
  -- its own processing left it, done, duplicate or failed with its message cut at 2000 characters, after
  -- one attempt, and every other row stands as it was.
  pub run_loop_lem :
      (n : ℕ) (t : CompletionTable)
      → Distinct t.jobs
      → queued_count t.jobs < n
      → let (t', slept) = run_loop process n t in
        (slept ≡ true) × ((id : ℕ) → get id t'.jobs ≡ drained (get id t.jobs))
  unfolding run_loop
  run_loop_lem zero t d h = absurd (omega arith)
  run_loop_lem (suc n) t d h = elim (Option-cases (earliest t.jobs)) [
    | inl e ↦
        rw (run_loop, run_one-none t e) (refl, λ id. drained_all t id (earliest-none t.jobs e))
    | inr (c, e) ↦
        let fewer = after_one-count t c d e in
        let (slept, rows) =
          run_loop_lem n (after_one c t) (after_one-Distinct t c d) (omega (arith, fewer, h)) in
        rw (run_loop, run_one-some t c d e)
          (
            slept,
            λ id.
                rows id
                ∙ drained_one t c id (earliest-found t.jobs c d e) (earliest-queued t.jobs c e),
          )
  ]

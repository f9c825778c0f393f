-- ===== src/Jobs/Claims.antt =====
-- The claim of a job by `claimNextThumbnailJob` and `claimNextUploadCompletionJob` of
-- server/src/database/adapters/sql-base.adapter.ts, with other pollers at work.
use montr.Base.{
  ℕ, zero, suc, ◌+◌, ◌≤◌, ◌<◌, true, false, none, some, List, [], ◌∷◌, ◌++◌, nat_eq, eqb_iff, ◌≡◌,
  refl, sym, ap, ◌∙◌, inl, inr, arith, Bool-cases, Option-cases,
}
use montr.Base.Map.{
  Map, get, has, Distinct, modify, get-modify_self, has-of_get, has-modify, Distinct-modify,
}
use montr.Jobs.Table.{
  running, Job, Claim, returns, is_queued, earliest, is_claimable, start_job, claim_job, claim_each,
  claim_loop, queued_count, row_of,
}

-- The jobs that others claim in the first `k` rounds of a loop with `n` rounds to go.
abbrev pub claimed_in : (ℕ → List ℕ) → ℕ → ℕ → List ℕ
claimed_in rivals n zero = []
claimed_in rivals zero (suc k) = []
claimed_in rivals (suc n) (suc k) = rivals n ++ claimed_in rivals n k

module _ {W : Type 0} where
  pub earliest-none : (rows : Map ℕ (Job W)) → earliest rows ≡ none → queued_count rows ≡ 0
  unfolding earliest queued_count
  earliest-none [] e = refl
  earliest-none ((i, j) ∷ rows) e = elim (Option-cases (earliest rows)) [
    | inl h ↦ ground (arith, earliest-none rows h, h, e)
    | inr (k, h) ↦ ground (arith, h, e)
  ]

  claim_job-count :
      (i : ℕ) (rows : Map ℕ (Job W)) → queued_count (claim_job i rows) ≤ queued_count rows
  unfolding claim_job modify queued_count
  claim_job-count i [] = omega arith
  claim_job-count i ((k, j) ∷ rows) = ground (arith, claim_job-count i rows)

  -- A job that can be claimed no more was claimed.
  claim_job-lost :
      (i k : ℕ) (rows : Map ℕ (Job W))
      → is_claimable i rows ≡ true
      → is_claimable i (claim_job k rows) ≡ false
      → queued_count (claim_job k rows) < queued_count rows
  unfolding claim_job modify queued_count get
  claim_job-lost i k [] h l = cc
  claim_job-lost i k ((n, j) ∷ rows) h l =
      ground (arith, eqb_iff n i, eqb_iff n k, claim_job-count k rows, claim_job-lost i k rows)

  claim_each-count :
      (ids : List ℕ) (rows : Map ℕ (Job W)) → queued_count (claim_each ids rows) ≤ queued_count rows
  unfolding claim_each
  claim_each-count [] rows = omega arith
  claim_each-count (k ∷ ids) rows =
      omega (arith, claim_each-count ids (claim_job k rows), claim_job-count k rows)

  claim_each-lost :
      (i : ℕ) (ids : List ℕ) (rows : Map ℕ (Job W))
      → is_claimable i rows ≡ true
      → is_claimable i (claim_each ids rows) ≡ false
      → queued_count (claim_each ids rows) < queued_count rows
  unfolding claim_each
  claim_each-lost i [] rows h l = absurd cc
  claim_each-lost i (k ∷ ids) rows h l = elim (Bool-cases (is_claimable i (claim_job k rows))) [
    | inl still ↦
        omega (arith, claim_each-lost i ids (claim_job k rows) still l, claim_job-count k rows)
    | inr gone ↦
        omega (arith, claim_each-count ids (claim_job k rows), claim_job-lost i k rows h gone)
  ]

  has-claim_each :
      (ids : List ℕ) (i : ℕ) (rows : Map ℕ (Job W)) → has i (claim_each ids rows) ≡ has i rows
  unfolding claim_each claim_job
  has-claim_each [] i rows = refl
  has-claim_each (k ∷ ids) i rows =
      has-claim_each ids i (claim_job k rows) ∙ has-modify k start_job i rows

  Distinct-claim_each :
      (ids : List ℕ) (rows : Map ℕ (Job W)) → Distinct rows → Distinct (claim_each ids rows)
  unfolding claim_each claim_job
  Distinct-claim_each [] rows d = d
  Distinct-claim_each (k ∷ ids) rows d =
      Distinct-claim_each ids (claim_job k rows) (Distinct-modify k start_job rows d)

  -- The job that is selected is there, and queued.
  pub earliest-found :
      (rows : Map ℕ (Job W)) (c : ℕ × Job W)
      → Distinct rows
      → earliest rows ≡ some c
      → get c.0 rows ≡ some c.1
  unfolding earliest get
  earliest-found [] c d e = absurd cc
  earliest-found ((i, j) ∷ rows) c d e = elim (Option-cases (earliest rows)) [
    | inl h ↦ ground (arith, h, e, eqb_iff i c.0)
    | inr (k, h) ↦
        ground (arith, h, e, eqb_iff i c.0, earliest-found rows k d.1 h, has-of_get k.0 k.1 rows)
  ]

  pub earliest-queued :
      (rows : Map ℕ (Job W)) (c : ℕ × Job W) → earliest rows ≡ some c → is_queued c.1 ≡ true
  unfolding earliest
  earliest-queued [] c e = absurd cc
  earliest-queued ((i, j) ∷ rows) c e = elim (Option-cases (earliest rows)) [
    | inl h ↦ ground (arith, h, e)
    | inr (k, h) ↦ ground (arith, h, e, earliest-queued rows k h)
  ]

  -- What a claim may come to. After the others' claims of some rounds no job is queued, and the table is
  -- as they left it. Or the earliest queued job of a round was still queued after the others' claims
  -- of that round; the table is then the one that they left, with this job set running, and the row
  -- returned is the job's.
  pub data IsClaimed (rivals : ℕ → List ℕ) (n : ℕ) (before : Map ℕ (Job W))
      : Map ℕ (Job W) → Claim W → Type 0 where
    none_queued :
        {rows : Map ℕ (Job W)} (k : ℕ)
        → rows ≡ claim_each (claimed_in rivals n k) before
        → queued_count rows ≡ 0
        → IsClaimed rivals n before rows (returns none)
    started :
        {rows : Map ℕ (Job W)} {id : ℕ} (k : ℕ) (selected j : Job W)
        → earliest (claim_each (claimed_in rivals n k) before) ≡ some (id, selected)
        → get id (claim_each (claimed_in rivals n (suc k)) before) ≡ some j
        → is_queued j ≡ true
        → rows ≡ claim_job id (claim_each (claimed_in rivals n (suc k)) before)
        → IsClaimed rivals n before rows
            (returns (some (id, record j { state = running; attempts = j.attempts + 1 })))

  claim_each-append :
      (xs ys : List ℕ) (rows : Map ℕ (Job W))
      → claim_each (xs ++ ys) rows ≡ claim_each ys (claim_each xs rows)
  unfolding claim_each
  claim_each-append [] ys rows = refl
  claim_each-append (i ∷ xs) ys rows = claim_each-append xs ys (claim_job i rows)

  -- A round goes before those that follow it.
  IsClaimed-round :
      (rivals : ℕ → List ℕ) (n : ℕ) (before : Map ℕ (Job W)) {rows : Map ℕ (Job W)} {c : Claim W}
      → IsClaimed rivals n (claim_each (rivals n) before) rows c
      → IsClaimed rivals (suc n) before rows c
  IsClaimed-round rivals n before (none_queued k e q) =
      none_queued (suc k) (e ∙ sym (claim_each-append (rivals n) (claimed_in rivals n k) before)) q
  IsClaimed-round rivals n before (started {id = id} k selected j first there free e) =
      let all = claim_each-append (rivals n) (claimed_in rivals n k) before in
      let all' = claim_each-append (rivals n) (claimed_in rivals n (suc k)) before in
      started (suc k) selected j (ap earliest all ∙ first) (ap (get id) all' ∙ there) free
        (e ∙ sym (ap (claim_job id) all'))

  claim_job-IsClaimed :
      (rivals : ℕ → List ℕ) (n : ℕ) (before : Map ℕ (Job W)) (c : ℕ × Job W)
      → earliest before ≡ some c
      → let left = claim_each (rivals n) before in
        is_claimable c.0 left ≡ true
        → IsClaimed rivals
            (suc n)
            before
            (claim_job c.0 left)
            (returns (row_of c.0 (claim_job c.0 left)))
  unfolding claim_job claim_each
  claim_job-IsClaimed rivals n before c first h =
      let left = claim_each (rivals n) before in
      elim (Option-cases (get c.0 left)) [
        | inl e ↦ absurd (ground (arith, e, h))
        | inr (j, e) ↦
            let free : is_queued j ≡ true = ground (arith, e, h) in
            let found : get c.0 (claim_job c.0 left)
                ≡ some (record j { state = running; attempts = j.attempts + 1 }) =
              ground (arith, get-modify_self c.0 start_job j left e, free) in
            let all = claim_each-append (rivals n) [] before in
            rw (row_of, found)
              (started 0 c.1 j first (ap (get c.0) all ∙ e) free (sym (ap (claim_job c.0) all)))
      ]

  claim_loop-IsClaimed :
      (n : ℕ) (rivals : ℕ → List ℕ) (rows : Map ℕ (Job W))
      → Distinct rows
      → queued_count rows < n
      → let (rows', c) = claim_loop n rivals rows in IsClaimed rivals n rows rows' c
  unfolding claim_loop claim_each
  claim_loop-IsClaimed zero rivals rows d h = absurd (omega arith)
  claim_loop-IsClaimed (suc n) rivals rows d h = elim (Option-cases (earliest rows)) [
    | inl e ↦ rw (claim_loop, e) (none_queued 0 refl (earliest-none rows e))
    | inr (c, e) ↦
        rw (claim_loop, e)
          (elim (Bool-cases (is_claimable c.0 (claim_each (rivals n) rows))) [
            | inl free ↦ rw free (claim_job-IsClaimed rivals n rows c e free)
            | inr taken ↦ rw taken (
                IsClaimed-round rivals n rows (
                  claim_loop-IsClaimed n rivals (claim_each (rivals n) rows)
                    (Distinct-claim_each (rivals n) rows d)
                    (omega (arith, claim_each-lost c.0 (rivals n) rows (free_before c e) taken))))
          ])
  ]
    where
      free_before : (c : ℕ × Job W) → earliest rows ≡ some c → is_claimable c.0 rows ≡ true
      free_before c e = rw (is_claimable, earliest-found rows c d e) (earliest-queued rows c e)

  -- Whatever jobs other pollers claim while the loop goes round, it ends within one round more than
  -- there are queued jobs. It returns no job when none is queued any more after the others' claims, and
  -- else the job that was the earliest of its round and that the others' claims up to its own UPDATE left
  -- queued: this UPDATE sets it running and counts the attempt, and nothing but it and the others'
  -- claims has changed the table.
  pub claim_loop_lem :
      (rivals : ℕ → List ℕ) (rows : Map ℕ (Job W))
      → Distinct rows
      → let (rows', c) = claim_loop (suc (queued_count rows)) rivals rows in
        IsClaimed rivals (suc (queued_count rows)) rows rows' c
  claim_loop_lem rivals rows d =
      claim_loop-IsClaimed (suc (queued_count rows)) rivals rows d (omega arith)

  -- Without other pollers the first round claims the earliest queued job.
  pub claim_loop_alone :
      (n : ℕ) (rows : Map ℕ (Job W)) (c : ℕ × Job W)
      → Distinct rows
      → earliest rows ≡ some c
      → claim_loop (suc n) (λ k. []) rows
        ≡ (claim_job c.0 rows, returns (some (c.0, start_job c.1)))
  unfolding claim_loop claim_each claim_job
  claim_loop_alone n rows c d e =
      let there = earliest-found rows c d e in
      let free = earliest-queued rows c e in
      let row = get-modify_self c.0 start_job c.1 rows there in ground (arith, e, there, free, row)

  pub claim_loop_idle :
      (n : ℕ) (rivals : ℕ → List ℕ) (rows : Map ℕ (Job W))
      → earliest rows ≡ none
      → claim_loop (suc n) rivals rows ≡ (rows, returns none)
  unfolding claim_loop
  claim_loop_idle n rivals rows e = rw (claim_loop, e) refl

  pub claim_job-count_lt :
      (i : ℕ) (j : Job W) (rows : Map ℕ (Job W))
      → get i rows ≡ some j
      → is_queued j ≡ true
      → queued_count (claim_job i rows) < queued_count rows
  unfolding claim_job
  claim_job-count_lt i j rows h q =
      let row = get-modify_self i start_job j rows h in
      claim_job-lost i i rows (ground (arith, h, q)) (ground (arith, row, q))

  pub modify-count :
      (i : ℕ) (f : Job W → Job W) (rows : Map ℕ (Job W))
      → ((j : Job W) → is_queued (f j) ≡ false)
      → queued_count (modify i f rows) ≤ queued_count rows
  unfolding modify queued_count
  modify-count i f [] h = omega arith
  modify-count i f ((k, j) ∷ rows) h = ground (arith, h j, modify-count i f rows h)

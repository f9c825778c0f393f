-- ===== src/Jobs/Table.antt =====
-- The job tables of server/src/database/adapters/sql-base.adapter.ts, by id. The two tables differ in
-- what a row carries (`work`); the columns that the pollers read and write are the same.
use montr.Base.{
  ℕ, zero, suc, ◌+◌, Text, Bool, true, false, not, ◌&&◌, ◌||◌, Option, none, some, List, [], ◌∷◌,
  eqb, ltb, nat_eq, if◌then◌else◌,
}
use montr.Base.Map.{Map, get, modify}

pub data JobState : Type 0 where
  queued running done failed duplicate : JobState

pub record Job (W : Type 0) : Type 0 where
  pub work : W
  pub state : JobState
  pub attempts : ℕ
  pub last_error : Option Text
  pub created_at : ℕ

-- What a call of `claimNext…Job` came to: the row it returns, or that it still goes round.
pub data Claim (W : Type 0) : Type 0 where
  returns : Option (ℕ × Job W) → Claim W
  goes_round : Claim W

abbrev pub is_queued_state : JobState → Bool
is_queued_state queued = true
is_queued_state _ = false

-- `error.slice(0, n)`
unfoldable pub slice_to : ℕ → Text → Text
slice_to zero s = []
slice_to (suc n) [] = []
slice_to (suc n) (c ∷ s) = c ∷ slice_to n s

abbrev pub max_error : ℕ
max_error = 2000

module _ {W : Type 0} where
  abbrev pub is_queued : Job W → Bool
  is_queued j = is_queued_state j.state

  -- `ORDER BY created_at ASC, id ASC`
  abbrev pub comes_before : ℕ × Job W → ℕ × Job W → Bool
  comes_before j k =
      ltb j.1.created_at k.1.created_at || (eqb j.1.created_at k.1.created_at && ltb j.0 k.0)

  -- `WHERE state = 'queued' ORDER BY created_at ASC, id ASC LIMIT 1`
  unfoldable pub earliest : Map ℕ (Job W) → Option (ℕ × Job W)
  earliest [] = none
  earliest (j ∷ rows) = elim (earliest rows) [
    | none ↦ if is_queued j.1 then some j else none
    | some k ↦ if is_queued j.1 && not (comes_before k j) then some j else some k
  ]

  abbrev pub is_claimable : ℕ → Map ℕ (Job W) → Bool
  is_claimable id rows = elim (get id rows) [ none ↦ false | some j ↦ is_queued j ]

  -- `SET state = 'running', attempts = attempts + 1`
  abbrev pub start_job : Job W → Job W
  start_job j = if is_queued j then record j { state = running; attempts = j.attempts + 1 } else j

  -- `UPDATE … WHERE id = … AND state = 'queued'`
  unfoldable pub claim_job : ℕ → Map ℕ (Job W) → Map ℕ (Job W)
  claim_job id rows = modify id start_job rows

  unfoldable pub claim_each : List ℕ → Map ℕ (Job W) → Map ℕ (Job W)
  unfolding claim_job
  claim_each [] rows = rows
  claim_each (id ∷ ids) rows = claim_each ids (claim_job id rows)

  abbrev pub row_of : ℕ → Map ℕ (Job W) → Option (ℕ × Job W)
  row_of id rows = elim (get id rows) [ none ↦ none | some j ↦ some (id, j) ]

  -- The loop of `claimNext…Job`. `rivals n` are the jobs that other pollers claim between the SELECT
  -- and the UPDATE of the round with `n` rounds to go.
  unfoldable pub claim_loop : ℕ → (ℕ → List ℕ) → Map ℕ (Job W) → Map ℕ (Job W) × Claim W
  unfolding earliest claim_each
  claim_loop zero rivals rows = (rows, goes_round)
  claim_loop (suc n) rivals rows =
      let again = claim_loop n rivals (claim_each (rivals n) rows) in
      elim (earliest rows) [
        | none ↦ (rows, returns none)
        | some candidate ↦
            let left = claim_each (rivals n) rows in
            let claimed = claim_job candidate.0 left in
            if is_claimable candidate.0 left
            then (claimed, returns (row_of candidate.0 claimed))
            else again
      ]

  unfoldable pub queued_count : Map ℕ (Job W) → ℕ
  queued_count [] = 0
  queued_count (j ∷ rows) = if is_queued j.1 then suc (queued_count rows) else queued_count rows

  -- `SET state = 'queued' WHERE state = 'running'`
  abbrev pub requeue_job : Job W → Job W
  requeue_job j = elim j.state [ running ↦ record j { state = queued } | _ ↦ j ]

  unfoldable pub requeue_running : Map ℕ (Job W) → Map ℕ (Job W)
  requeue_running [] = []
  requeue_running ((id, j) ∷ rows) = (id, requeue_job j) ∷ requeue_running rows

  -- `error.slice(0, 2000)` in the row of a failed job.
  unfoldable pub fail_job : ℕ → Text → Map ℕ (Job W) → Map ℕ (Job W)
  unfolding slice_to
  fail_job id error rows =
      modify id (λ j. record j { state = failed; last_error = some (slice_to max_error error) })
        rows

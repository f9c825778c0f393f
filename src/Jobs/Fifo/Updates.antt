-- ===== src/Jobs/Fifo/Updates.antt =====
-- The updates of the thumbnail_jobs table of server/src/database/adapters/sql-base.adapter.ts keep its
-- rows in line.
use montr.Base.{
  ℕ, ◌≤◌, ◌<◌, true, false, some, [], ◌∷◌, nat_eq, eqb_iff, ◌≡◌, refl, inl, inr, arith,
  Option-cases,
}
use montr.Base.Map.{Map, has, modify, Distinct}
use montr.Jobs.Table.{queued, earliest, requeue_running}
use montr.Jobs.Thumbnails.{ThumbnailJob}
use montr.Jobs.Fifo.Line.{is_over, IsAfter, IsBelow, IsOrdered}

-- The same ids and times, row by row.
abbrev pub SameTimes : Map ℕ ThumbnailJob → Map ℕ ThumbnailJob → Type 0
SameTimes [] [] = Unit
SameTimes ((k, j) ∷ rows) ((k', j') ∷ rows') =
    (k' ≡ k) × (j'.created_at ≡ j.created_at) × SameTimes rows rows'
SameTimes _ _ = ⊥

IsAfter-SameTimes :
    (i t : ℕ) (rows rows' : Map ℕ ThumbnailJob)
    → SameTimes rows rows'
    → IsAfter i t rows
    → IsAfter i t rows'
IsAfter-SameTimes i t [] [] s a = tt
IsAfter-SameTimes i t [] (r ∷ rows') s a = absurd s
IsAfter-SameTimes i t (r ∷ rows) [] s a = absurd s
IsAfter-SameTimes i t (r ∷ rows) (r' ∷ rows') s a =
    (omega (arith, s.0, a.0), omega (arith, s.1, a.1), IsAfter-SameTimes i t rows rows' s.2 a.2)

pub IsBelow-SameTimes :
    (n t : ℕ) (rows rows' : Map ℕ ThumbnailJob)
    → SameTimes rows rows'
    → IsBelow n t rows
    → IsBelow n t rows'
IsBelow-SameTimes n t [] [] s b = tt
IsBelow-SameTimes n t [] (r ∷ rows') s b = absurd s
IsBelow-SameTimes n t (r ∷ rows) [] s b = absurd s
IsBelow-SameTimes n t (r ∷ rows) (r' ∷ rows') s b =
    (omega (arith, s.0, b.0), omega (arith, s.1, b.1), IsBelow-SameTimes n t rows rows' s.2 b.2)

pub IsOrdered-SameTimes :
    (rows rows' : Map ℕ ThumbnailJob) → SameTimes rows rows' → IsOrdered rows → IsOrdered rows'
IsOrdered-SameTimes [] [] s o = tt
IsOrdered-SameTimes [] (r ∷ rows') s o = absurd s
IsOrdered-SameTimes (r ∷ rows) [] s o = absurd s
IsOrdered-SameTimes ((k, j) ∷ rows) ((k', j') ∷ rows') s o = (
  rw (s.0, s.1) (IsAfter-SameTimes k j.created_at rows rows' s.2 o.0),
  IsOrdered-SameTimes rows rows' s.2 o.1,
)

pub modify-SameTimes :
    (i : ℕ) (f : ThumbnailJob → ThumbnailJob) (rows : Map ℕ ThumbnailJob)
    → ((j : ThumbnailJob) → (f j).created_at ≡ j.created_at)
    → SameTimes rows (modify i f rows)
unfolding modify
modify-SameTimes i f [] h = tt
modify-SameTimes i f ((k, j) ∷ rows) h = ground (arith, h j, modify-SameTimes i f rows h)

pub requeue_running-SameTimes : (rows : Map ℕ ThumbnailJob) → SameTimes rows (requeue_running rows)
unfolding requeue_running
requeue_running-SameTimes [] = tt
requeue_running-SameTimes ((k, j) ∷ rows) = ground (arith, requeue_running-SameTimes rows)

-- A job that comes before all rows is none of them.
pub modify_after :
    (i t : ℕ) (f : ThumbnailJob → ThumbnailJob) (rows : Map ℕ ThumbnailJob)
    → IsAfter i t rows
    → modify i f rows ≡ rows
unfolding modify
modify_after i t f [] a = refl
modify_after i t f ((k, j) ∷ rows) a = ground (arith, eqb_iff k i, modify_after i t f rows a.2)

has_after : (i t : ℕ) (rows : Map ℕ ThumbnailJob) → IsAfter i t rows → has i rows ≡ false
unfolding has
has_after i t [] a = refl
has_after i t ((k, j) ∷ rows) a = ground (arith, eqb_iff k i, has_after i t rows a.2)

pub IsOrdered-Distinct : (rows : Map ℕ ThumbnailJob) → IsOrdered rows → Distinct rows
IsOrdered-Distinct [] o = tt
IsOrdered-Distinct ((k, j) ∷ rows) o =
    (has_after k j.created_at rows o.0, IsOrdered-Distinct rows o.1)

earliest_after :
    (i t : ℕ) (rows : Map ℕ ThumbnailJob) (c : ℕ × ThumbnailJob)
    → IsAfter i t rows
    → earliest rows ≡ some c
    → (i < c.0) × (t ≤ c.1.created_at)
unfolding earliest
earliest_after i t [] c a e = absurd cc
earliest_after i t ((k, j) ∷ rows) c a e = elim (Option-cases (earliest rows)) [
  | inl h ↦ ground (arith, h, e)
  | inr (b, h) ↦ ground (arith, h, e, earliest_after i t rows b a.2 h)
]

-- The first job that waits is the earliest.
pub earliest_first :
    (k : ℕ) (j : ThumbnailJob) (rows : Map ℕ ThumbnailJob)
    → IsAfter k j.created_at rows
    → j.state ≡ queued
    → earliest ((k, j) ∷ rows) ≡ some (k, j)
unfolding earliest
earliest_first k j rows a s = elim (Option-cases (earliest rows)) [
  | inl h ↦ ground (arith, h)
  | inr (c, h) ↦ ground (arith, h, earliest_after k j.created_at rows c a h)
]

pub earliest_over :
    (k : ℕ) (j : ThumbnailJob) (rows : Map ℕ ThumbnailJob)
    → is_over j.state ≡ true
    → earliest ((k, j) ∷ rows) ≡ earliest rows
unfolding earliest
earliest_over k j rows o = ground arith

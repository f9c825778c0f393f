-- ===== src/Jobs/Fifo/Steps.antt =====
-- The steps of the poller of server/src/services/thumbnail-queue.service.ts on a table whose rows are in
-- line.
use montr.Base.{
  ℕ, true, Option, none, some, List, [], ◌∷◌, nat_eq, eqb_iff, ◌≡◌, refl, inl, inr, arith,
  Bool-cases, ◌==◌, beq_refl, ◌∙◌, subst,
}
use montr.Base.Map.{Map, modify}
use montr.Jobs.Table.{earliest, start_job, claim_job, requeue_running}
use montr.Jobs.Thumbnails.{ThumbnailJob}
use montr.Jobs.Fifo.Line.{is_over, IsAfter, IsOrdered, IsWaiting, IsFront, IsLine}
use montr.Jobs.Fifo.Updates.{modify_after, earliest_first, earliest_over}

pub IsWaiting-IsLine :
    (ms : List ℕ) (rows : Map ℕ ThumbnailJob) → IsWaiting ms rows → IsLine none none ms rows
IsWaiting-IsLine ms [] h = h
IsWaiting-IsLine ms (r ∷ rows) h = inr h

-- The table when nothing waits.
pub earliest-none_waiting :
    (rows : Map ℕ ThumbnailJob) → IsLine none none [] rows → earliest rows ≡ none
unfolding earliest
earliest-none_waiting [] l = refl
earliest-none_waiting ((k, j) ∷ rows) l = elim l [
  | inl (o, l') ↦ earliest_over k j rows o ∙ earliest-none_waiting rows l'
  | inr w ↦ absurd w
]

abbrev pub Differ : Option ℕ → Option ℕ → Type 0
Differ none (some m) = Unit
Differ (some i) none = Unit
Differ _ _ = ⊥

-- A line has a job in flight exactly when the queue has one.
pub one_only :
    (rows : Map ℕ ThumbnailJob) (f c : Option ℕ) (ms : List ℕ) → Differ f c → IsLine f c ms rows → ⊥
one_only rows none none ms d l = d
one_only rows (some i) (some m) ms d l = d
one_only [] none (some m) ms d l = l
one_only [] (some i) none ms d l = l
one_only ((k, j) ∷ rows) none (some m) ms d l = elim l [
  | inl (v, l') ↦ one_only rows none (some m) ms d l'
  | inr w ↦ w
]
one_only ((k, j) ∷ rows) (some i) none ms d l = elim l [
  | inl (v, l') ↦ one_only rows (some i) none ms d l'
  | inr w ↦ w
]

-- What the claim of the media `m`, the first in line, does.
abbrev pub IsClaimOf : ℕ → List ℕ → Map ℕ ThumbnailJob → ℕ × ThumbnailJob → Type 0
IsClaimOf m ms rows c =
    (earliest rows ≡ some c) × (c.1.work ≡ m) × IsLine (some c.0) (some m) ms (claim_job c.0 rows)

claim_front :
    (m k : ℕ) (j : ThumbnailJob) (ms : List ℕ) (rows : Map ℕ ThumbnailJob)
    → IsAfter k j.created_at rows
    → IsWaiting (m ∷ ms) ((k, j) ∷ rows)
    → IsClaimOf m ms ((k, j) ∷ rows) (k, j)
unfolding claim_job modify
claim_front m k j ms rows a w = (
  earliest_first k j rows a w.0,
  w.1,
  rw (modify_after k j.created_at start_job rows a) (ground (arith, w, beq_refl k)),
)

claim_behind :
    (m k : ℕ) (j : ThumbnailJob) (ms : List ℕ) (rows : Map ℕ ThumbnailJob) (c : ℕ × ThumbnailJob)
    → is_over j.state ≡ true
    → IsClaimOf m ms rows c
    → IsClaimOf m ms ((k, j) ∷ rows) c
unfolding claim_job modify
claim_behind m k j ms rows c o h = (earliest_over k j rows o ∙ h.0, h.1, ground (arith, o, h.2))

pub claim_line :
    (m : ℕ) (ms : List ℕ) (rows : Map ℕ ThumbnailJob)
    → IsOrdered rows
    → IsLine none none (m ∷ ms) rows
    → (c : ℕ × ThumbnailJob) × IsClaimOf m ms rows c
claim_line m ms [] o l = absurd l
claim_line m ms ((k, j) ∷ rows) o l = elim l [
  | inl (v, l') ↦ let (c, h) = claim_line m ms rows o.1 l' in (c, claim_behind m k j ms rows c v h)
  | inr w ↦ ((k, j), claim_front m k j ms rows o.0 w)
]

module _ (f : ThumbnailJob → ThumbnailJob)
    (over : (j : ThumbnailJob) → is_over (f j).state ≡ true) where
  end_front :
      (i m : ℕ) (ms : List ℕ) (k : ℕ) (j : ThumbnailJob) (rows : Map ℕ ThumbnailJob)
      → IsAfter k j.created_at rows
      → IsFront (some i) (some m) ms ((k, j) ∷ rows)
      → IsLine none none ms (modify i f ((k, j) ∷ rows))
  unfolding modify
  end_front i m ms k j rows a w =
      let same : (k == i) ≡ true = ground (arith, w.0, eqb_iff k i) in
      let kept : modify i f rows ≡ rows =
        modify_after i j.created_at f rows (subst (λ n. IsAfter n j.created_at rows) w.0 a) in
      rw (same, kept) (inl (over j, IsWaiting-IsLine ms rows w.3))

  -- The job that runs is over: those that wait are next.
  pub end-IsLine :
      (i m : ℕ) (ms : List ℕ) (rows : Map ℕ ThumbnailJob)
      → IsOrdered rows
      → IsLine (some i) (some m) ms rows
      → IsLine none none ms (modify i f rows)
  unfolding modify
  end-IsLine i m ms [] o l = absurd l
  end-IsLine i m ms ((k, j) ∷ rows) o l = elim l [
    | inl (v, l') ↦
        let ended = end-IsLine i m ms rows o.1 l' in
        elim (Bool-cases (k == i)) [
          | inl same ↦ rw same (inl (over j, ended))
          | inr differs ↦ rw differs (inl (v, ended))
        ]
    | inr w ↦ end_front i m ms k j rows o.0 w
  ]

requeue-IsWaiting :
    (ms : List ℕ) (rows : Map ℕ ThumbnailJob)
    → IsWaiting ms rows
    → IsWaiting ms (requeue_running rows)
unfolding requeue_running
requeue-IsWaiting [] [] w = w
requeue-IsWaiting [] (r ∷ rows) w = absurd w
requeue-IsWaiting (m ∷ ms) [] w = absurd w
requeue-IsWaiting (m ∷ ms) ((k, j) ∷ rows) w = ground (arith, w, requeue-IsWaiting ms rows w.2)

pub requeue_idle :
    (ms : List ℕ) (rows : Map ℕ ThumbnailJob)
    → IsLine none none ms rows
    → IsLine none none ms (requeue_running rows)
unfolding requeue_running
requeue_idle ms [] l = l
requeue_idle ms ((k, j) ∷ rows) l = elim l [
  | inl (v, l') ↦ inl (ground (arith, v), requeue_idle ms rows l')
  | inr w ↦ inr (requeue-IsWaiting ms ((k, j) ∷ rows) w)
]

-- The job that was cut off waits again, before all others.
pub requeue_busy :
    (i m : ℕ) (ms : List ℕ) (rows : Map ℕ ThumbnailJob)
    → IsLine (some i) (some m) ms rows
    → IsLine none none (m ∷ ms) (requeue_running rows)
unfolding requeue_running
requeue_busy i m ms [] l = absurd l
requeue_busy i m ms ((k, j) ∷ rows) l = elim l [
  | inl (v, l') ↦ inl (ground (arith, v), requeue_busy i m ms rows l')
  | inr w ↦ inr (ground (arith, w, requeue-IsWaiting ms rows w.3))
]

-- ===== src/Jobs/Fifo/Line.antt =====
-- The rows of the thumbnail_jobs table of server/src/database/adapters/sql-base.adapter.ts, in the order
-- of their ids: first those that are over, then the one that is running, then those that wait.
use montr.Base.{
  ℕ, ◌+◌, ◌≤◌, ◌<◌, Bool, true, false, Option, none, some, List, [], ◌∷◌, ◌++◌, nat_eq, eqb_iff,
  ◌≡◌, refl, ◌⊎◌, inl, inr, arith,
}
use montr.Base.Map.{Map, set}
use montr.Jobs.Table.{JobState, queued, running}
use montr.Jobs.Thumbnails.{ThumbnailJob}

abbrev pub is_over : JobState → Bool
is_over queued = false
is_over running = false
is_over _ = true

-- The rows that follow a job of this id and time.
abbrev pub IsAfter : ℕ → ℕ → Map ℕ ThumbnailJob → Type 0
IsAfter i t [] = Unit
IsAfter i t ((k, j) ∷ rows) = (i < k) × (t ≤ j.created_at) × IsAfter i t rows

abbrev pub IsBelow : ℕ → ℕ → Map ℕ ThumbnailJob → Type 0
IsBelow n t [] = Unit
IsBelow n t ((k, j) ∷ rows) = (k < n) × (j.created_at ≤ t) × IsBelow n t rows

abbrev pub IsOrdered : Map ℕ ThumbnailJob → Type 0
IsOrdered [] = Unit
IsOrdered ((k, j) ∷ rows) = IsAfter k j.created_at rows × IsOrdered rows

-- The rows wait, with these media.
abbrev pub IsWaiting : List ℕ → Map ℕ ThumbnailJob → Type 0
IsWaiting [] [] = Unit
IsWaiting (m ∷ ms) ((k, j) ∷ rows) = (j.state ≡ queued) × (j.work ≡ m) × IsWaiting ms rows
IsWaiting _ _ = ⊥

-- The rows after those that are over.
abbrev pub IsFront : Option ℕ → Option ℕ → List ℕ → Map ℕ ThumbnailJob → Type 0
IsFront none none ms rows = IsWaiting ms rows
IsFront (some i) (some m) ms ((k, j) ∷ rows) =
    (k ≡ i) × (j.state ≡ running) × (j.work ≡ m) × IsWaiting ms rows
IsFront _ _ ms rows = ⊥

abbrev pub IsLine : Option ℕ → Option ℕ → List ℕ → Map ℕ ThumbnailJob → Type 0
IsLine f c ms [] = IsFront f c ms []
IsLine f c ms ((k, j) ∷ rows) =
    ((is_over j.state ≡ true) × IsLine f c ms rows) ⊎ IsFront f c ms ((k, j) ∷ rows)

-- A new row comes last.
pub set_fresh :
    (n t : ℕ) (j : ThumbnailJob) (rows : Map ℕ ThumbnailJob)
    → IsBelow n t rows
    → set n j rows ≡ rows ++ (n, j) ∷ []
unfolding set
set_fresh n t j [] b = refl
set_fresh n t j ((k, h) ∷ rows) b = ground (arith, eqb_iff k n, set_fresh n t j rows b.2)

IsWaiting-append :
    (n m : ℕ) (j : ThumbnailJob) (ms : List ℕ) (rows : Map ℕ ThumbnailJob)
    → j.state ≡ queued
    → j.work ≡ m
    → IsWaiting ms rows
    → IsWaiting (ms ++ m ∷ []) (rows ++ (n, j) ∷ [])
IsWaiting-append n m j [] [] s w h = (s, w, tt)
IsWaiting-append n m j [] (r ∷ rows) s w h = absurd h
IsWaiting-append n m j (x ∷ ms) [] s w h = absurd h
IsWaiting-append n m j (x ∷ ms) ((k, i) ∷ rows) s w h =
    (h.0, h.1, IsWaiting-append n m j ms rows s w h.2)

IsFront-append :
    (f c : Option ℕ) (n m : ℕ) (j : ThumbnailJob) (ms : List ℕ) (rows : Map ℕ ThumbnailJob)
    → j.state ≡ queued
    → j.work ≡ m
    → IsFront f c ms rows
    → IsFront f c (ms ++ m ∷ []) (rows ++ (n, j) ∷ [])
IsFront-append none none n m j ms rows s w h = IsWaiting-append n m j ms rows s w h
IsFront-append none (some x) n m j ms rows s w h = absurd h
IsFront-append (some i) none n m j ms rows s w h = absurd h
IsFront-append (some i) (some x) n m j ms [] s w h = absurd h
IsFront-append (some i) (some x) n m j ms ((k, y) ∷ rows) s w h =
    (h.0, h.1, h.2, IsWaiting-append n m j ms rows s w h.3)

pub IsLine-append :
    (f c : Option ℕ) (n m : ℕ) (j : ThumbnailJob) (ms : List ℕ) (rows : Map ℕ ThumbnailJob)
    → j.state ≡ queued
    → j.work ≡ m
    → IsLine f c ms rows
    → IsLine f c (ms ++ m ∷ []) (rows ++ (n, j) ∷ [])
IsLine-append f c n m j ms [] s w h = inr (IsFront-append f c n m j ms [] s w h)
IsLine-append f c n m j ms ((k, i) ∷ rows) s w h = elim h [
  | inl (o, l) ↦ inl (o, IsLine-append f c n m j ms rows s w l)
  | inr l ↦ inr (IsFront-append f c n m j ms ((k, i) ∷ rows) s w l)
]

IsAfter-append :
    (i t n : ℕ) (j : ThumbnailJob) (rows : Map ℕ ThumbnailJob)
    → i < n
    → t ≤ j.created_at
    → IsAfter i t rows
    → IsAfter i t (rows ++ (n, j) ∷ [])
IsAfter-append i t n j [] hi ht a = (hi, ht, tt)
IsAfter-append i t n j (r ∷ rows) hi ht a = (a.0, a.1, IsAfter-append i t n j rows hi ht a.2)

pub IsOrdered-append :
    (n t : ℕ) (j : ThumbnailJob) (rows : Map ℕ ThumbnailJob)
    → t ≤ j.created_at
    → IsBelow n t rows
    → IsOrdered rows
    → IsOrdered (rows ++ (n, j) ∷ [])
IsOrdered-append n t j [] h b o = (tt, tt)
IsOrdered-append n t j ((k, i) ∷ rows) h b o = (
  IsAfter-append k i.created_at n j rows b.0 (omega (arith, b.1)) o.0,
  IsOrdered-append n t j rows h b.2 o.1,
)

pub IsBelow-append :
    (n t : ℕ) (j : ThumbnailJob) (rows : Map ℕ ThumbnailJob)
    → t ≤ j.created_at
    → IsBelow n t rows
    → IsBelow (n + 1) j.created_at (rows ++ (n, j) ∷ [])
IsBelow-append n t j [] h b = (omega arith, omega arith, tt)
IsBelow-append n t j ((k, i) ∷ rows) h b =
    (omega (arith, b.0), omega (arith, b.1), IsBelow-append n t j rows h b.2)

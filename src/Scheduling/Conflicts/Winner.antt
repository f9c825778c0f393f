-- ===== src/Scheduling/Conflicts/Winner.antt =====
-- server/src/services/scheduling/conflict-resolver.ts: who wins a target, and who loses it.
use mathlib.Core.List.{Mem, Perm, perm_middle, append-nil, append_assoc}
use mathlib.Core.List.{not-mem-nil, mem-cons, mem-cons_self, mem-cons_of_mem}
use mathlib.Core.List.Perm
use mathlib.Core.Logic.Or
use mathlib.Core.Path.{subst}
use montr.Base.{
  ◌<◌, ◌≤◌, ◌⊎◌, Text, true, false, Option, none, some, List, [], ◌∷◌, ◌++◌, filter, text_eq, arith,
  ◌≡◌, refl, ap, sym, ◌∙◌, if◌then◌else◌, All, Bool-cases, inl, inr, ◌==◌,
}
use montr.Base.Map.{Map, get, set, Distinct, get-set, get-of_has-false, Distinct-set}
use montr.Scheduling.Types.{Schedule}
use montr.Scheduling.Conflicts.{
  target_key_for, goes_before, insert, sort_from, sort, or_empty, bucket_all, Resolution, settle,
  settle_all, resolve_conflicts,
}

goes_before_irrefl : (s : Schedule) → goes_before s s ≡ false
unfolding goes_before
goes_before_irrefl s = ground arith

-- What does not go before `t` does not go before what goes before `t`.
goes_before_trans :
    (s t u : Schedule) → goes_before s t ≡ true → goes_before u t ≡ false → goes_before u s ≡ false
unfolding goes_before
goes_before_trans s t u h k = ground arith

insert-Perm : (s : Schedule) (ts : List Schedule) → Perm (insert s ts) (s ∷ ts)
unfolding insert
insert-Perm s [] = Perm.refl (s ∷ [])
insert-Perm s (t ∷ ts) = elim (Bool-cases (goes_before s t)) [
  | inl h ↦ rw h (Perm.refl (s ∷ t ∷ ts))
  | inr h ↦ rw h (Perm.trans (Perm.cons t (insert-Perm s ts)) (Perm.swap s t ts))
]

sort_from-Perm : (ts ss : List Schedule) → Perm (sort_from ts ss) (ts ++ ss)
unfolding sort_from
sort_from-Perm ts [] = rw append-nil (Perm.refl ts)
sort_from-Perm ts (s ∷ ss) =
    Perm.trans (sort_from-Perm (insert s ts) ss)
      (Perm.trans (Perm.append (insert-Perm s ts) (Perm.refl ss)) (Perm.symm (perm_middle ts ss)))

-- Nobody in the list goes before its first schedule.
abbrev HeadBest : List Schedule → Type 0
HeadBest [] = Unit
HeadBest (w ∷ ts) = All (λ s. goes_before s w ≡ false) ts

insert-All :
    (P : Schedule → Type 0) (s : Schedule) (ts : List Schedule)
    → P s
    → All P ts
    → All P (insert s ts)
unfolding insert
insert-All P s [] p a = (p, tt)
insert-All P s (t ∷ ts) p a = ground (arith, insert-All P s ts p a.1)

below_first :
    (s t : Schedule) (ts : List Schedule)
    → goes_before s t ≡ true
    → All (λ u. goes_before u t ≡ false) ts
    → All (λ u. goes_before u s ≡ false) ts
below_first s t [] h a = tt
below_first s t (u ∷ ts) h a = (goes_before_trans s t u h a.0, below_first s t ts h a.1)

insert-HeadBest : (s : Schedule) (ts : List Schedule) → HeadBest ts → HeadBest (insert s ts)
unfolding insert
insert-HeadBest s [] b = tt
insert-HeadBest s (t ∷ ts) b = elim (Bool-cases (goes_before s t)) [
  | inl h ↦ rw h (goes_before_trans s t t h (goes_before_irrefl t), below_first s t ts h b)
  | inr h ↦ rw h (insert-All (λ u. goes_before u t ≡ false) s ts h b)
]

sort_from-HeadBest : (ts ss : List Schedule) → HeadBest ts → HeadBest (sort_from ts ss)
unfolding sort_from
sort_from-HeadBest ts [] b = b
sort_from-HeadBest ts (s ∷ ss) b = sort_from-HeadBest (insert s ts) ss (insert-HeadBest s ts b)

sort-nil : sort [] ≡ []
unfolding sort sort_from
sort-nil = refl

-- The schedules of a target, in order.
abbrev pub targeting : Text → List Schedule → List Schedule
targeting k ss = filter (λ s. target_key_for s == k) ss

bucket_all-get :
    (k : Text) (buckets : Map Text (List Schedule)) (ss : List Schedule)
    → or_empty (get k (bucket_all buckets ss)) ≡ or_empty (get k buckets) ++ targeting k ss
unfolding bucket_all
bucket_all-get k buckets [] = sym (append-nil _)
bucket_all-get k buckets (s ∷ ss) =
    let key = target_key_for s in
    let bucket = or_empty (get key buckets) ++ s ∷ [] in
    let ih = bucket_all-get k (set key bucket buckets) ss in
    elim (Bool-cases (key == k)) [
      | inl same ↦ ground (
        arith,
        ih,
        get-set key k bucket buckets,
        append_assoc (or_empty (get key buckets)) (s ∷ []) (targeting k ss),
        ap (λ j. get j buckets) ((text_eq.beq_iff key k).0 same),
      )
      | inr differs ↦ ground (arith, ih, get-set key k bucket buckets)
    ]

bucket_all-Distinct :
    (buckets : Map Text (List Schedule)) (ss : List Schedule)
    → Distinct buckets
    → Distinct (bucket_all buckets ss)
unfolding bucket_all
bucket_all-Distinct buckets [] d = d
bucket_all-Distinct buckets (s ∷ ss) d =
    bucket_all-Distinct (set (target_key_for s) _ buckets) ss
      (Distinct-set (target_key_for s) _ buckets d)

abbrev pub head_or : Option Schedule → List Schedule → Option Schedule
head_or default [] = default
head_or default (w ∷ ls) = some w

abbrev pub tail_or : Option (List Schedule) → List Schedule → Option (List Schedule)
tail_or default [] = default
tail_or default (w ∷ []) = default
tail_or default (w ∷ l ∷ ls) = some (l ∷ ls)

settle-get :
    (k key : Text) (bucket : List Schedule) (r : Resolution)
    → (get k (settle key bucket r).winners
        ≡ (if key == k then head_or (get k r.winners) bucket else get k r.winners))
      × (get k (settle key bucket r).losers
          ≡ (if key == k then tail_or (get k r.losers) bucket else get k r.losers))
settle-get k key [] r = ground arith
settle-get k key (w ∷ []) r = ground (arith, get-set key k w r.winners)
settle-get k key (w ∷ l ∷ ls) r =
    ground (arith, get-set key k w r.winners, get-set key k (l ∷ ls) r.losers)

settle_all-get :
    (k : Text) (buckets : Map Text (List Schedule)) (r : Resolution)
    → Distinct buckets
    → (get k (settle_all buckets r).winners
        ≡ head_or (get k r.winners) (sort (or_empty (get k buckets))))
      × (get k (settle_all buckets r).losers
          ≡ tail_or (get k r.losers) (sort (or_empty (get k buckets))))
unfolding settle_all get
settle_all-get k [] r d = (rw sort-nil, rw sort-nil)
settle_all-get k ((key, bucket) ∷ buckets) r d =
    let one = settle-get k key (sort bucket) r in
    let ih = settle_all-get k buckets (settle key (sort bucket) r) d.1 in
    elim (Bool-cases (key == k)) [
      | inl same ↦
          let absent : get k buckets ≡ none =
            ap (λ j. get j buckets) (sym ((text_eq.beq_iff key k).0 same))
            ∙ get-of_has-false key buckets d.0 in
          ground (arith, one, ih, absent, sort-nil)
      | inr differs ↦ ground (arith, one, ih)
    ]

-- A target's winner and losers are the first and the others of its schedules, sorted.
resolve_conflicts-get :
    (k : Text) (ss : List Schedule)
    → (get k (resolve_conflicts ss).winners ≡ head_or none (sort (targeting k ss)))
      × (get k (resolve_conflicts ss).losers ≡ tail_or none (sort (targeting k ss)))
unfolding resolve_conflicts get
resolve_conflicts-get k ss =
    let buckets = bucket_all [] ss in
    let found =
      settle_all-get k buckets (record { winners = []; losers = [] })
        (bucket_all-Distinct [] ss tt) in
    let same = ap sort (bucket_all-get k [] ss) in
    (found.0 ∙ ap (head_or none) same, found.1 ∙ ap (tail_or none) same)

abbrev pub to_list : Option Schedule → List Schedule
to_list none = []
to_list (some s) = s ∷ []

settled_all : (ss : List Schedule) → to_list (head_or none ss) ++ or_empty (tail_or none ss) ≡ ss
settled_all [] = refl
settled_all (w ∷ []) = refl
settled_all (w ∷ l ∷ ls) = refl

sort-Perm : (ss : List Schedule) → Perm (sort ss) ss
unfolding sort
sort-Perm ss = sort_from-Perm [] ss

-- Every schedule that matches is, as often as it matches, the winner of its target or among the
-- losers of its target, and nobody else is.
pub resolve_conflicts-Perm :
    (k : Text) (ss : List Schedule)
    → Perm
        (to_list (get k (resolve_conflicts ss).winners)
          ++ or_empty (get k (resolve_conflicts ss).losers))
        (targeting k ss)
resolve_conflicts-Perm k ss =
    let found = resolve_conflicts-get k ss in
    rw found.0 (rw found.1 (rw settled_all (sort-Perm (targeting k ss))))

All-mem :
    (P : Schedule → Type 0) (s : Schedule) (ts : List Schedule)
    → IsProp (P s)
    → All P ts
    → Mem s ts
    → P s
All-mem P s [] p a m = absurd (not-mem-nil m)
All-mem P s (t ∷ ts) p a m =
    Or.elim p (mem-cons.0 m) (λ e. subst P (sym e) a.0) (All-mem P s ts p a.1)

mem-targeting :
    (k : Text) (s : Schedule) (ss : List Schedule)
    → target_key_for s ≡ k
    → Mem s ss
    → Mem s (targeting k ss)
mem-targeting k s [] e m = m
mem-targeting k s (t ∷ ss) e m = elim (Bool-cases (target_key_for t == k)) [
  | inl h ↦ rw h (
      Or.elim squash₁ (mem-cons.0 m) (λ same. rw same mem-cons_self)
        (λ m'. mem-cons_of_mem t (mem-targeting k s ss e m')))
  | inr h ↦ rw h (
      Or.elim squash₁ (mem-cons.0 m)
        (λ same.
          absurd (ground (arith, ap target_key_for same, text_eq.beq_iff (target_key_for t) k)))
        (λ m'. mem-targeting k s ss e m'))
]

best_of_list :
    (w s : Schedule) (l : List Schedule)
    → HeadBest l
    → head_or none l ≡ some w
    → Mem s l
    → goes_before s w ≡ false
best_of_list w s [] b h m = cc
best_of_list w s (x ∷ l) b h m =
    subst (λ v. goes_before s v ≡ false) (one h)
      (All-mem (λ u. goes_before u x ≡ false) s (x ∷ l) (hlevel) (goes_before_irrefl x, b) m)
  where
    one : some x ≡ some w → x ≡ w
    one e = cc

best_of_sorted :
    (w s : Schedule) (ss : List Schedule)
    → head_or none (sort ss) ≡ some w
    → Mem s ss
    → goes_before s w ≡ false
unfolding sort
best_of_sorted w s ss h m =
    best_of_list w s (sort ss) (sort_from-HeadBest [] ss tt) h ((Perm.mem_iff (sort-Perm ss)).1 m)

order_of :
    (s w : Schedule)
    → goes_before s w ≡ false
    → (s.priority < w.priority) ⊎ ((s.priority ≡ w.priority) × (w.id ≤ s.id))
unfolding goes_before
order_of s w h = ground arith

mem_back :
    (k : Text) (w : Schedule) (ss : List Schedule)
    → Mem w (targeting k ss)
    → Mem w ss × (target_key_for w ≡ k)
mem_back k w [] m = absurd (not-mem-nil m)
mem_back k w (t ∷ ss) m = elim (Bool-cases (target_key_for t == k)) [
  | inl h ↦
      Or.elim (hlevel) (mem-cons.0 (rw h at m))
        (λ same. (
          rw same mem-cons_self,
          ap target_key_for same ∙ (text_eq.beq_iff (target_key_for t) k).0 h,
        ))
        (λ m'. let r = mem_back k w ss m' in (mem-cons_of_mem t r.0, r.1))
  | inr h ↦ let r = mem_back k w ss (rw h at m) in (mem-cons_of_mem t r.0, r.1)
]

first_of :
    (s : Schedule) (l : List Schedule)
    → Mem s l
    → (w : Schedule) × (head_or none l ≡ some w) × Mem w l
first_of s [] m = absurd (not-mem-nil m)
first_of s (x ∷ l) m = (x, refl, mem-cons_self)

-- A target that has a schedule has a winner, which is one of the matching schedules of this target; and
-- any schedule of the target has a lower priority than the winner, or the same priority and an id that
-- is not smaller.
pub resolve_conflicts-best :
    (k : Text) (ss : List Schedule) (s : Schedule)
    → Mem s ss
    → target_key_for s ≡ k
    → (w : Schedule) × (get k (resolve_conflicts ss).winners ≡ some w)
      × Mem w ss
      × (target_key_for w ≡ k)
      × ((s.priority < w.priority) ⊎ ((s.priority ≡ w.priority) × (w.id ≤ s.id)))
resolve_conflicts-best k ss s m e =
    let sorted = sort-Perm (targeting k ss) in
    let among = mem-targeting k s ss e m in
    let (w, first, m') = first_of s (sort (targeting k ss)) ((Perm.mem_iff sorted).1 among) in
    let own = mem_back k w ss ((Perm.mem_iff sorted).0 m') in
    (
      w,
      (resolve_conflicts-get k ss).0 ∙ first,
      own.0,
      own.1,
      order_of s w (best_of_sorted w s (targeting k ss) first among),
    )

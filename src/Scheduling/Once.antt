-- ===== src/Scheduling/Once.antt =====
-- server/src/services/schedule.service.ts: the key of `lastTriggered` holds the hour and the minute,
-- and not the date.
use mathlib.Core.Path.{ap₂}
use montr.Base.{
  ℕ, ◌<◌, Text, true, Option, none, some, List, [], ◌∷◌, filter, ◌≡◌, ◌≢◌, refl, arith, text_eq,
  nat_eq, All, inl, inr, ◌⊎◌, ap, sym, ◌∙◌, Bool-cases, ◌==◌, eqb_iff, beq_refl,
}
use montr.Base.Map.{Map, get, set, get-set}
use montr.Scheduling.Types.{Schedule, Date, CronLibrary, HolidayLibrary, truthy_text}
use montr.Scheduling.Activation.{triggers, find_triggering, starts_now, current_time}
use montr.Scheduling.Activation.Daily.{hhmm, hhmm-injective}
use montr.Scheduling.Service.{minute_text, minute_key, is_key, keep_new, tick_triggers}

-- No schedule of the list has the id.
abbrev pub Without : ℕ → List Schedule → Type 0
Without id ss = All (λ s. s.id ≢ id) ss

is_key_self : (key : Text) (o : Option Text) → o ≡ some key → is_key key o ≡ true
is_key_self key o h = rw h (beq_refl key)

-- What has the key already is not kept, and has it still.
keep_new-fired :
    (key : Text) (id : ℕ) (ss : List Schedule) (last : Map ℕ Text)
    → get id last ≡ some key
    → Without id (keep_new key ss last).1 × (get id (keep_new key ss last).0 ≡ some key)
unfolding keep_new
keep_new-fired key id [] last h = (tt, h)
keep_new-fired key id (s ∷ ss) last h = elim (Bool-cases (is_key key (get s.id last))) [
  | inl old ↦ rw (old, keep_new) (keep_new-fired key id ss last h)
  | inr new ↦
      let ih =
        keep_new-fired key id ss (set s.id key last) (ground (arith, get-set s.id id key last)) in
      rw (new, keep_new)
        (
          (λ e. ground (arith, is_key_self key (get s.id last) (ap (λ i. get i last) e ∙ h)), ih.0),
          ih.1,
        )
]

keep_new-Without :
    (key : Text) (id : ℕ) (ss : List Schedule) (last : Map ℕ Text)
    → Without id ss
    → Without id (keep_new key ss last).1 × (get id (keep_new key ss last).0 ≡ get id last)
unfolding keep_new
keep_new-Without key id [] last a = (tt, refl)
keep_new-Without key id (s ∷ ss) last a = elim (Bool-cases (is_key key (get s.id last))) [
  | inl old ↦ rw (old, keep_new) (keep_new-Without key id ss last a.1)
  | inr new ↦
      let ih = keep_new-Without key id ss (set s.id key last) a.1 in
      rw (new, keep_new)
        ((a.0, ih.0), ih.1 ∙ ground (arith, get-set s.id id key last, eqb_iff s.id id, a.0))
]

-- A daily schedule: no cron expression, and a start at `h:m`.
abbrev pub IsDailyAt : ℕ → ℕ → Schedule → Type 0
IsDailyAt h m s = (s.cron_expression ≡ none) × (s.start_time ≡ some (hhmm h m))

abbrev pub IsTime : Date → Type 0
IsTime d = (d.hours < 24) × (d.minutes < 60)

current_time-hhmm : (now : Date) → current_time now ≡ hhmm now.hours now.minutes
unfolding current_time
current_time-hhmm now = refl

module _ (cron : CronLibrary) (holidays : HolidayLibrary) where
  triggers-starts :
      (s : Schedule) (now : Date)
      → triggers cron holidays s now ≡ true
      → starts_now cron holidays s now (truthy_text s.cron_expression) ≡ true
  unfolding triggers
  triggers-starts s now t = ground arith

  -- A daily schedule triggers in its start minute only.
  triggers-daily :
      (h m : ℕ) (s : Schedule) (now : Date)
      → h < 24
      → m < 60
      → IsTime now
      → IsDailyAt h m s
      → triggers cron holidays s now ≡ true
      → minute_key now ≡ minute_text h m
  triggers-daily h m s now ph pm q d t =
      let starts = triggers-starts s now t in
      let same : (hhmm h m == current_time now) ≡ true = ground (arith, starts, d.0, d.1) in
      let e = (text_eq.beq_iff (hhmm h m) (current_time now)).0 same ∙ current_time-hhmm now in
      let (eh, em) = hhmm-injective h m now.hours now.minutes ph pm q.0 q.1 e in
      ap₂ minute_text (sym eh) (sym em)

  -- Among the schedules of an id that are all daily, those that trigger do so in their start minute.
  filter-Without :
      (h m id : ℕ) (now : Date)
      → h < 24
      → m < 60
      → IsTime now
      → minute_key now ≢ minute_text h m
      → (ss : List Schedule) → All (λ s. (s.id ≢ id) ⊎ IsDailyAt h m s) ss
      → Without id (filter (λ s. triggers cron holidays s now) ss)
  filter-Without h m id now ph pm q other [] a = tt
  filter-Without h m id now ph pm q other (s ∷ ss) a =
      let ih = filter-Without h m id now ph pm q other ss a.1 in
      elim (Bool-cases (triggers cron holidays s now)) [
        | inr no' ↦ rw no' ih
        | inl fires ↦ elim a.0 [
          | inl ne ↦ rw fires (ne, ih)
          | inr d ↦ absurd (other (triggers-daily h m s now ph pm q d fires))
        ]
      ]

  tick-Without :
      (h m id : ℕ) (schedules : List Schedule) (now : Date) (last : Map ℕ Text)
      → h < 24
      → m < 60
      → IsTime now
      → All (λ s. (s.id ≢ id) ⊎ IsDailyAt h m s) schedules
      → get id last ≡ some (minute_text h m)
      → Without id (tick_triggers cron holidays schedules now last).1
        × (get id (tick_triggers cron holidays schedules now last).0 ≡ some (minute_text h m))
  unfolding tick_triggers find_triggering
  tick-Without h m id schedules now last ph pm q a fired =
      let ss = filter (λ s. triggers cron holidays s now) schedules in
      elim (Bool-cases (minute_key now == minute_text h m)) [
        | inl same ↦
            let e = (text_eq.beq_iff (minute_key now) (minute_text h m)).0 same in
            rw e (keep_new-fired (minute_text h m) id ss last fired)
        | inr differs ↦
            let other : minute_key now ≢ minute_text h m =
              λ e. ground (arith, (text_eq.beq_iff (minute_key now) (minute_text h m)).1 e) in
            let kept =
              keep_new-Without (minute_key now) id ss last
                (filter-Without h m id now ph pm q other schedules a) in
            (kept.0, kept.1 ∙ fired)
      ]

  -- The schedules that each of a sequence of ticks goes on with.
  pub run_ticks : List Schedule → List Date → Map ℕ Text → List (List Schedule)
  run_ticks schedules [] last = []
  run_ticks schedules (now ∷ later) last =
      let (last', kept) = tick_triggers cron holidays schedules now last in
      kept ∷ run_ticks schedules later last'

  -- Once a daily schedule has fired, no later tick on any later day fires it again: the schedules that
  -- any sequence of ticks goes on with leave out its id, if its id belongs to no other kind of schedule.
  pub daily_schedule-fires_once :
      (h m id : ℕ) (schedules : List Schedule) (ticks : List Date) (last : Map ℕ Text)
      → h < 24
      → m < 60
      → All IsTime ticks
      → All (λ s. (s.id ≢ id) ⊎ IsDailyAt h m s) schedules
      → get id last ≡ some (minute_text h m)
      → All (Without id) (run_ticks schedules ticks last)
  unfolding run_ticks
  daily_schedule-fires_once h m id schedules [] last ph pm q a fired = tt
  daily_schedule-fires_once h m id schedules (now ∷ ticks) last ph pm q a fired =
      let one = tick-Without h m id schedules now last ph pm q.0 a fired in
      (one.0, daily_schedule-fires_once h m id schedules ticks _ ph pm q.1 a one.1)

-- ===== src/Scheduling/Activation/Daily.antt =====
-- server/src/services/schedule.service.ts: schedules with an `HH:MM` window. Comparing such texts is
-- comparing the minutes of the day.
use montr.Base.{
  ℕ, ◌+◌, ◌*◌, ◌<◌, Text, not, ◌&&◌, none, some, List, [], ◌∷◌, ◌++◌, map, ◌≡◌, refl, ◌∙◌, arith,
  ltb, ap, All, includes, leb, nat_eq,
}
use montr.Base.Texts.{pad2, pad2-digits, text_lt, split_from, to_number}
use montr.Scheduling.Types.{Schedule, Date, CronLibrary, HolidayLibrary, truthy_text}
use montr.Scheduling.Conditions.{evaluate_conditions, is_event_triggered, is_passed}
use montr.Scheduling.Activation.{
  current_time, in_window, in_daily_window, has_day, allowed_days, is_schedule_active,
}

-- The text of a time of day.
abbrev pub hhmm : ℕ → ℕ → Text
hhmm h m = pad2 h ++ b':' ∷ pad2 m

text_lt-hhmm :
    (h m i n : ℕ)
    → h < 24
    → m < 60
    → i < 24
    → n < 60
    → text_lt (hhmm h m) (hhmm i n) ≡ ltb (h * 60 + m) (i * 60 + n)
unfolding text_lt
text_lt-hhmm h m i n ph pm pi pn =
    rw
      (
        pad2-digits h (omega arith),
        pad2-digits m (omega arith),
        pad2-digits i (omega arith),
        pad2-digits n (omega arith),
      )
      (ground arith)

-- Equal texts name the same time.
pub hhmm-injective :
    (h m i n : ℕ) → h < 24 → m < 60 → i < 24 → n < 60 → hhmm h m ≡ hhmm i n → (h ≡ i) × (m ≡ n)
hhmm-injective h m i n ph pm pi pn e = ground (
  arith,
  e,
  pad2-digits h (omega arith),
  pad2-digits m (omega arith),
  pad2-digits i (omega arith),
  pad2-digits n (omega arith),
)

-- Days of the week as the routes admit them: one digit each, separated by commas.
pub days_text : ℕ → List ℕ → Text
days_text d [] = (b'0' + d) ∷ []
days_text d (e ∷ ds) = (b'0' + d) ∷ b',' ∷ days_text e ds

split-days_text :
    (d : ℕ) (ds : List ℕ)
    → All (λ e. e < 7) (d ∷ ds)
    → split_from b',' [] (days_text d ds) ≡ map (λ e. (b'0' + e) ∷ []) (d ∷ ds)
unfolding split_from days_text
split-days_text d [] a = ground arith
split-days_text d (e ∷ ds) a = ground (arith, split-days_text e ds a.1)

to_number-digit : (d : ℕ) → d < 7 → to_number ((b'0' + d) ∷ []) ≡ some d
unfolding to_number
to_number-digit d h = ground arith

map-to_number :
    (ds : List ℕ)
    → All (λ e. e < 7) ds
    → map to_number (map (λ e. (b'0' + e) ∷ []) ds) ≡ map some ds
map-to_number [] a = refl
map-to_number (d ∷ ds) a = rw (to_number-digit d a.0, map-to_number ds a.1)

allowed_days-days_text :
    (d : ℕ) (ds : List ℕ)
    → All (λ e. e < 7) (d ∷ ds)
    → allowed_days (days_text d ds) ≡ map some (d ∷ ds)
unfolding allowed_days
allowed_days-days_text d ds a = rw (split-days_text d ds a) (map-to_number (d ∷ ds) a)

has_day-includes : (ds : List ℕ) (day : ℕ) → has_day (map some ds) day ≡ includes ds day
unfolding has_day
has_day-includes [] day = refl
has_day-includes (d ∷ ds) day = ground (arith, has_day-includes ds day)

truthy-hhmm : (h m : ℕ) → h < 24 → truthy_text (some (hhmm h m)) ≡ some (hhmm h m)
truthy-hhmm h m ph = ground (arith, pad2-digits h (omega arith))

in_daily_window-minutes :
    (s : Schedule) (now : Date) (h m i n d : ℕ) (ds : List ℕ)
    → truthy_text s.end_time ≡ some (hhmm i n)
    → allowed_days s.days_of_week ≡ map some (d ∷ ds)
    → h < 24
    → m < 60
    → i < 24
    → n < 60
    → now.hours < 24
    → now.minutes < 60
    → in_daily_window s now (some (hhmm h m)) ≡ (
        includes (d ∷ ds) now.day
        && leb (h * 60 + m) (now.hours * 60 + now.minutes)
        && ltb (now.hours * 60 + now.minutes) (i * 60 + n))
unfolding current_time
in_daily_window-minutes s now h m i n d ds en da ph pm pi pn qh qm =
    rw
      (
        en,
        da,
        has_day-includes (d ∷ ds) now.day,
        text_lt-hhmm now.hours now.minutes h m qh qm ph pm,
        text_lt-hhmm now.hours now.minutes i n qh qm pi pn,
      )
      (ground arith)

-- A schedule with a window from `h:m` to `i:n` on given days of the week, and no cron expression, is
-- active exactly when it is enabled, waits for no event, its conditions pass, today is one of the
-- days, and the minute of the day lies in the window, its start included and its end not.
pub is_schedule_active-daily :
    (cron : CronLibrary) (holidays : HolidayLibrary) (s : Schedule) (now : Date) (h m i n d : ℕ)
    (ds : List ℕ)
    → s.cron_expression ≡ none
    → s.start_time ≡ some (hhmm h m)
    → s.end_time ≡ some (hhmm i n)
    → s.days_of_week ≡ days_text d ds
    → h < 24
    → m < 60
    → i < 24
    → n < 60
    → now.hours < 24
    → now.minutes < 60
    → All (λ e. e < 7) (d ∷ ds)
    → is_schedule_active cron holidays s now ≡ (
        s.enabled
        && not (is_event_triggered s.conditions)
        && is_passed (evaluate_conditions holidays s.conditions now)
        && (includes (d ∷ ds) now.day
            && leb (h * 60 + m) (now.hours * 60 + now.minutes)
            && ltb (now.hours * 60 + now.minutes) (i * 60 + n)))
unfolding is_schedule_active
is_schedule_active-daily cron holidays s now h m i n d ds c st en da ph pm pi pn qh qm a =
    ap
      (λ b.
        s.enabled
        && not (is_event_triggered s.conditions)
        && is_passed (evaluate_conditions holidays s.conditions now)
        && b)
      (ap (λ o. in_window cron holidays s now (truthy_text o)) c
        ∙ ap (in_daily_window s now) (ap truthy_text st ∙ truthy-hhmm h m ph)
        ∙ in_daily_window-minutes s now h m i n d ds (ap truthy_text en ∙ truthy-hhmm i n pi)
            (ap allowed_days da ∙ allowed_days-days_text d ds a) ph pm pi pn qh qm)

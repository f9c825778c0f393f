-- ===== src/Scheduling/Types.antt =====
-- The schedule types of server/src/database/types.ts; server/src/services/scheduling/
-- cron-matcher.ts; and the two libraries that the scheduler calls.
use montr.Base.{
  ℕ, zero, suc, ◌-◌, ◌≤◌, Text, Bool, false, ◌&&◌, Option, none, some, List, [], ◌∷◌, leb, ◌≡◌, All,
}

pub data InterruptMode : Type 0 where
  assign interrupt : InterruptMode

pub data NotificationEventType : Type 0 where
  client_offline client_error playlist_empty storage_full media_approval_needed :
      NotificationEventType

pub data HolidayMatch : Type 0 where
  on not_on : HolidayMatch

pub record ScheduleHolidayCondition : Type 0 where
  pub country : Text
  pub regions : Option (List Text)
  pub match : HolidayMatch

pub record ScheduleConditions : Type 0 where
  pub holidays : Option ScheduleHolidayCondition
  pub special_dates : Option (List Text)
  pub event_trigger : Option NotificationEventType

pub record Schedule : Type 0 where
  pub id : ℕ
  pub name : Text
  pub playlist_id : ℕ
  pub client_id : Option Text
  pub group_id : Option ℕ
  pub start_time : Option Text
  pub end_time : Option Text
  pub days_of_week : Text
  pub priority : ℕ
  pub enabled : Bool
  pub cron_expression : Option Text
  pub duration_seconds : Option ℕ
  pub timezone : Option Text
  pub conditions : Option ScheduleConditions
  pub interrupt_mode : InterruptMode

-- A `Date`: its time stamp, and its fields in the local time zone (`month` counts from 0).
pub record Date : Type 0 where
  pub time : ℕ
  pub full_year : ℕ
  pub month : ℕ
  pub date : ℕ
  pub day : ℕ
  pub hours : ℕ
  pub minutes : ℕ

-- `cron-parser`: the results of the successive calls of `next()` on the parsed expression, up to the
-- first that throws; `none` if the parse throws. All of them lie in the interval that is asked for.
pub record CronLibrary : Type 0 where
  pub fires : Text → Option Text → ℕ → ℕ → Option (List ℕ)
  pub fires-in :
      (expr : Text) (tz : Option Text) (from to : ℕ) (times : List ℕ)
      → fires expr tz from to ≡ some times
      → All (λ t. (from ≤ t) × (t ≤ to)) times

-- `date-holidays`: whether a date is a holiday of a country and its regions.
pub record HolidayLibrary : Type 0 where
  pub is_holiday : Text → Option (List Text) → Date → Bool

-- What JavaScript takes for false: no text or the empty one, no number or 0.
abbrev pub truthy_text : Option Text → Option Text
truthy_text none = none
truthy_text (some []) = none
truthy_text (some (c ∷ s)) = some (c ∷ s)

abbrev pub truthy_number : Option ℕ → Option ℕ
truthy_number none = none
truthy_number (some zero) = none
truthy_number (some (suc n)) = some (suc n)

module _ (cron : CronLibrary) where
  abbrev in_window : ℕ → ℕ → Option (List ℕ) → Bool
  in_window from to none = false
  in_window from to (some []) = false
  in_window from to (some (t ∷ ts)) = leb from t && leb t to

  -- `didCronFireInLastMinute`
  unfoldable pub did_cron_fire_in_last_minute : Text → Option Text → Date → Bool
  did_cron_fire_in_last_minute expr tz now =
      let window_start = now.time - 60000 in
      in_window window_start now.time (cron.fires expr (truthy_text tz) window_start now.time)

  -- `nextOccurrences`: at most `max` of the times.
  abbrev take : ℕ → List ℕ → List ℕ
  take zero ts = []
  take (suc n) [] = []
  take (suc n) (t ∷ ts) = t ∷ take n ts

  abbrev at_most : ℕ → Option (List ℕ) → List ℕ
  at_most max none = []
  at_most max (some ts) = take max ts

  unfoldable pub next_occurrences : Text → Option Text → ℕ → ℕ → ℕ → List ℕ
  next_occurrences expr tz from to max = at_most max (cron.fires expr (truthy_text tz) from to)

-- ===== src/Scheduling/Activation.antt =====
-- server/src/services/schedule.service.ts: isScheduleActive and findTriggering.
pub mod Daily
use montr.Base.{
  ℕ, Text, Bool, true, false, not, ◌&&◌, Option, none, some, List, [], ◌∷◌, ◌++◌, map, filter, ◌==◌,
  nat_eq, text_eq, if◌then◌else◌,
}
use montr.Base.Texts.{pad2, split, to_number, text_lt}
use montr.Scheduling.Types.{
  Schedule, Date, CronLibrary, HolidayLibrary, truthy_text, did_cron_fire_in_last_minute,
}
use montr.Scheduling.Conditions.{evaluate_conditions, is_event_triggered, is_passed}

-- `HH:MM`
unfoldable pub current_time : Date → Text
unfolding pad2
current_time now = pad2 now.hours ++ b':' ∷ pad2 now.minutes

-- `days.includes(day)`: what is not a number equals no day.
unfoldable pub has_day : List (Option ℕ) → ℕ → Bool
has_day [] day = false
has_day (none ∷ days) day = has_day days day
has_day (some d ∷ days) day = if d == day then true else has_day days day

-- `days_of_week.split(',').map(Number)`
unfoldable pub allowed_days : Text → List (Option ℕ)
unfolding split to_number
allowed_days text = map to_number (split b',' text)

-- Before `end_time`, or there is none.
abbrev pub not_ended : Option Text → Text → Bool
not_ended none time = true
not_ended (some end) time = text_lt time end

abbrev pub in_daily_window : Schedule → Date → Option Text → Bool
in_daily_window s now none = false
in_daily_window s now (some start) =
    has_day (allowed_days s.days_of_week) now.day
    && not (text_lt (current_time now) start)
    && not_ended (truthy_text s.end_time) (current_time now)

module _ (cron : CronLibrary) (holidays : HolidayLibrary) where
  abbrev pub in_window : Schedule → Date → Option Text → Bool
  in_window s now (some expr) = did_cron_fire_in_last_minute cron expr s.timezone now
  in_window s now none = in_daily_window s now (truthy_text s.start_time)

  unfoldable pub is_schedule_active : Schedule → Date → Bool
  is_schedule_active s now =
      s.enabled
      && not (is_event_triggered s.conditions)
      && is_passed (evaluate_conditions holidays s.conditions now)
      && in_window s now (truthy_text s.cron_expression)

  -- The start moment of the schedule is in the current minute.
  abbrev pub starts_now : Schedule → Date → Option Text → Bool
  starts_now s now (some expr) = true
  starts_now s now none = elim s.start_time [
    | none ↦ false
    | some start ↦ start == current_time now
  ]

  unfoldable pub triggers : Schedule → Date → Bool
  unfolding is_schedule_active
  triggers s now = is_schedule_active s now && starts_now s now (truthy_text s.cron_expression)

  unfoldable pub find_triggering : List Schedule → Date → List Schedule
  unfolding triggers
  find_triggering schedules now = filter (λ s. triggers s now) schedules

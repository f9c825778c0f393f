-- ===== src/Scheduling/Conditions.antt =====
-- server/src/services/scheduling/condition-evaluator.ts. The cache of the holiday tables is left out:
-- it holds what the library's constructor returns.
use montr.Base.{
  ◌+◌, Text, Bool, true, false, Option, none, some, List, [], ◌∷◌, ◌++◌, includes, text_eq,
  if◌then◌else◌,
}
use montr.Base.Texts.{show_number, pad2}
use montr.Scheduling.Types.{
  HolidayMatch, on, not_on, ScheduleHolidayCondition, ScheduleConditions, Date, HolidayLibrary,
}

pub data Reason : Type 0 where
  event_triggered_only date_not_in_special_dates not_a_holiday is_a_holiday : Reason

-- `{ passed, reason }`
pub data ConditionResult : Type 0 where
  passed : ConditionResult
  refused : Reason → ConditionResult

abbrev pub is_passed : ConditionResult → Bool
is_passed passed = true
is_passed (refused r) = false

unfoldable pub to_iso_date : Date → Text
unfolding show_number pad2
to_iso_date d = show_number d.full_year ++ b'-' ∷ pad2 (d.month + 1) ++ b'-' ∷ pad2 d.date

-- The date is one of the special dates, or there are none.
abbrev pub date_allowed : Option (List Text) → Text → Bool
date_allowed none today = true
date_allowed (some []) today = true
date_allowed (some (d ∷ ds)) today = includes (d ∷ ds) today

module _ (lib : HolidayLibrary) where
  abbrev pub match_holiday : HolidayMatch → Bool → ConditionResult
  match_holiday on true = passed
  match_holiday on false = refused not_a_holiday
  match_holiday not_on true = refused is_a_holiday
  match_holiday not_on false = passed

  abbrev pub check_holiday : Option ScheduleHolidayCondition → Date → ConditionResult
  check_holiday none now = passed
  check_holiday (some h) now = match_holiday h.match (lib.is_holiday h.country h.regions now)

  abbrev pub evaluate_some : ScheduleConditions → Date → ConditionResult
  evaluate_some c now = elim c.event_trigger [
    | some _ ↦ refused event_triggered_only
    | none ↦
        if date_allowed c.special_dates (to_iso_date now)
        then check_holiday c.holidays now
        else refused date_not_in_special_dates
  ]

  unfoldable pub evaluate_conditions : Option ScheduleConditions → Date → ConditionResult
  evaluate_conditions none now = passed
  evaluate_conditions (some c) now = evaluate_some c now

unfoldable pub is_event_triggered : Option ScheduleConditions → Bool
is_event_triggered none = false
is_event_triggered (some c) = elim c.event_trigger [ none ↦ false | some _ ↦ true ]

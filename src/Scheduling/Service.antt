-- ===== src/Scheduling/Service.antt =====
-- server/src/services/schedule.service.ts: the evaluator's tick and the event-triggered schedules.
use montr.Base.{
  ◌⊎◌, ℕ, ◌+◌, ◌*◌, ◌-◌, Text, Bool, true, false, not, ◌&&◌, Option, none, some, List, [], ◌∷◌,
  ◌++◌, filter, text_eq, nat_eq, ltb, ◌==◌, Action, ok, throw, and_then,
}
use montr.Base.Map.{Map, get, set, delete, values}
use montr.Base.Texts.{show_number}
use montr.Websocket.Types.{SocketLibrary}
use montr.Scheduling.Types.{
  Schedule, Date, CronLibrary, HolidayLibrary, NotificationEventType, client_offline, client_error,
  playlist_empty, storage_full, media_approval_needed, truthy_text, truthy_number,
}
use montr.Scheduling.Activation.{find_triggering}
use montr.Scheduling.Conflicts.{resolve_conflicts}
use montr.Scheduling.Dispatch.{ScheduleService, World, dispatch_schedule}

-- `H:M`, with neither padding nor the date.
abbrev pub minute_text : ℕ → ℕ → Text
minute_text h m = show_number h ++ b':' ∷ show_number m

abbrev pub minute_key : Date → Text
minute_key now = minute_text now.hours now.minutes

abbrev pub is_key : Text → Option Text → Bool
is_key key none = false
is_key key (some last) = last == key

-- The filter over the triggering schedules, which writes the key of each that it keeps.
unfoldable pub keep_new : Text → List Schedule → Map ℕ Text → Map ℕ Text × List Schedule
keep_new key [] last = (last, [])
keep_new key (s ∷ ss) last = elim (is_key key (get s.id last)) [
  | true ↦ keep_new key ss last
  | false ↦ let (last', kept) = keep_new key ss (set s.id key last) in (last', s ∷ kept)
]

module _ (cron : CronLibrary) (holidays : HolidayLibrary) where
  -- The schedules that a tick goes on with, and the new `lastTriggered`.
  unfoldable pub tick_triggers : List Schedule → Date → Map ℕ Text → Map ℕ Text × List Schedule
  unfolding keep_new find_triggering
  tick_triggers schedules now last =
      keep_new (minute_key now) (find_triggering cron holidays schedules now) last

module _ (lib : SocketLibrary) (payload : ℕ → Text ⊎ Text) where
  -- The loop over the winners; an error ends it.
  unfoldable pub dispatch_each : List Schedule → ℕ → Action World (Unit {0})
  unfolding dispatch_schedule
  dispatch_each [] now w = (w, ok tt)
  dispatch_each (s ∷ ss) now w =
      and_then (dispatch_schedule lib payload s now w) (λ _. dispatch_each ss now)

  -- `evaluateSchedules`: `schedules` are the enabled ones; an error is caught and logged.
  unfoldable pub evaluate_schedules :
      CronLibrary → HolidayLibrary → List Schedule → Date → World → World
  unfolding tick_triggers dispatch_each resolve_conflicts
  evaluate_schedules cron holidays schedules now w =
      let (last, triggering) = tick_triggers cron holidays schedules now w.service.last_triggered in
      let marked : World = record w { service = record w.service { last_triggered = last } } in
      elim triggering [
        | [] ↦ marked
        | s ∷ ss ↦ (dispatch_each (values (resolve_conflicts (s ∷ ss)).winners) now.time marked).0
      ]

abbrev pub same_event : NotificationEventType → NotificationEventType → Bool
same_event client_offline client_offline = true
same_event client_error client_error = true
same_event playlist_empty playlist_empty = true
same_event storage_full storage_full = true
same_event media_approval_needed media_approval_needed = true
same_event _ _ = false

-- `s.conditions?.event_trigger?.event_type === eventType`
abbrev pub waits_for : NotificationEventType → Schedule → Bool
waits_for event s = elim s.conditions [
  | none ↦ false
  | some c ↦ elim c.event_trigger [ none ↦ false | some e ↦ same_event e event ]
]

-- `(schedule.duration_seconds ?? 60) * 1000`
abbrev pub window_ms : Schedule → ℕ
window_ms s = elim s.duration_seconds [ none ↦ 60 * 1000 | some n ↦ n * 1000 ]

-- `last && now - last < windowMs`
abbrev pub fired_lately : ℕ → ℕ → Option ℕ → Bool
fired_lately now window none = false
fired_lately now window (some last) = not (last == 0) && ltb (now - last) window

-- A schedule for all clients is narrowed to the client that the event names.
abbrev pub narrow_to : Option Text → Option Text → Option ℕ → Schedule → Schedule
narrow_to source (some c) g s = s
narrow_to source none (some g) s = s
narrow_to source none none s = elim (truthy_text source) [
  | none ↦ s
  | some id ↦ record s { client_id = some id }
]

unfoldable pub narrow_event_target : Option Text → Schedule → Schedule
narrow_event_target source s =
    narrow_to source (truthy_text s.client_id) (truthy_number s.group_id) s

module _ (lib : SocketLibrary) (payload : ℕ → Text ⊎ Text) where
  abbrev pub note_fired : Schedule → ℕ → World → World
  note_fired s now w = record w {
    service = record w.service { event_last_fired = set s.id now w.service.event_last_fired };
  }

  -- The loop over the schedules that wait for the event; `fired` counts the dispatches.
  unfoldable pub fire_each : Option Text → ℕ → List Schedule → ℕ → Action World ℕ
  fire_each source now [] fired w = (w, ok fired)
  fire_each source now (s ∷ ss) fired w =
      elim (fired_lately now (window_ms s) (get s.id w.service.event_last_fired)) [
        | true ↦ fire_each source now ss fired w
        | false ↦
            and_then
              (dispatch_schedule lib payload (narrow_event_target source s) now
                (note_fired s now w))
              (λ _. fire_each source now ss (fired + 1))
      ]

  -- `onEvent`; `source` is the `client_id` of the payload, if it is a text. An error gives 0.
  unfoldable pub on_event :
      NotificationEventType → Option Text → ℕ → List Schedule → World → World × ℕ
  unfolding fire_each dispatch_schedule narrow_event_target
  on_event event source now schedules w =
      let (w', r) = fire_each source now (filter (waits_for event) schedules) 0 w in
      (w', elim r [ ok fired ↦ fired | throw e ↦ 0 ])

-- `deleteSchedule` forgets what the maps hold of the schedule, and `stopEvaluation` all timers.
unfoldable pub forget_schedule : ℕ → ScheduleService → ScheduleService
forget_schedule id service = record service {
  last_triggered = delete id service.last_triggered;
  event_last_fired = delete id service.event_last_fired;
}

unfoldable pub stop_evaluation : ScheduleService → ScheduleService
stop_evaluation service = record service { resume_timers = [] }

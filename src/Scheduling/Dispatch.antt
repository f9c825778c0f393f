-- ===== src/Scheduling/Dispatch.antt =====
-- server/src/services/schedule.service.ts: dispatchSchedule and dispatchInterrupt; the pushes of
-- server/src/websocket/handlers.ts that they make.
use montr.Base.{
  ◌⊎◌, inl, inr, ℕ, ◌+◌, ◌*◌, Text, Option, none, some, List, [], ◌∷◌, filter, if◌then◌else◌,
  text_eq, nat_eq, Action, ok, throw, and_then,
}
use montr.Base.Map.{Map, get, set, has, delete, keys}
use montr.Database.Tables.{Client, UpdateClientInput, Tables}
use montr.Base.Texts.{text_lt}
use montr.Database.ClientRows.{update_client, all_clients}
use montr.Clients.Service.{no_update, interrupt_with_playlist, resume_from_interrupt}
use montr.Websocket.Types.{SocketLibrary, playlist_assigned}
use montr.Websocket.Manager.{Manager, is_connected}
use montr.Websocket.Manager.Send.{send_to_client, send_error}
use montr.Scheduling.Types.{Schedule, assign, interrupt, truthy_text, truthy_number}

-- `lastTriggered`, `eventLastFired`, and `resumeTimers` with the time at which each is due.
pub record ScheduleService : Type 0 where
  pub last_triggered : Map ℕ Text
  pub event_last_fired : Map ℕ ℕ
  pub resume_timers : Map Text ℕ

pub record World : Type 0 where
  pub tables : Tables
  pub manager : Manager
  pub service : ScheduleService

-- A call on the tables.
abbrev pub on_tables {ℓ} : {A : Type ℓ} → Action Tables A → Action World A
on_tables f w = let (t, r) = f w.tables in (record w { tables = t }, r)

-- `ORDER BY c.name ASC`, by code units; equal names stay in the order of the table.
unfoldable pub insert_by_name : (Text → Text) → Text → List Text → List Text
insert_by_name name id [] = id ∷ []
insert_by_name name id (k ∷ ids) =
    if text_lt (name k) (name id) then k ∷ insert_by_name name id ids else id ∷ k ∷ ids

unfoldable pub by_name : (Text → Text) → List Text → List Text
unfolding insert_by_name
by_name name [] = []
by_name name (id ∷ ids) = insert_by_name name id (by_name name ids)

abbrev pub name_of : Map Text Client → Text → Text
name_of clients id = elim (get id clients) [ none ↦ [] | some c ↦ c.name ]

-- The members of a group that are clients.
unfoldable pub members_of : ℕ → Tables → List Text
unfolding by_name
members_of group t = elim (get group t.group_members) [
  | none ↦ []
  | some ids ↦ by_name (name_of t.clients) (filter (λ id. has id t.clients) ids)
]

-- `lib` is the socket package; `payload` gives the text of a playlist with its items, or the error's
-- message where to load it throws.
module _ (lib : SocketLibrary) (payload : ℕ → Text ⊎ Text) where
  unfoldable pub send_playlist_to_client : Text → ℕ → Manager → Manager
  unfolding send_to_client send_error
  send_playlist_to_client id playlist_id m = elim (payload playlist_id) [
    | inl error ↦ (send_error lib id error none m).0
    | inr text ↦ (send_to_client lib id (playlist_assigned text) m).0
  ]

  unfoldable pub push_if_connected : Text → ℕ → World → World
  unfolding send_playlist_to_client is_connected
  push_if_connected id playlist_id w =
      if is_connected id w.manager
      then record w { manager = send_playlist_to_client id playlist_id w.manager }
      else w

  unfoldable pub push_each : List Text → ℕ → World → World
  unfolding push_if_connected
  push_each [] playlist_id w = w
  push_each (id ∷ ids) playlist_id w =
      push_each ids playlist_id (push_if_connected id playlist_id w)

  abbrev pub assignment : ℕ → UpdateClientInput
  assignment playlist_id = record no_update { assigned_playlist_id = some (some playlist_id) }

  unfoldable pub assign_each : List Text → ℕ → Action World (Unit {0})
  unfolding update_client
  assign_each [] playlist_id w = (w, ok tt)
  assign_each (id ∷ ids) playlist_id w =
      and_then (on_tables (update_client id (assignment playlist_id)) w)
        (λ _. assign_each ids playlist_id)

  -- Each client is assigned the playlist and told of it, one after the other.
  unfoldable pub assign_and_push_each : List Text → ℕ → Action World (Unit {0})
  unfolding update_client push_if_connected
  assign_and_push_each [] playlist_id w = (w, ok tt)
  assign_and_push_each (id ∷ ids) playlist_id w =
      and_then (on_tables (update_client id (assignment playlist_id)) w)
        (λ _ w'. assign_and_push_each ids playlist_id (push_if_connected id playlist_id w'))

  -- `scheduleAutoResume`: a timer that is set already is replaced.
  unfoldable pub schedule_auto_resume : Text → ℕ → ℕ → World → World
  schedule_auto_resume id seconds now w = record w {
    service = record w.service {
      resume_timers = set id (now + seconds * 1000) w.service.resume_timers;
    };
  }

  abbrev pub auto_resume? : Text → Option ℕ → ℕ → World → World
  auto_resume? id none now w = w
  auto_resume? id (some seconds) now w = schedule_auto_resume id seconds now w

  -- The callback of the timer: an error is logged.
  unfoldable pub fire_auto_resume : Text → World → World
  unfolding resume_from_interrupt push_if_connected
  fire_auto_resume id w =
      let dropped : World = record w {
        service = record w.service { resume_timers = delete id w.service.resume_timers };
      } in
      let (w', r) = on_tables (resume_from_interrupt id) dropped in
      elim r [
        | throw e ↦ w'
        | ok c ↦ elim (truthy_number c.assigned_playlist_id) [
          | none ↦ w'
          | some playlist_id ↦ push_if_connected id playlist_id w'
        ]
      ]

  -- The `try` of one target: an error ends the work on this target only.
  unfoldable pub interrupt_one : Schedule → ℕ → Text → World → World
  unfolding interrupt_with_playlist push_if_connected schedule_auto_resume
  interrupt_one s now id w =
      let (w', r) = on_tables (interrupt_with_playlist id s.playlist_id) w in
      elim r [
        | throw e ↦ w'
        | ok _ ↦
            auto_resume? id (truthy_number s.duration_seconds) now
              (push_if_connected id s.playlist_id w')
      ]

  unfoldable pub interrupt_each : Schedule → ℕ → List Text → World → World
  unfolding interrupt_one
  interrupt_each s now [] w = w
  interrupt_each s now (id ∷ ids) w = interrupt_each s now ids (interrupt_one s now id w)

  -- The targets: one client, the members of a group, or all clients.
  abbrev pub targets : Option Text → Option ℕ → Tables → List Text
  targets (some id) g t = id ∷ []
  targets none (some group) t = members_of group t
  targets none none t = keys (all_clients t)

  unfoldable pub dispatch_interrupt : Schedule → ℕ → World → World
  unfolding interrupt_each members_of all_clients
  dispatch_interrupt s now w =
      interrupt_each s now (targets (truthy_text s.client_id) (truthy_number s.group_id) w.tables) w

  abbrev pub dispatch_assign : Option Text → Option ℕ → ℕ → Action World (Unit {0})
  dispatch_assign (some id) g playlist_id w = assign_and_push_each (id ∷ []) playlist_id w
  dispatch_assign none (some group) playlist_id w =
      let ids = members_of group w.tables in
      and_then (assign_each ids playlist_id w) (λ _ w'. (push_each ids playlist_id w', ok tt))
  dispatch_assign none none playlist_id w =
      assign_and_push_each (keys (all_clients w.tables)) playlist_id w

  unfoldable pub dispatch_schedule : Schedule → ℕ → Action World (Unit {0})
  unfolding dispatch_interrupt assign_each assign_and_push_each push_each members_of all_clients
  dispatch_schedule s now w = elim s.interrupt_mode [
    | interrupt ↦ (dispatch_interrupt s now w, ok tt)
    | assign ↦ dispatch_assign (truthy_text s.client_id) (truthy_number s.group_id) s.playlist_id w
  ]

-- ===== src/Handlers/Reports.antt =====
-- server/src/websocket/handlers.ts: the handlers of the errors, telemetry and log events that clients
-- report.
use montr.Base.{
  ◌⊎◌, ℕ, Text, codes, Bool, true, false, not, ◌&&◌, Option, none, some, List, [], ◌∷◌, ◌++◌, ◌==◌,
  text_eq, if◌then◌else◌, Action, ok, throw, ◌>>=◌, give,
}
use montr.Database.Tables.{Tables, error}
use montr.Clients.Service.{no_update, record_client_status, change_client}
use montr.Websocket.Types.{SocketLibrary, client_error}
use montr.Websocket.Manager
use montr.Websocket.Manager.{is_connected}
use montr.Websocket.Manager.Send.{broadcast_to_admins}
use montr.Scheduling.Types.{NotificationEventType}
use montr.Telemetry.Service.{
  CreateClientTelemetryInput, record_telemetry, evaluate_thresholds, Alert, disk_low_crit,
  disk_low_warn, cpu_high, temp_high, mpv_dead,
}
use montr.Handlers.Notifications.{NotificationRule, Payload, ClientLogEvent, Live, fire_event}
use montr.Handlers.Messages.{with_manager, with_tables}

pub record ErrorMessage : Type 0 where
  pub client_id : Text
  pub error : Text
  pub source : Option Text
  pub severity : Option Text
  pub context : Option Text  -- as JSON text

-- `message.severity ?? 'error'`
abbrev pub severity_of : Option Text → Text
severity_of none = codes "error"
severity_of (some severity) = severity

abbrev pub is_empty : Text → Bool
is_empty [] = true
is_empty (c ∷ s) = false

abbrev pub is_text : Text → Option Text → Bool
is_text t none = false
is_text t (some s) = s == t

-- A field that is undefined is left out of the JSON.
abbrev pub field : Text → Option Text → Payload
field name none = []
field name (some value) = (name, value) ∷ []

-- What the handler gives fireEvent for a fatal error, and for a full cache.
abbrev pub error_fields : ErrorMessage → Payload
error_fields m =
    (codes "clientId", m.client_id)
    ∷ (codes "error", m.error)
    ∷ (field (codes "source") m.source ++ field (codes "context") m.context)

abbrev pub storage_fields : ErrorMessage → Payload
storage_fields m =
    (codes "clientId", m.client_id)
    ∷ (field (codes "source") m.source ++ field (codes "context") m.context)

-- The rows of an error that is more than a warning.
unfoldable pub error_rows : ErrorMessage → ℕ → Action Tables (Unit {0})
unfolding record_client_status change_client
error_rows m now = do
  c ← record_client_status m.client_id (not (is_empty m.error)) now
  c' ← change_client m.client_id (record no_update { status = some error; last_seen = some now })
  give tt

-- The event that an alert is sent as.
abbrev pub event_of : Alert → NotificationEventType
event_of (disk_low_crit mount) = NotificationEventType.storage_full
event_of (disk_low_warn mount) = NotificationEventType.storage_full
event_of cpu_high = NotificationEventType.client_error
event_of temp_high = NotificationEventType.client_error
event_of mpv_dead = NotificationEventType.client_error

abbrev pub subtype_of : Alert → Text
subtype_of (disk_low_crit mount) = codes "disk_low_crit"
subtype_of (disk_low_warn mount) = codes "disk_low_warn"
subtype_of cpu_high = codes "cpu_high"
subtype_of temp_high = codes "temp_high"
subtype_of mpv_dead = codes "mpv_dead"

-- The fields that a rule or a schedule may look at; the readings of the alert are left out.
abbrev pub alert_fields : Text → Alert → Payload
alert_fields client_id a = (codes "subtype", subtype_of a) ∷ (codes "client_id", client_id) ∷ []

module _ (lib : SocketLibrary) (payload : ℕ → Text ⊎ Text)
    (deliver : NotificationRule → Payload → Option Text) where
  abbrev pub fire : NotificationEventType → Payload → ℕ → Live → Live
  fire event fields now s = (fire_event deliver lib payload event fields now s).0

  abbrev pub fire_fatal : ErrorMessage → ℕ → Live → Live
  fire_fatal m now s =
      if severity_of m.severity == codes "fatal"
      then fire NotificationEventType.client_error (error_fields m) now s
      else s

  abbrev pub fire_storage : ErrorMessage → ℕ → Live → Live
  fire_storage m now s =
      if is_text (codes "cache") m.source && m.error == codes "storage_low"
      then fire NotificationEventType.storage_full (storage_fields m) now s
      else s

  -- The handler from the broadcast on; `report` is the JSON of what the admins are told.
  unfoldable pub handle_reported : ErrorMessage → Text → ℕ → Live → Live
  unfolding broadcast_to_admins error_rows fire_event Manager.update_heartbeat
  handle_reported message report now s =
      let told =
        with_manager (λ m. (broadcast_to_admins lib (client_error message.client_id report) m).0)
          s in
      let (t, r) =
        (if severity_of message.severity == codes "warn" then give tt else error_rows message now)
          told.world.tables in
      elim r [
        | throw e ↦ with_tables t told
        | ok _ ↦
            with_manager (Manager.update_heartbeat message.client_id now)
              (fire_storage message now (fire_fatal message now (with_tables t told)))
      ]

  unfoldable pub handle_error : ErrorMessage → Text → ℕ → Live → Live
  unfolding is_connected handle_reported
  handle_error message report now s =
      if is_connected message.client_id s.world.manager
      then handle_reported message report now s
      else s

  unfoldable pub fire_alerts : Text → List Alert → ℕ → Live → Live
  unfolding fire_event
  fire_alerts client_id [] now s = s
  fire_alerts client_id (a ∷ alerts) now s =
      fire_alerts client_id alerts now (fire (event_of a) (alert_fields client_id a) now s)

  unfoldable pub handle_telemetry : CreateClientTelemetryInput → ℕ → Live → Live
  unfolding is_connected evaluate_thresholds fire_alerts Manager.update_heartbeat
  handle_telemetry input now s =
      if is_connected input.client_id s.world.manager
      then (let recorded = record s { telemetry = record_telemetry input now s.telemetry } in
          with_manager (Manager.update_heartbeat input.client_id now) (
            fire_alerts input.client_id (evaluate_thresholds input now recorded.telemetry) now
              recorded))
      else s

unfoldable pub handle_log_event : ClientLogEvent → Live → Live
unfolding is_connected
handle_log_event event s =
    if is_connected event.client_id s.world.manager
    then record s { log_events = s.log_events ++ event ∷ [] }
    else s

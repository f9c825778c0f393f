-- ===== src/Handlers/Messages.antt =====
-- server/src/websocket/handlers.ts: the handlers of the messages that clients send. Times are those of
-- one reading of the clock for each message.
use montr.Base.{
  ◌⊎◌, ℕ, Text, codes, Bool, true, false, not, Option, none, some, List, [], ◌++◌, text_eq,
  if◌then◌else◌, Action, ok, throw, Thrown, app_error, client_not_found, ◌>>=◌,
}
use montr.Database.Tables.{Client, UpdateClientInput, Tables, online}
use montr.Clients.Service.{
  no_update, get_client_by_id, register_client, change_client, record_client_status,
}
use montr.Clients.Service
use montr.Websocket.Types.{
  SocketLibrary, client_state_change, client_status_update, schedule_definitions, ClientState,
}
use montr.Websocket.Manager
use montr.Websocket.Manager.{Manager, add_connection, is_connected, close_if_open}
use montr.Websocket.Manager.Send.{send_to_client, send_error, send_success, broadcast_to_admins}
use montr.Jobs.Table.{slice_to}
use montr.Scheduling.Types.{Schedule, truthy_text}
use montr.Scheduling.Dispatch.{send_playlist_to_client}
use montr.Scheduling.Audience.{get_schedules_for_client}
use montr.Handlers.Notifications.{NotificationRule, Payload, Live}

pub record RegisterMessage : Type 0 where
  pub client_id : Text
  pub version : Text
  pub capabilities : Text  -- as JSON text
  pub name : Option Text

abbrev pub is_not_found : Thrown → Bool
is_not_found (app_error client_not_found) = true
is_not_found _ = false

-- The update of a client that was there.
abbrev pub reconnection : RegisterMessage → ℕ → UpdateClientInput
reconnection m now = record no_update {
  name = truthy_text m.name;
  version = some m.version;
  capabilities = some m.capabilities;
  status = some online;
  last_seen = some now;
}

-- `name || …`
abbrev pub name_or_default : Option Text → Text → Text
name_or_default none id = codes "Client-" ++ slice_to 8 id
name_or_default (some name) id = name

-- The rows that `handleRegister` writes: an update, and for an unknown client a new row.
unfoldable pub register_rows : RegisterMessage → ℕ → Action Tables Client
unfolding get_client_by_id register_client change_client slice_to
register_rows m now t =
    let (t', r) =
      (do c ← get_client_by_id m.client_id; change_client m.client_id (reconnection m now)) t in
    elim r [
      | ok c ↦ (t', ok c)
      | throw e ↦
          if is_not_found e
          then (do
            c ←
                register_client
                  (record {
                    id = m.client_id;
                    name = name_or_default (truthy_text m.name) m.client_id;
                    version = some m.version;
                    capabilities = some m.capabilities;
                  })
                  now
            change_client m.client_id
                (record no_update { status = some online; last_seen = some now }))
              t'
          else (t', throw e)
    ]

abbrev pub with_manager : (Manager → Manager) → Live → Live
with_manager f s = record s { world = record s.world { manager = f s.world.manager } }

abbrev pub with_tables : Tables → Live → Live
with_tables t s = record s { world = record s.world { tables = t } }

abbrev pub text_of : Option Text → Text
text_of none = []
text_of (some x) = x

-- `payload` and `deliver` are as in the dispatch of schedules and notifications, `show` is the JSON of
-- schedules, and `told` the message of an error.
module _ (lib : SocketLibrary) (payload : ℕ → Text ⊎ Text)
    (deliver : NotificationRule → Payload → Option Text) (show : List Schedule → Text)
    (told : Thrown → Text) where
  unfoldable pub send_schedules_to_client : Text → Live → Live
  unfolding is_connected get_schedules_for_client send_to_client
  send_schedules_to_client id s =
      if is_connected id s.world.manager
      then with_manager
          (λ m.
            (send_to_client lib id
              (schedule_definitions (show (get_schedules_for_client id s.schedules s.world.tables)))
              m).0)
          s
      else s

  abbrev pub send_playlist? : Text → Option ℕ → Manager → Manager
  send_playlist? id none m = m
  send_playlist? id (some playlist_id) m = send_playlist_to_client lib payload id playlist_id m

  -- The connection of a registered client, and what it is told.
  unfoldable pub welcome : Text → ℕ → ℕ → Client → Live → Live
  unfolding add_connection broadcast_to_admins send_success send_playlist_to_client
      send_schedules_to_client
  welcome id ref now c s = send_schedules_to_client id (
      with_manager
        (λ m.
          let added = add_connection lib id ref now m in
          let announced =
            (broadcast_to_admins lib (client_state_change id ClientState.online) added).0 in
          send_playlist? id c.assigned_playlist_id
            (send_success lib id (codes "Registration successful") announced).0)
        s)

  unfoldable pub handle_register : RegisterMessage → ℕ → ℕ → Live → Live
  unfolding register_rows welcome send_error close_if_open
  handle_register message ref now s =
      let (t, r) = register_rows message now s.world.tables in
      elim r [
        | ok c ↦ welcome message.client_id ref now c (with_tables t s)
        | throw e ↦
            with_manager
              (λ m. close_if_open lib ref 1008 (send_error lib message.client_id (told e) none m).0)
              (with_tables t s)
      ]

  -- `handleStatusUpdate`; `status` is the JSON of the broadcast.
  unfoldable pub handle_status_update : Text → Text → ℕ → Live → Live
  unfolding is_connected send_error record_client_status broadcast_to_admins
      Manager.update_heartbeat
  handle_status_update id status now s =
      if not (is_connected id s.world.manager)
      then with_manager (λ m. (send_error lib id (codes "Client not registered") none m).0) s
      else let (t, r) = record_client_status id false now s.world.tables in
        elim r [
          | throw e ↦ with_manager (λ m. (send_error lib id (told e) none m).0) (with_tables t s)
          | ok c ↦
              with_manager
                (λ m.
                  (broadcast_to_admins lib (client_status_update id status)
                    (Manager.update_heartbeat id now m)).0)
                (with_tables t s)
        ]

  unfoldable pub handle_heartbeat : Text → ℕ → Live → Live
  unfolding is_connected send_error Service.update_heartbeat Manager.update_heartbeat
  handle_heartbeat id now s =
      if not (is_connected id s.world.manager)
      then with_manager (λ m. (send_error lib id (codes "Client not registered") none m).0) s
      else let (t, r) = Service.update_heartbeat id now s.world.tables in
        elim r [
          | throw e ↦ with_tables t s
          | ok c ↦ with_manager (Manager.update_heartbeat id now) (with_tables t s)
        ]

-- ===== src/Handlers/Examples.antt =====
-- A server with a screen in the lobby, connected, and one in the hall.
use montr.Base.{
  ℕ, Text, true, false, Option, none, some, List, [], ◌∷◌, codes, text_beq, text_eq, nat_eq, ◌⊎◌,
  inr, ◌≡◌, ◌≢◌, refl, Thrown,
}
use montr.Base.Map.{get, has}
use montr.Database.Tables.{Client, offline}
use montr.Websocket.Types.{Socket, ReadyState, SocketLibrary}
use montr.Websocket.Manager.{new_manager, is_connected}
use montr.Scheduling.Types.{Schedule, NotificationEventType, assign}
use montr.Handlers.Notifications.{NotificationRule, Payload, Live}
use montr.Handlers.Messages.{RegisterMessage, handle_register}
use montr.Handlers.Reports.{ErrorMessage, handle_error}
use montr.Handlers.Register.{IsRegistered, handle_register-IsRegistered}
use montr.Handlers.Untargeted.{handle_error-assigns_all}

not_open : ReadyState.closing ≢ ReadyState.open_state
not_open e = cc

abbrev library : SocketLibrary
library = record {
  after_close = λ s. ReadyState.closing;
  after_close-open = not_open;
  send_throws = λ told ref message. false;
  admin_send_throws = λ told ref message. false;
}

abbrev open_sockets : ℕ → Socket
open_sockets ref = record {
  ready_state = ReadyState.open_state;
  client_id = none;
  is_alive = true;
  last_heartbeat = none;
}

abbrev payload : ℕ → Text ⊎ Text
payload playlist_id = inr []

abbrev delivers : NotificationRule → Payload → Option Text
delivers rule fields = none

abbrev show : List Schedule → Text
show schedules = []

abbrev told : Thrown → Text
told e = codes "failed"

abbrev screen : Client
screen = record {
  name = codes "Screen";
  assigned_playlist_id = some 1;
  interrupted_from_playlist_id = none;
  status = offline;
  last_seen = none;
  version = none;
  capabilities = none;
}

-- What all play when a client has an error.
abbrev test_card : Schedule
test_card = record {
  id = 4;
  name = codes "test card";
  playlist_id = 7;
  client_id = none;
  group_id = none;
  start_time = none;
  end_time = none;
  days_of_week = codes "[]";
  priority = 1;
  enabled = true;
  cron_expression = none;
  duration_seconds = none;
  timezone = none;
  conditions = some (record {
    holidays = none;
    special_dates = none;
    event_trigger = some NotificationEventType.client_error;
  });
  interrupt_mode = assign;
}

abbrev live : Live
live = record {
  world = record {
    tables = record {
      clients = (codes "lobby", screen) ∷ (codes "hall", screen) ∷ [];
      playlists = 1 ∷ 7 ∷ [];
      client_playlists = [];
      group_members = [];
    };
    manager = record (new_manager open_sockets) { connections = (codes "lobby", 1) ∷ [] };
    service = record { last_triggered = []; event_last_fired = []; resume_timers = [] };
  };
  schedules = test_card ∷ [];
  rules = [];
  next_rule = 1;
  history = [];
  telemetry = [];
  log_events = [];
}

abbrev newcomer : RegisterMessage
newcomer = record {
  client_id = codes "yard";
  version = codes "1.2.0";
  capabilities = codes "{}";
  name = none;
}

handle_register-IsRegistered_example :
    IsRegistered newcomer 50 live.world.tables.clients
      (handle_register library payload delivers show told newcomer 3 50 live).world.tables.clients
handle_register-IsRegistered_example =
    handle_register-IsRegistered library payload delivers show told newcomer 3 50 live

abbrev crash : ErrorMessage
crash = record {
  client_id = codes "lobby";
  error = codes "mpv died";
  source = none;
  severity = some (codes "fatal");
  context = none;
}

-- The screen in the hall is given the test card for an error in the lobby.
handle_error-assigns_all_example :
    (row : Client) × (get
        (codes "hall")
        (handle_error library payload delivers crash [] 50 live).world.tables.clients
      ≡ some row)
    × (row.assigned_playlist_id ≡ some 7)
unfolding get has text_beq is_connected new_manager
handle_error-assigns_all_example =
    handle_error-assigns_all library payload delivers crash [] 50 live screen test_card refl refl
      refl refl refl refl refl refl refl refl (codes "hall") refl

-- ===== src/Websocket/Examples.antt =====
-- Example runs of the connection manager.
use montr.Base.{
  ℕ, Text, true, false, none, List, [], ◌∷◌, codes, text_beq, ◌≡◌, ◌≢◌, refl, arith, nat_eq,
  text_eq, ◌+◌, length, filter,
}
use montr.Base.Map.{get, has, keys}
use montr.Websocket.Types.{Socket, ReadyState, SocketLibrary, success, ConnectionMetadata}
use montr.Websocket.Manager.{Manager, new_manager, is_connected}
use montr.Websocket.Manager.Consistent.{IsConsistent}
use montr.Websocket.Manager.Send.{broadcast_to_all}
use montr.Websocket.Manager.Sweep.{health_check}
use montr.Websocket.Manager.Run.{run, run-IsConsistent, Call, adds, heartbeats}
use montr.Websocket.Manager.Delivery.{broadcast_to_all-counts}
use montr.Websocket.Manager.Health.{health_check-get, survivor, RefsDistinct}
use montr.Websocket.Manager.Silence.{two_checks-removes}

closing_not_open : ReadyState.closing ≢ ReadyState.open_state
closing_not_open e = cc

abbrev library : SocketLibrary
library = record {
  after_close = λ s. ReadyState.closing;
  after_close-open = closing_not_open;
  send_throws = λ told ref message. false;
  admin_send_throws = λ told ref message. false;
}

abbrev fresh_sockets : ℕ → Socket
fresh_sockets ref = record {
  ready_state = ReadyState.open_state;
  client_id = none;
  is_alive = true;
  last_heartbeat = none;
}

abbrev lobby : Text
lobby = codes "lobby"

abbrev hall : Text
hall = codes "hall"

abbrev history : List Call
history = adds lobby 1 1000 ∷ heartbeats lobby 2000 ∷ adds hall 2 3000 ∷ []

abbrev lobby_session : ConnectionMetadata
lobby_session = record { connected_at = 1000; last_heartbeat = 2000; message_count = 0 }

abbrev hall_session : ConnectionMetadata
hall_session = record { connected_at = 3000; last_heartbeat = 3000; message_count = 0 }

-- The lobby's screen on socket 1 and the hall's on socket 2.
abbrev two_screens : Manager
two_screens = record (new_manager fresh_sockets) {
  connections = (lobby, 1) ∷ (hall, 2) ∷ [];
  metadata = (lobby, lobby_session) ∷ (hall, hall_session) ∷ [];
  stats = record {
    total_connections = 2;
    active_connections = 2;
    messages_sent = 0;
    messages_received = 0;
    errors = 0;
  };
}

run-IsConsistent_example : IsConsistent (run library (new_manager fresh_sockets) history)
run-IsConsistent_example = run-IsConsistent library fresh_sockets history

broadcast_to_all-counts_example :
    let (m, sent) = broadcast_to_all library (success (codes "hello")) two_screens in
    (m.stats.messages_sent ≡ two_screens.stats.messages_sent + sent)
    × (length m.wire ≡ length two_screens.wire + sent)
    × (sent + m.stats.errors
        ≡ two_screens.stats.errors
          + length (filter (λ id. is_connected id two_screens) (keys two_screens.connections)))
    × (m.connections ≡ two_screens.connections)
    × (m.sockets ≡ two_screens.sockets)
broadcast_to_all-counts_example =
    broadcast_to_all-counts library (success (codes "hello")) two_screens

two_screens-IsConsistent : IsConsistent two_screens
unfolding has text_beq
two_screens-IsConsistent = record {
  distinct = (refl, (refl, tt));
  distinct_metadata = (refl, (refl, tt));
  same_keys = λ k. refl;
  active = refl;
}

two_screens-RefsDistinct : RefsDistinct two_screens.connections
two_screens-RefsDistinct = (((λ e. ground arith), tt), (tt, tt))

health_check-get_example :
    get lobby (health_check library 60000 60000 two_screens).connections
    ≡ survivor two_screens (get lobby two_screens.connections)
health_check-get_example =
    health_check-get library 60000 60000 lobby two_screens two_screens-IsConsistent
      two_screens-RefsDistinct

two_checks-removes_example :
    get lobby
      (health_check library 60000 60000 (health_check library 30000 60000 two_screens)).connections
    ≡ none
unfolding get text_beq new_manager
two_checks-removes_example =
    two_checks-removes library 30000 60000 60000 lobby 1 two_screens two_screens-IsConsistent
      two_screens-RefsDistinct refl refl

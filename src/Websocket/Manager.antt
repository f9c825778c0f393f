-- ===== src/Websocket/Manager.antt =====
-- server/src/websocket/client-manager.ts, class ClientConnectionManager. A socket is a reference
-- into `sockets`, so that two names of one socket see the same fields; `wire` is what the sockets
-- were told, the newest first. Every call takes the time at which it runs.
pub mod Send
pub mod Sweep
pub mod Consistent
pub mod Connect
pub mod Upkeep
pub mod Run
pub mod Dedup
pub mod Health
pub mod Delivery
pub mod Silence
use montr.Base.{
  ℕ, ◌+◌, ◌-◌, Text, Bool, true, false, not, ◌&&◌, ◌||◌, Option, none, some, List, [], ◌∷◌, length,
  filter, includes, ltb, ◌==◌, nat_eq, text_eq, if◌then◌else◌,
}
use montr.Base.Map.{Map, get, set, delete, keys, values}
use montr.Websocket.Types.{
  ReadyState, Socket, ServerMessage, AdminBroadcast, ConnectionMetadata, WebSocketStats, Effect,
  close_sent, message_sent, admin_sent, ping_sent, SocketLibrary,
}

pub record Manager : Type 0 where
  pub connections : Map Text ℕ
  pub metadata : Map Text ConnectionMetadata
  pub stats : WebSocketStats
  pub admins : List ℕ
  pub sockets : ℕ → Socket
  pub wire : List Effect

-- DEDUP_WINDOW_MS
abbrev pub dedup_window : ℕ
dedup_window = 10000

unfoldable pub new_manager : (ℕ → Socket) → Manager
new_manager sockets = record {
  connections = [];
  metadata = [];
  stats = record {
    total_connections = 0;
    active_connections = 0;
    messages_sent = 0;
    messages_received = 0;
    errors = 0;
  };
  admins = [];
  sockets = sockets;
  wire = [];
}

abbrev pub is_open : Socket → Bool
is_open ws = elim ws.ready_state [ ReadyState.open_state ↦ true | _ ↦ false ]

abbrev pub tell : Effect → Manager → Manager
tell e m = record m { wire = e ∷ m.wire }

unfoldable pub update_socket : ℕ → (Socket → Socket) → Manager → Manager
update_socket ref f m = record m {
  sockets = λ r. if r == ref then f (m.sockets r) else m.sockets r;
}

-- `ws.lastHeartbeat && now - ws.lastHeartbeat > limit`
abbrev pub heartbeat_older : ℕ → ℕ → Option ℕ → Bool
heartbeat_older now limit none = false
heartbeat_older now limit (some t) = not (t == 0) && ltb limit (now - t)

-- The age of a session, `none` where it has no metadata and the age is infinite.
abbrev pub session_age : ℕ → Option ConnectionMetadata → Option ℕ
session_age now none = none
session_age now (some meta) = some (now - meta.connected_at)

abbrev pub younger : ℕ → Option ℕ → Bool
younger window none = false
younger window (some age) = ltb age window

module _ (lib : SocketLibrary) where
  abbrev pub closed_socket : Socket → Socket
  closed_socket ws = record ws { ready_state = lib.after_close ws.ready_state }

  unfoldable pub close : ℕ → ℕ → Manager → Manager
  unfolding update_socket
  close ref code m = tell (close_sent ref code) (update_socket ref closed_socket m)

  unfoldable pub close_if_open : ℕ → ℕ → Manager → Manager
  unfolding close
  close_if_open ref code m = if is_open (m.sockets ref) then close ref code m else m

-- The session of `client_id` is open and began inside the window.
unfoldable pub is_duplicate : Text → ℕ → ℕ → Manager → Bool
is_duplicate client_id existing now m =
    is_open (m.sockets existing)
    && younger dedup_window (session_age now (get client_id m.metadata))

-- The part of `addConnection` that stores the connection, its metadata and the statistics.
unfoldable pub store_connection : Text → ℕ → ℕ → Manager → Manager
unfolding update_socket
store_connection client_id ref now m =
    let connections' = set client_id ref m.connections in
    record (update_socket ref
      (λ ws. record ws { client_id = some client_id; is_alive = true; last_heartbeat = some now })
      m) {
        connections = connections';
        metadata =
            set client_id (record { connected_at = now; last_heartbeat = now; message_count = 0 })
              m.metadata;
        stats = record m.stats {
          total_connections = m.stats.total_connections + 1;
          active_connections = length connections';
        };
      }

module _ (lib : SocketLibrary) where
  unfoldable pub add_connection : Text → ℕ → ℕ → Manager → Manager
  unfolding close_if_open is_duplicate store_connection
  add_connection client_id ref now m = elim (get client_id m.connections) [
    | none ↦ store_connection client_id ref now m
    | some existing ↦
        if is_duplicate client_id existing now m
        then close_if_open lib ref 1008 m
        else store_connection client_id ref now (close_if_open lib existing 1000 m)
  ]

  -- The part of `removeConnection` behind its two early returns.
  unfoldable pub drop_connection : Text → ℕ → Manager → Manager
  unfolding close_if_open
  drop_connection client_id current m =
      let m' = close_if_open lib current 1000 m in
      let connections' = delete client_id m'.connections in
      record m' {
        connections = connections';
        metadata = delete client_id m'.metadata;
        stats = record m'.stats { active_connections = length connections' };
      }

  -- `ws` given and another socket than the current one.
  abbrev pub other_socket : Option ℕ → ℕ → Bool
  other_socket none current = false
  other_socket (some ref) current = not (current == ref)

  unfoldable pub remove_connection : Text → Option ℕ → Manager → Manager
  unfolding drop_connection
  remove_connection client_id ws m = elim (get client_id m.connections) [
    | none ↦ m
    | some current ↦ if other_socket ws current then m else drop_connection client_id current m
  ]

unfoldable pub is_connected : Text → Manager → Bool
is_connected client_id m = elim (get client_id m.connections) [
  | none ↦ false
  | some ref ↦ is_open (m.sockets ref)
]

unfoldable pub connected_client_ids : Manager → List Text
connected_client_ids m = keys m.connections

abbrev pub touch_socket : Option ℕ → ℕ → Manager → Manager
touch_socket none now m = m
touch_socket (some ref) now m =
    update_socket ref (λ ws. record ws { is_alive = true; last_heartbeat = some now }) m

abbrev pub touch_metadata : Text → Option ConnectionMetadata → ℕ → Manager → Manager
touch_metadata client_id none now m = m
touch_metadata client_id (some meta) now m = record m {
  metadata = set client_id (record meta { last_heartbeat = now }) m.metadata;
}

unfoldable pub update_heartbeat : Text → ℕ → Manager → Manager
unfolding update_socket
update_heartbeat client_id now m =
    touch_metadata client_id (get client_id m.metadata) now
      (touch_socket (get client_id m.connections) now m)

abbrev pub count_message : Text → Option ConnectionMetadata → Manager → Manager
count_message client_id none m = m
count_message client_id (some meta) m = record m {
  metadata = set client_id (record meta { message_count = meta.message_count + 1 }) m.metadata;
}

unfoldable pub increment_message_count : Text → Manager → Manager
increment_message_count client_id m =
    let m' = count_message client_id (get client_id m.metadata) m in
    record m' { stats = record m'.stats { messages_received = m'.stats.messages_received + 1 } }

unfoldable pub increment_error_count : Manager → Manager
increment_error_count m = record m { stats = record m.stats { errors = m.stats.errors + 1 } }

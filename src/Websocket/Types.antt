-- ===== src/Websocket/Types.antt =====
-- server/src/websocket/types.ts: sockets, messages and the statistics of the connection manager.
-- The items, schedules and arguments that a message carries are its JSON text, which no function
-- of the connection manager reads.
use montr.Base.{ℕ, Text, Option, Bool, ◌≢◌, List}

-- `readyState` of a `ws` socket.
pub data ReadyState : Type 0 where
  connecting open_state closing closed : ReadyState

pub record Socket : Type 0 where
  pub ready_state : ReadyState
  pub client_id : Option Text
  pub is_alive : Bool
  pub last_heartbeat : Option ℕ

pub data ServerMessage : Type 0 where
  playlist_assigned playlist_updated playlist_interrupt playlist_resume : Text → ServerMessage
  command schedule_definitions : Text → ServerMessage
  error_response : Text → Option Text → ServerMessage
  success : Text → ServerMessage

pub data ClientState : Type 0 where
  online offline : ClientState

pub data AdminBroadcast : Type 0 where
  client_status_update client_error : Text → Text → AdminBroadcast
  client_state_change : Text → ClientState → AdminBroadcast

pub record ConnectionMetadata : Type 0 where
  pub connected_at : ℕ
  pub last_heartbeat : ℕ
  pub message_count : ℕ

pub record WebSocketStats : Type 0 where
  pub total_connections : ℕ
  pub active_connections : ℕ
  pub messages_sent : ℕ
  pub messages_received : ℕ
  pub errors : ℕ

-- What a socket, named by its reference, was told to do.
pub data Effect : Type 0 where
  close_sent : ℕ → ℕ → Effect
  message_sent : ℕ → ServerMessage → Effect
  admin_sent : ℕ → AdminBroadcast → Effect
  ping_sent : ℕ → Effect

-- The `ws` package: the state after `close()`, and the sends that throw, which may depend on all
-- that the sockets were told before.
pub record SocketLibrary : Type 0 where
  pub after_close : ReadyState → ReadyState
  pub after_close-open : after_close ReadyState.open_state ≢ ReadyState.open_state
  pub send_throws : List Effect → ℕ → ServerMessage → Bool
  pub admin_send_throws : List Effect → ℕ → AdminBroadcast → Bool

-- ===== src/Websocket/Manager/Send.antt =====
-- server/src/websocket/client-manager.ts: the sends to clients and to admin browsers.
use montr.Base.{
  ℕ, ◌+◌, Text, Bool, true, false, not, ◌&&◌, Option, none, some, List, [], ◌∷◌, ◌++◌, filter,
  includes, ◌==◌, nat_eq, text_eq, if◌then◌else◌,
}
use montr.Base.Map.{get}
use montr.Websocket.Types.{ServerMessage, AdminBroadcast, message_sent, admin_sent, SocketLibrary}
use montr.Websocket.Manager.{Manager, is_open, tell, increment_error_count, connected_client_ids}

module _ (lib : SocketLibrary) where
  -- `ws.send` in its `try`, with the counter that each outcome raises.
  unfoldable pub deliver : ℕ → ServerMessage → Manager → Manager × Bool
  unfolding increment_error_count
  deliver ref message m =
      if lib.send_throws m.wire ref message then (increment_error_count m, false) else (
        tell (message_sent ref message)
            (record m { stats = record m.stats { messages_sent = m.stats.messages_sent + 1 } }),
        true,
      )

  unfoldable pub send_to_client : Text → ServerMessage → Manager → Manager × Bool
  unfolding deliver
  send_to_client client_id message m = elim (get client_id m.connections) [
    | none ↦ (m, false)
    | some ref ↦ if is_open (m.sockets ref) then deliver ref message m else (m, false)
  ]

  -- The `forEach` of the broadcasts; `sent` is `sentCount`.
  unfoldable pub send_to_each : List Text → ServerMessage → ℕ → Manager → Manager × ℕ
  send_to_each [] message sent m = (m, sent)
  send_to_each (client_id ∷ ids) message sent m =
      let (m', done) = send_to_client client_id message m in
      send_to_each ids message (if done then sent + 1 else sent) m'

  unfoldable pub broadcast_to_all : ServerMessage → Manager → Manager × ℕ
  unfolding send_to_each connected_client_ids
  broadcast_to_all message m = send_to_each (connected_client_ids m) message 0 m

  -- `broadcastToPlaylist` and `broadcastToGroup`: `ids` are the clients that the database returns.
  unfoldable pub broadcast_to_clients : List Text → ServerMessage → Manager → Manager × ℕ
  unfolding send_to_each
  broadcast_to_clients ids message m = send_to_each ids message 0 m

  unfoldable pub send_error : Text → Text → Option Text → Manager → Manager × Bool
  unfolding send_to_client
  send_error client_id error details m =
      send_to_client client_id (ServerMessage.error_response error details) m

  unfoldable pub send_success : Text → Text → Manager → Manager × Bool
  unfolding send_to_client
  send_success client_id message m = send_to_client client_id (ServerMessage.success message) m

unfoldable pub add_admin_connection : ℕ → Manager → Manager
add_admin_connection ref m = record m {
  admins = if includes m.admins ref then m.admins else m.admins ++ ref ∷ [];
}

unfoldable pub remove_admin_connection : ℕ → Manager → Manager
remove_admin_connection ref m = record m { admins = filter (λ r. not (r == ref)) m.admins }

module _ (lib : SocketLibrary) where
  -- The `forEach` of `broadcastToAdmins`: a send that throws is passed over.
  unfoldable pub broadcast_to_each_admin : List ℕ → AdminBroadcast → ℕ → Manager → Manager × ℕ
  broadcast_to_each_admin [] message sent m = (m, sent)
  broadcast_to_each_admin (ref ∷ refs) message sent m =
      let done = is_open (m.sockets ref) && not (lib.admin_send_throws m.wire ref message) in
      broadcast_to_each_admin refs message (if done then sent + 1 else sent)
        (if done then tell (admin_sent ref message) m else m)

  unfoldable pub broadcast_to_admins : AdminBroadcast → Manager → Manager × ℕ
  unfolding broadcast_to_each_admin
  broadcast_to_admins message m = broadcast_to_each_admin m.admins message 0 m

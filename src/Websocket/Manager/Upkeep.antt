-- ===== src/Websocket/Manager/Upkeep.antt =====
-- server/src/websocket/client-manager.ts: the other calls keep the maps consistent.
use montr.Base.{ℕ, Text, Option, none, some, List, [], ◌∷◌, ◌≡◌, refl, ap, text_eq, nat_eq, arith}
use montr.Base.Map.{Map, get, has}
use montr.Websocket.Types.{ServerMessage, AdminBroadcast, SocketLibrary, ConnectionMetadata}
use montr.Websocket.Manager.{
  Manager, update_socket, update_heartbeat, increment_message_count, touch_socket, touch_metadata,
  count_message,
}
use montr.Websocket.Manager.Send.{send_to_client, send_to_each, broadcast_to_each_admin}
use montr.Base.Map.{values}
use montr.Websocket.Manager.Sweep.{
  clear_connections, clear_admins, check_client, check_each, remove_stale_each, close_each,
  close_all,
}
use montr.Websocket.Manager.Consistent.{
  IsConsistent, SameMaps, SameMaps-trans, SameMaps-IsConsistent, set_metadata-IsConsistent,
}
use montr.Websocket.Manager.Connect.{close_if_open-SameMaps, remove_connection-IsConsistent}

touch_socket-SameMaps : (o : Option ℕ) (now : ℕ) (m : Manager) → SameMaps m (touch_socket o now m)
unfolding update_socket
touch_socket-SameMaps none now m = record { connections = refl; metadata = refl; active = refl }
touch_socket-SameMaps (some ref) now m = record {
  connections = refl;
  metadata = refl;
  active = refl;
}

touch_metadata-IsConsistent :
    (client_id : Text) (o : Option ConnectionMetadata) (now : ℕ) (m : Manager)
    → get client_id m.metadata ≡ o
    → IsConsistent m
    → IsConsistent (touch_metadata client_id o now m)
touch_metadata-IsConsistent client_id none now m e c = c
touch_metadata-IsConsistent client_id (some meta) now m e c =
    set_metadata-IsConsistent client_id meta _ m e c

pub update_heartbeat-IsConsistent :
    (client_id : Text) (now : ℕ) (m : Manager)
    → IsConsistent m
    → IsConsistent (update_heartbeat client_id now m)
unfolding update_heartbeat
update_heartbeat-IsConsistent client_id now m c =
    let s = touch_socket-SameMaps (get client_id m.connections) now m in
    touch_metadata-IsConsistent client_id (get client_id m.metadata) now _
      (ap (get client_id) s.metadata) (SameMaps-IsConsistent _ _ s c)

count_message-IsConsistent :
    (client_id : Text) (o : Option ConnectionMetadata) (m : Manager)
    → get client_id m.metadata ≡ o
    → IsConsistent m
    → IsConsistent (count_message client_id o m)
count_message-IsConsistent client_id none m e c = c
count_message-IsConsistent client_id (some meta) m e c =
    set_metadata-IsConsistent client_id meta _ m e c

pub increment_message_count-IsConsistent :
    (client_id : Text) (m : Manager)
    → IsConsistent m
    → IsConsistent (increment_message_count client_id m)
unfolding increment_message_count
increment_message_count-IsConsistent client_id m c =
    SameMaps-IsConsistent (count_message client_id (get client_id m.metadata) m) _
      (record { connections = refl; metadata = refl; active = refl })
      (count_message-IsConsistent client_id (get client_id m.metadata) m refl c)

module _ (lib : SocketLibrary) where
  pub send_to_client-SameMaps :
      (client_id : Text) (message : ServerMessage) (m : Manager)
      → SameMaps m (send_to_client lib client_id message m).0
  unfolding send_to_client
  send_to_client-SameMaps client_id message m = ground arith

  pub send_to_each-SameMaps :
      (ids : List Text) (message : ServerMessage) (sent : ℕ) (m : Manager)
      → SameMaps m (send_to_each lib ids message sent m).0
  unfolding send_to_each
  send_to_each-SameMaps [] message sent m = record {
    connections = refl;
    metadata = refl;
    active = refl;
  }
  send_to_each-SameMaps (client_id ∷ ids) message sent m =
      SameMaps-trans _ _ _ (send_to_client-SameMaps client_id message m)
        (send_to_each-SameMaps ids message _ _)

  pub broadcast_to_each_admin-SameMaps :
      (refs : List ℕ) (message : AdminBroadcast) (sent : ℕ) (m : Manager)
      → SameMaps m (broadcast_to_each_admin lib refs message sent m).0
  unfolding broadcast_to_each_admin
  broadcast_to_each_admin-SameMaps [] message sent m = record {
    connections = refl;
    metadata = refl;
    active = refl;
  }
  broadcast_to_each_admin-SameMaps (ref ∷ refs) message sent m =
      SameMaps-trans _ _ _ (ground arith) (broadcast_to_each_admin-SameMaps refs message _ _)

  check_client-IsConsistent :
      (now timeout : ℕ) (client_id : Text) (ref : ℕ) (m : Manager)
      → IsConsistent m
      → IsConsistent (check_client lib now timeout (client_id, ref) m)
  unfolding check_client
  check_client-IsConsistent now timeout client_id ref m c =
      ground (arith, remove_connection-IsConsistent lib client_id (some ref) m c)

  pub check_each-IsConsistent :
      (now timeout : ℕ) (cs : Map Text ℕ) (m : Manager)
      → IsConsistent m
      → IsConsistent (check_each lib now timeout cs m)
  unfolding check_each
  check_each-IsConsistent now timeout [] m c = c
  check_each-IsConsistent now timeout ((client_id, ref) ∷ cs) m c =
      check_each-IsConsistent now timeout cs _
        (check_client-IsConsistent now timeout client_id ref m c)

  pub remove_stale_each-IsConsistent :
      (now max_age : ℕ) (cs : Map Text ℕ) (removed : ℕ) (m : Manager)
      → IsConsistent m
      → IsConsistent (remove_stale_each lib now max_age cs removed m).0
  unfolding remove_stale_each
  remove_stale_each-IsConsistent now max_age [] removed m c = c
  remove_stale_each-IsConsistent now max_age ((client_id, ref) ∷ cs) removed m c =
      remove_stale_each-IsConsistent now max_age cs _ _
        (ground (arith, remove_connection-IsConsistent lib client_id (some ref) m c))

  close_each-SameMaps : (refs : List ℕ) (m : Manager) → SameMaps m (close_each lib refs m)
  unfolding close_each
  close_each-SameMaps [] m = record { connections = refl; metadata = refl; active = refl }
  close_each-SameMaps (ref ∷ refs) m =
      SameMaps-trans _ _ _ (close_if_open-SameMaps lib ref 1000 m) (close_each-SameMaps refs _)

  pub close_all-IsConsistent : (m : Manager) → IsConsistent (close_all lib m)
  unfolding close_all has
  close_all-IsConsistent m =
      let cleared = clear_connections (close_each lib (values m.connections) m) in
      let s = close_each-SameMaps cleared.admins cleared in
      SameMaps-IsConsistent cleared (clear_admins (close_each lib cleared.admins cleared))
        (record { connections = s.connections; metadata = s.metadata; active = s.active })
        (record { distinct = tt; distinct_metadata = tt; same_keys = λ k. refl; active = refl })

-- ===== src/Websocket/Manager/Run.antt =====
-- server/src/websocket/client-manager.ts: any sequence of calls of the manager.
use montr.Base.{ℕ, Text, Option, List, [], ◌∷◌, text_eq, nat_eq}
use montr.Websocket.Types.{Socket, ServerMessage, AdminBroadcast, SocketLibrary}
use montr.Websocket.Manager.{
  Manager, new_manager, add_connection, remove_connection, update_heartbeat,
  increment_message_count, increment_error_count, connected_client_ids,
}
use montr.Websocket.Manager.Send.{
  send_to_client, broadcast_to_all, broadcast_to_clients, add_admin_connection,
  remove_admin_connection, broadcast_to_admins,
}
use montr.Websocket.Manager.Sweep.{health_check, remove_stale_connections, close_all}
use montr.Websocket.Manager.Consistent.{
  IsConsistent, SameMaps-IsConsistent, new_manager-IsConsistent,
}
use montr.Websocket.Manager.Connect.{add_connection-IsConsistent, remove_connection-IsConsistent}
use montr.Websocket.Manager.Upkeep.{
  update_heartbeat-IsConsistent, increment_message_count-IsConsistent, send_to_client-SameMaps,
  send_to_each-SameMaps, broadcast_to_each_admin-SameMaps, check_each-IsConsistent,
  remove_stale_each-IsConsistent, close_all-IsConsistent,
}

-- The calls that change the manager's state.
pub data Call : Type 0 where
  adds : Text → ℕ → ℕ → Call
  removes : Text → Option ℕ → Call
  heartbeats : Text → ℕ → Call
  counts_message counts_error : Text → Call
  sends : Text → ServerMessage → Call
  broadcasts : ServerMessage → Call
  broadcasts_to : List Text → ServerMessage → Call
  checks_health removes_stale : ℕ → ℕ → Call
  adds_admin removes_admin : ℕ → Call
  broadcasts_to_admins : AdminBroadcast → Call
  closes_all : Call

module _ (lib : SocketLibrary) where
  pub step : Manager → Call → Manager
  unfolding add_connection remove_connection update_heartbeat increment_message_count
      increment_error_count send_to_client broadcast_to_all broadcast_to_clients health_check
      remove_stale_connections add_admin_connection remove_admin_connection broadcast_to_admins
      close_all
  step m (adds client_id ref now) = add_connection lib client_id ref now m
  step m (removes client_id ws) = remove_connection lib client_id ws m
  step m (heartbeats client_id now) = update_heartbeat client_id now m
  step m (counts_message client_id) = increment_message_count client_id m
  step m (counts_error client_id) = increment_error_count m
  step m (sends client_id message) = (send_to_client lib client_id message m).0
  step m (broadcasts message) = (broadcast_to_all lib message m).0
  step m (broadcasts_to ids message) = (broadcast_to_clients lib ids message m).0
  step m (checks_health now timeout) = health_check lib now timeout m
  step m (removes_stale now max_age) = (remove_stale_connections lib now max_age m).0
  step m (adds_admin ref) = add_admin_connection ref m
  step m (removes_admin ref) = remove_admin_connection ref m
  step m (broadcasts_to_admins message) = (broadcast_to_admins lib message m).0
  step m closes_all = close_all lib m

  pub run : Manager → List Call → Manager
  unfolding step
  run m [] = m
  run m (c ∷ cs) = run (step m c) cs

  step-IsConsistent : (m : Manager) (c : Call) → IsConsistent m → IsConsistent (step m c)
  unfolding step
  step-IsConsistent m (adds client_id ref now) c =
      add_connection-IsConsistent lib client_id ref now m c
  step-IsConsistent m (removes client_id ws) c = remove_connection-IsConsistent lib client_id ws m c
  step-IsConsistent m (heartbeats client_id now) c = update_heartbeat-IsConsistent client_id now m c
  step-IsConsistent m (counts_message client_id) c =
      increment_message_count-IsConsistent client_id m c
  step-IsConsistent m (counts_error client_id) c = record {
    distinct = c.distinct;
    distinct_metadata = c.distinct_metadata;
    same_keys = c.same_keys;
    active = c.active;
  }
  step-IsConsistent m (sends client_id message) c =
      SameMaps-IsConsistent _ _ (send_to_client-SameMaps lib client_id message m) c
  step-IsConsistent m (broadcasts message) c =
      SameMaps-IsConsistent _ _ (send_to_each-SameMaps lib (connected_client_ids m) message 0 m) c
  step-IsConsistent m (broadcasts_to ids message) c =
      SameMaps-IsConsistent _ _ (send_to_each-SameMaps lib ids message 0 m) c
  step-IsConsistent m (checks_health now timeout) c =
      check_each-IsConsistent lib now timeout m.connections m c
  step-IsConsistent m (removes_stale now max_age) c =
      remove_stale_each-IsConsistent lib now max_age m.connections 0 m c
  step-IsConsistent m (adds_admin ref) c = record {
    distinct = c.distinct;
    distinct_metadata = c.distinct_metadata;
    same_keys = c.same_keys;
    active = c.active;
  }
  step-IsConsistent m (removes_admin ref) c = record {
    distinct = c.distinct;
    distinct_metadata = c.distinct_metadata;
    same_keys = c.same_keys;
    active = c.active;
  }
  step-IsConsistent m (broadcasts_to_admins message) c =
      SameMaps-IsConsistent _ _ (broadcast_to_each_admin-SameMaps lib m.admins message 0 m) c
  step-IsConsistent m closes_all c = close_all-IsConsistent lib m

  run_from-IsConsistent : (m : Manager) (cs : List Call) → IsConsistent m → IsConsistent (run m cs)
  unfolding run
  run_from-IsConsistent m [] c = c
  run_from-IsConsistent m (call ∷ cs) c =
      run_from-IsConsistent (step m call) cs (step-IsConsistent m call c)

  -- After any sequence of calls on a new manager the two maps hold the same clients, each once, and
  -- the reported number of active connections is the size of the connection map.
  pub run-IsConsistent :
      (sockets : ℕ → Socket) (cs : List Call) → IsConsistent (run (new_manager sockets) cs)
  run-IsConsistent sockets cs = run_from-IsConsistent _ cs (new_manager-IsConsistent sockets)

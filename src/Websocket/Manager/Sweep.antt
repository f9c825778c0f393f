-- ===== src/Websocket/Manager/Sweep.antt =====
-- server/src/websocket/client-manager.ts: health checks, the removal of stale sessions, shutdown.
use montr.Base.{
  ℕ, ◌+◌, Text, not, List, [], ◌∷◌, some, false, length, text_eq, nat_eq, if◌then◌else◌,
}
use montr.Base.Map.{Map, values}
use montr.Websocket.Types.{WebSocketStats, ping_sent, SocketLibrary}
use montr.Websocket.Manager.{
  Manager, is_open, tell, update_socket, close_if_open, remove_connection, heartbeat_older,
}

module _ (lib : SocketLibrary) where
  -- The body of the `forEach` of `healthCheck`.
  unfoldable pub check_client : ℕ → ℕ → Text × ℕ → Manager → Manager
  unfolding remove_connection update_socket
  check_client now timeout (client_id, ref) m =
      let ws = m.sockets ref in
      let dead = update_socket ref (λ ws'. record ws' { is_alive = false }) m in
      if not ws.is_alive
      then remove_connection lib client_id (some ref) m
      else if heartbeat_older now timeout ws.last_heartbeat
      then dead
      else if is_open ws
      then tell (ping_sent ref) dead
      else m

  unfoldable pub check_each : ℕ → ℕ → Map Text ℕ → Manager → Manager
  check_each now timeout [] m = m
  check_each now timeout (c ∷ cs) m = check_each now timeout cs (check_client now timeout c m)

  unfoldable pub health_check : ℕ → ℕ → Manager → Manager
  unfolding check_each check_client
  health_check now timeout m = check_each now timeout m.connections m

  -- The `forEach` of `removeStaleConnections`; `removed` is `removedCount`.
  unfoldable pub remove_stale_each : ℕ → ℕ → Map Text ℕ → ℕ → Manager → Manager × ℕ
  remove_stale_each now max_age [] removed m = (m, removed)
  remove_stale_each now max_age ((client_id, ref) ∷ cs) removed m =
      let stale = heartbeat_older now max_age (m.sockets ref).last_heartbeat in
      remove_stale_each now max_age cs (if stale then removed + 1 else removed)
        (if stale then remove_connection lib client_id (some ref) m else m)

  unfoldable pub remove_stale_connections : ℕ → ℕ → Manager → Manager × ℕ
  unfolding remove_stale_each remove_connection
  remove_stale_connections now max_age m = remove_stale_each now max_age m.connections 0 m

  unfoldable pub close_each : List ℕ → Manager → Manager
  unfolding close_if_open
  close_each [] m = m
  close_each (ref ∷ refs) m = close_each refs (close_if_open lib ref 1000 m)

abbrev pub clear_connections : Manager → Manager
clear_connections m = record m {
  connections = [];
  metadata = [];
  stats = record m.stats { active_connections = 0 };
}

abbrev pub clear_admins : Manager → Manager
clear_admins m = record m { admins = [] }

module _ (lib : SocketLibrary) where
  unfoldable pub close_all : Manager → Manager
  unfolding close_each
  close_all m =
      let cleared = clear_connections (close_each lib (values m.connections) m) in
      clear_admins (close_each lib cleared.admins cleared)

unfoldable pub get_stats : Manager → WebSocketStats
get_stats m = record m.stats { active_connections = length m.connections }

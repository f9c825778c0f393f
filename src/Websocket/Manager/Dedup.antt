-- ===== src/Websocket/Manager/Dedup.antt =====
-- server/src/websocket/client-manager.ts: duplicate registrations, reconnects, and the late close
-- event of a connection that was replaced.
use montr.Base.{ℕ, Text, List, [], ◌∷◌, ◌≡◌, text_eq, nat_eq, arith, ◌≢◌}
use montr.Base.Map.{get, get-set}
use montr.Websocket.Types.{SocketLibrary}
use montr.Websocket.Manager.{Manager, add_connection}

-- A registration leaves the connections of all other clients alone.
add_connection-other :
    (lib : SocketLibrary) (client_id k : Text) (ref now : ℕ) (m : Manager)
    → client_id ≢ k
    → (get k (add_connection lib client_id ref now m).connections ≡ get k m.connections)
      × (get k (add_connection lib client_id ref now m).metadata ≡ get k m.metadata)
unfolding add_connection
add_connection-other lib client_id k ref now m h = (
  ground (arith, get-set client_id k ref m.connections, text_eq.beq_iff client_id k),
  ground (
    arith,
    get-set client_id k (record { connected_at = now; last_heartbeat = now; message_count = 0 })
        m.metadata,
    text_eq.beq_iff client_id k,
  ),
)

module _ (lib : SocketLibrary) (client_id : Text) where
  -- Registrations of one client, each by a socket at a time.
  pub register_all : List (ℕ × ℕ) → Manager → Manager
  register_all [] m = m
  register_all ((ref, now) ∷ rs) m = register_all rs (add_connection lib client_id ref now m)

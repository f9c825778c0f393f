-- ===== src/Websocket/Manager/Connect.antt =====
-- server/src/websocket/client-manager.ts: addConnection and removeConnection keep the maps consistent.
use montr.Base.{ℕ, Text, Option, refl, text_eq, nat_eq, arith, Option-cases, Bool-cases, inl, inr}
use montr.Base.Map.{get, Distinct-set, Distinct-delete, has-set, has-delete}
use montr.Websocket.Types.{SocketLibrary}
use montr.Websocket.Manager.{
  Manager, close_if_open, is_duplicate, store_connection, add_connection, drop_connection,
  remove_connection, other_socket,
}
use montr.Websocket.Manager.Consistent.{IsConsistent, SameMaps, SameMaps-IsConsistent}

pub store_connection-IsConsistent :
    (client_id : Text) (ref now : ℕ) (m : Manager)
    → IsConsistent m
    → IsConsistent (store_connection client_id ref now m)
unfolding store_connection
store_connection-IsConsistent client_id ref now m c = record {
  distinct = Distinct-set client_id ref m.connections c.distinct;
  distinct_metadata = Distinct-set client_id _ m.metadata c.distinct_metadata;
  same_keys = λ k. simp (has-set, c.same_keys k);
  active = refl;
}

module _ (lib : SocketLibrary) where
  pub close_if_open-SameMaps :
      (ref code : ℕ) (m : Manager) → SameMaps m (close_if_open lib ref code m)
  unfolding close_if_open
  close_if_open-SameMaps ref code m = ground arith

  pub add_connection-IsConsistent :
      (client_id : Text) (ref now : ℕ) (m : Manager)
      → IsConsistent m
      → IsConsistent (add_connection lib client_id ref now m)
  unfolding add_connection
  add_connection-IsConsistent client_id ref now m c =
      elim (Option-cases (get client_id m.connections)) [
        | inl e ↦ rw (e, add_connection) (store_connection-IsConsistent client_id ref now m c)
        | inr (existing, e) ↦ elim (Bool-cases (is_duplicate client_id existing now m)) [
          | inl d ↦
              rw (e, d, add_connection)
                (SameMaps-IsConsistent _ _ (close_if_open-SameMaps ref 1008 m) c)
          | inr d ↦
              rw (e, d, add_connection)
                (store_connection-IsConsistent client_id ref now _
                  (SameMaps-IsConsistent _ _ (close_if_open-SameMaps existing 1000 m) c))
        ]
      ]

  drop_connection-IsConsistent :
      (client_id : Text) (current : ℕ) (m : Manager)
      → IsConsistent m
      → IsConsistent (drop_connection lib client_id current m)
  unfolding drop_connection
  drop_connection-IsConsistent client_id current m c =
      let c' = SameMaps-IsConsistent _ _ (close_if_open-SameMaps current 1000 m) c in
      record {
        distinct = Distinct-delete client_id _ c'.distinct;
        distinct_metadata = Distinct-delete client_id _ c'.distinct_metadata;
        same_keys = λ k. simp (has-delete, c'.same_keys k);
        active = refl;
      }

  pub remove_connection-IsConsistent :
      (client_id : Text) (ws : Option ℕ) (m : Manager)
      → IsConsistent m
      → IsConsistent (remove_connection lib client_id ws m)
  unfolding remove_connection
  remove_connection-IsConsistent client_id ws m c =
      elim (Option-cases (get client_id m.connections)) [
        | inl e ↦ rw (e, remove_connection) c
        | inr (current, e) ↦ elim (Bool-cases (other_socket lib ws current)) [
          | inl d ↦ rw (e, d, remove_connection) c
          | inr d ↦
              rw (e, d, remove_connection) (drop_connection-IsConsistent client_id current m c)
        ]
      ]

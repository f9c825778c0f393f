-- ===== src/Websocket/Manager/Consistent.antt =====
-- server/src/websocket/client-manager.ts: the maps and the statistics agree.
use montr.Base.{ℕ, Text, some, length, ◌≡◌, refl, ap, ◌∙◌, text_eq, nat_eq, arith}
use montr.Base.Map.{get, set, has, Distinct, Distinct-set, has-of_get, has-set_present}
use montr.Websocket.Types.{Socket, ConnectionMetadata}
use montr.Websocket.Manager.{Manager, new_manager}

-- Both maps hold a key once, they hold the same keys, and the count is the size of the map.
pub record IsConsistent (m : Manager) : Type 0 where
  pub distinct : Distinct m.connections
  pub distinct_metadata : Distinct m.metadata
  pub same_keys : (k : Text) → has k m.metadata ≡ has k m.connections
  pub active : m.stats.active_connections ≡ length m.connections

-- `m'` differs from `m` in its sockets, its wire and its other counters at most.
pub record SameMaps (m m' : Manager) : Type 0 where
  pub connections : m'.connections ≡ m.connections
  pub metadata : m'.metadata ≡ m.metadata
  pub active : m'.stats.active_connections ≡ m.stats.active_connections

pub SameMaps-trans : (k m n : Manager) → SameMaps k m → SameMaps m n → SameMaps k n
SameMaps-trans k m n s t = record {
  connections = t.connections ∙ s.connections;
  metadata = t.metadata ∙ s.metadata;
  active = t.active ∙ s.active;
}

pub SameMaps-IsConsistent : (m m' : Manager) → SameMaps m m' → IsConsistent m → IsConsistent m'
SameMaps-IsConsistent m m' s c = record {
  distinct = rw s.connections c.distinct;
  distinct_metadata = rw s.metadata c.distinct_metadata;
  same_keys = λ k. rw (s.metadata, s.connections) (c.same_keys k);
  active = ground (arith, ap length s.connections);
}

pub new_manager-IsConsistent : (sockets : ℕ → Socket) → IsConsistent (new_manager sockets)
unfolding new_manager has
new_manager-IsConsistent sockets = record {
  distinct = tt;
  distinct_metadata = tt;
  same_keys = λ k. refl;
  active = refl;
}

-- The metadata of a key that is there is written anew.
pub set_metadata-IsConsistent :
    (client_id : Text) (meta meta' : ConnectionMetadata) (m : Manager)
    → get client_id m.metadata ≡ some meta
    → IsConsistent m
    → IsConsistent (record m { metadata = set client_id meta' m.metadata })
set_metadata-IsConsistent client_id meta meta' m e c = record {
  distinct = c.distinct;
  distinct_metadata = Distinct-set client_id meta' m.metadata c.distinct_metadata;
  same_keys = λ k.
      has-set_present client_id k meta' m.metadata (has-of_get client_id meta m.metadata e)
      ∙ c.same_keys k;
  active = c.active;
}

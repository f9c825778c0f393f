-- ===== src/Cluster/SessionStore.antt =====
-- server/src/cluster/session-store.ts, class MemorySessionStore.
use montr.Base.{
  ℕ, zero, suc, ◌+◌, ◌*◌, Text, Bool, false, Option, none, some, List, [], ◌∷◌, ltb, text_eq,
  if◌then◌else◌, filter,
}
use montr.Base.Map.{Map, get, set, delete, keys}

pub record Entry : Type 0 where
  pub value : Text
  pub expires_at : Option ℕ

abbrev pub Store : Type 0
Store = Map Text Entry

-- `ttlSeconds ? Date.now() + ttlSeconds * 1000 : undefined`
abbrev pub expiry : Option ℕ → ℕ → Option ℕ
expiry none now = none
expiry (some zero) now = none
expiry (some (suc n)) now = some (now + suc n * 1000)

-- `entry.expiresAt && Date.now() > entry.expiresAt`
abbrev pub has_expired : ℕ → Entry → Bool
has_expired now e = elim e.expires_at [
  | none ↦ false
  | some zero ↦ false
  | some (suc t) ↦ ltb (suc t) now
]

-- The value of a live entry; an expired one is deleted.
unfoldable pub get_value : Text → ℕ → Store → Store × Option Text
get_value key now s = elim (get key s) [
  | none ↦ (s, none)
  | some e ↦ if has_expired now e then (delete key s, none) else (s, some e.value)
]

unfoldable pub set_value : Text → Text → Option ℕ → ℕ → Store → Store
set_value key value ttl now s = set key (record { value = value; expires_at = expiry ttl now }) s

unfoldable pub delete_value : Text → Store → Store
delete_value key s = delete key s

-- `keys`; whether a key matches a pattern is the regular expressions'.
unfoldable pub matching_keys : (Text → Text → Bool) → Text → Store → List Text
matching_keys matches pattern s = filter (matches pattern) (keys s)

-- The calls that read or write one key.
pub data Call : Type 0 where
  gets : Text → ℕ → Call
  sets : Text → Text → Option ℕ → ℕ → Call
  deletes : Text → Call

-- What the reads return, in order.
unfoldable pub run : Store → List Call → List (Option Text)
unfolding get_value set_value delete_value
run s [] = []
run s (gets key now ∷ cs) = let (s', v) = get_value key now s in v ∷ run s' cs
run s (sets key value ttl now ∷ cs) = run (set_value key value ttl now s) cs
run s (deletes key ∷ cs) = run (delete_value key s) cs

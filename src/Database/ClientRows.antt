-- ===== src/Database/ClientRows.antt =====
-- server/src/database/adapters/sql-base.adapter.ts: the operations on clients and on their playlist
-- assignments. The adapter's own errors are `foreign`.
use montr.Base.{
  ℕ, Text, Bool, true, false, not, ◌&&◌, Option, none, some, List, [], ◌∷◌, ◌++◌, map, filter,
  includes, ◌==◌, nat_eq, text_eq, ltb, if◌then◌else◌, Action, foreign, ◌>>=◌, ◌>>◌, give, reads,
  writes, require, reject_if,
}
use montr.Base.Map.{get, has, delete, modify}
use montr.Database.Tables.{
  offline, Client, UpdateClientInput, CreateClientInput, ClientPlaylist, Tables,
}

abbrev pub or_old {ℓ} : {A : Type ℓ} → Option A → A → A
or_old none old = old
or_old (some new) old = new

abbrev pub or_old? {ℓ} : {A : Type ℓ} → Option A → Option A → Option A
or_old? none old = old
or_old? (some new) old = some new

-- The columns that `updateClient` sets.
abbrev pub set_fields : UpdateClientInput → Client → Client
set_fields input c = record c {
  name = or_old input.name c.name;
  assigned_playlist_id = or_old input.assigned_playlist_id c.assigned_playlist_id;
  status = or_old input.status c.status;
  last_seen = or_old? input.last_seen c.last_seen;
  version = or_old? input.version c.version;
  capabilities = or_old? input.capabilities c.capabilities;
}

abbrev pub newest_first {ℓ} : {A : Type ℓ} → List A → List A
newest_first [] = []
newest_first (x ∷ xs) = newest_first xs ++ x ∷ []

-- `getAllClients`, with its `ORDER BY created_at DESC`: the table has the rows in the order of their
-- creation.
unfoldable pub all_clients : Tables → List (Text × Client)
all_clients t = newest_first t.clients

unfoldable pub get_client : Text → Action Tables (Option Client)
get_client id = reads (λ t. get id t.clients)

-- The foreign key of `assigned_playlist_id`.
abbrev pub playlist_exists : Option (Option ℕ) → Tables → Bool
playlist_exists none t = true
playlist_exists (some none) t = true
playlist_exists (some (some playlist_id)) t = includes t.playlists playlist_id

-- The statement, which fails for a playlist that does not exist, and the read of the row, which throws
-- if it is not there. Without a field to set the statement is not run, and to run it would change no
-- row.
unfoldable pub update_client : Text → UpdateClientInput → Action Tables Client
unfolding get_client
update_client id input = do
  refers ← reads (playlist_exists input.assigned_playlist_id)
  reject_if (not refers) foreign
  writes (λ t. record t { clients = modify id (set_fields input) t.clients })
  row ← get_client id
  require foreign row

-- `|| null`
abbrev pub or_null : Option Text → Option Text
or_null none = none
or_null (some []) = none
or_null (some (c ∷ s)) = some (c ∷ s)

-- The insertion violates the primary key if the client is there.
unfoldable pub create_client : CreateClientInput → ℕ → Action Tables Client
unfolding get_client
create_client input now = do
  known ← reads (λ t. has input.id t.clients)
  reject_if known foreign
  writes (λ t. record t {
    clients =
        t.clients
        ++ (
          input.id,
          record {
            name = input.name;
            assigned_playlist_id = none;
            interrupted_from_playlist_id = none;
            status = offline;
            last_seen = some now;
            version = or_null input.version;
            capabilities = or_null input.capabilities;
          },
        )
          ∷ [];
  })
  row ← get_client input.id
  require foreign row

-- The assignments and the group memberships of a client go with it.
unfoldable pub delete_client : Text → Action Tables (Unit {0})
delete_client id = writes (λ t. record t {
  clients = delete id t.clients;
  client_playlists = filter (λ p. not (p.client_id == id)) t.client_playlists;
  group_members = map (λ g. (g.0, filter (λ c. not (c == id)) g.1)) t.group_members;
})

abbrev pub is_assignment : Text → ℕ → ClientPlaylist → Bool
is_assignment id playlist_id p = (p.client_id == id) && (p.playlist_id == playlist_id)

abbrev pub any : (ClientPlaylist → Bool) → List ClientPlaylist → Bool
any p [] = false
any p (x ∷ xs) = if p x then true else any p xs

-- The insertion violates the unique pair of client and playlist if the assignment is there.
unfoldable pub add_client_playlist : Text → ℕ → ℕ → Action Tables ClientPlaylist
add_client_playlist id playlist_id priority = do
  known ← reads (λ t. any (is_assignment id playlist_id) t.client_playlists)
  reject_if known foreign
  let row : ClientPlaylist = record {
    client_id = id;
    playlist_id = playlist_id;
    priority = priority;
  }
  writes (λ t. record t { client_playlists = t.client_playlists ++ row ∷ [] })
  give row

unfoldable pub remove_client_playlist : Text → ℕ → Action Tables (Unit {0})
remove_client_playlist id playlist_id = writes (λ t. record t {
  client_playlists = filter (λ p. not (is_assignment id playlist_id p)) t.client_playlists;
})

-- `ORDER BY cp.priority DESC`; rows of one priority stay in the order of the table.
unfoldable pub insert_by_priority : ClientPlaylist → List ClientPlaylist → List ClientPlaylist
insert_by_priority p [] = p ∷ []
insert_by_priority p (q ∷ qs) =
    if ltb p.priority q.priority then q ∷ insert_by_priority p qs else p ∷ q ∷ qs

unfoldable pub by_priority : List ClientPlaylist → List ClientPlaylist
unfolding insert_by_priority
by_priority [] = []
by_priority (p ∷ ps) = insert_by_priority p (by_priority ps)

-- The assignments of a client to playlists that exist.
unfoldable pub assignments_of : Text → Tables → List ClientPlaylist
assignments_of id t =
    filter (λ p. (p.client_id == id) && includes t.playlists p.playlist_id) t.client_playlists

unfoldable pub get_client_playlists : Text → Action Tables (List ClientPlaylist)
unfolding by_priority assignments_of
get_client_playlists id = reads (λ t. by_priority (assignments_of id t))

abbrev find : (ClientPlaylist → Bool) → List ClientPlaylist → Option ClientPlaylist
find p [] = none
find p (x ∷ xs) = if p x then some x else find p xs

unfoldable pub update_client_playlist_priority : Text → ℕ → ℕ → Action Tables ClientPlaylist
update_client_playlist_priority id playlist_id priority = do
  writes (λ t. record t {
    client_playlists =
        map (λ p. if is_assignment id playlist_id p then record p { priority = priority } else p)
          t.client_playlists;
  })
  row ← reads (λ t. find (is_assignment id playlist_id) t.client_playlists)
  require foreign row

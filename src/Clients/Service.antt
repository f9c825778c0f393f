-- ===== src/Clients/Service.antt =====
-- server/src/services/client.service.ts, class ClientService. The tables and the connection manager
-- are the state; a call takes the time at which it runs.
use montr.Base.{
  ℕ, ◌+◌, ◌-◌, Text, Bool, true, false, not, Option, none, some, List, [], ◌∷◌, length, ltb,
  if◌then◌else◌, text_eq, nat_eq, includes, Action, Result, ok, throw, app_error, client_not_found,
  client_already_registered, playlist_not_found, bad_request, ◌>>=◌, ◌>>◌, give, reads, require,
  reject_if, filter, and_then,
}
use montr.Base.Map.{Map}
use montr.Database.Tables.{
  ClientStatus, offline, online, error, Client, UpdateClientInput, CreateClientInput,
  ClientPlaylist, Tables,
}
use montr.Database.ClientRows.{
  get_client, all_clients, update_client, create_client, delete_client, add_client_playlist,
  remove_client_playlist, get_client_playlists, update_client_playlist_priority,
}
use montr.Websocket.Types.{SocketLibrary, client_state_change, ClientState}
use montr.Websocket.Manager.{Manager, remove_connection}
use montr.Websocket.Manager.Send.{broadcast_to_admins}

-- No field to update.
abbrev pub no_update : UpdateClientInput
no_update = record {
  name = none;
  assigned_playlist_id = none;
  interrupted_from_playlist_id = none;
  status = none;
  last_seen = none;
  version = none;
  capabilities = none;
}

unfoldable pub get_client_by_id : Text → Action Tables Client
unfolding get_client
get_client_by_id id = do row ← get_client id; require (app_error client_not_found) row

-- `db.getPlaylistById` and the error if there is none.
unfoldable pub check_playlist : ℕ → Action Tables (Unit {0})
check_playlist playlist_id = do
  known ← reads (λ t. includes t.playlists playlist_id)
  reject_if (not known) (app_error playlist_not_found)

abbrev pub check_playlist? : Option (Option ℕ) → Action Tables (Unit {0})
check_playlist? (some (some playlist_id)) = check_playlist playlist_id
check_playlist? (some none) = give tt
check_playlist? none = give tt

unfoldable pub register_client : CreateClientInput → ℕ → Action Tables Client
unfolding create_client get_client
register_client input now = do
  existing ← get_client input.id
  reject_if (elim existing [ none ↦ false | some _ ↦ true ]) (app_error client_already_registered)
  create_client input now

-- `updateClient` of the service.
unfoldable pub change_client : Text → UpdateClientInput → Action Tables Client
unfolding get_client_by_id check_playlist update_client
change_client id input = do
  c ← get_client_by_id id
  check_playlist? input.assigned_playlist_id
  update_client id input

unfoldable pub update_heartbeat : Text → ℕ → Action Tables Client
unfolding update_client
update_heartbeat id now =
    update_client id (record no_update { last_seen = some now; status = some online })

-- `recordClientStatus`, after the row of the status log is written.
unfoldable pub record_client_status : Text → Bool → ℕ → Action Tables Client
unfolding get_client_by_id update_client
record_client_status id has_error now = do
  c ← get_client_by_id id
  update_client id (record no_update {
    last_seen = some now;
    status = some (if has_error then error else online);
  })

unfoldable pub assign_playlist : Text → Option ℕ → Action Tables Client
unfolding get_client_by_id change_client check_playlist
assign_playlist id playlist_id = do
  c ← get_client_by_id id
  check_playlist? (some playlist_id)
  change_client id (record no_update { assigned_playlist_id = some playlist_id })

abbrev pub first_playlist : List ClientPlaylist → Option ℕ
first_playlist [] = none
first_playlist (p ∷ ps) = some p.playlist_id

unfoldable pub resolve_active_playlist : Text → Action Tables (Option ℕ)
unfolding get_client_playlists update_client
resolve_active_playlist id = do
  assignments ← get_client_playlists id
  c ←
      update_client id
        (record no_update { assigned_playlist_id = some (first_playlist assignments) })
  give (first_playlist assignments)

unfoldable pub add_playlist_assignment : Text → ℕ → ℕ → Action Tables ClientPlaylist
unfolding get_client_by_id check_playlist add_client_playlist resolve_active_playlist
add_playlist_assignment id playlist_id priority = do
  c ← get_client_by_id id
  check_playlist playlist_id
  assignment ← add_client_playlist id playlist_id priority
  active ← resolve_active_playlist id
  give assignment

unfoldable pub remove_playlist_assignment : Text → ℕ → Action Tables (Option ℕ)
unfolding get_client_by_id remove_client_playlist resolve_active_playlist
remove_playlist_assignment id playlist_id = do
  c ← get_client_by_id id
  remove_client_playlist id playlist_id
  resolve_active_playlist id

unfoldable pub get_playlist_assignments : Text → Action Tables (List ClientPlaylist)
unfolding get_client_by_id get_client_playlists
get_playlist_assignments id = do c ← get_client_by_id id; get_client_playlists id

unfoldable pub update_playlist_priority : Text → ℕ → ℕ → Action Tables ClientPlaylist
unfolding get_client_by_id update_client_playlist_priority resolve_active_playlist
update_playlist_priority id playlist_id priority = do
  c ← get_client_by_id id
  updated ← update_client_playlist_priority id playlist_id priority
  active ← resolve_active_playlist id
  give updated

-- `client.interrupted_from_playlist_id ?? client.assigned_playlist_id`
abbrev pub resume_point : Client → Option ℕ
resume_point c = elim c.interrupted_from_playlist_id [
  | none ↦ c.assigned_playlist_id
  | some p ↦ some p
]

unfoldable pub interrupt_with_playlist : Text → ℕ → Action Tables Client
unfolding get_client_by_id check_playlist update_client
interrupt_with_playlist id playlist_id = do
  c ← get_client_by_id id
  check_playlist playlist_id
  update_client id (record no_update {
    assigned_playlist_id = some (some playlist_id);
    interrupted_from_playlist_id = some (resume_point c);
  })

unfoldable pub resume_from_interrupt : Text → Action Tables Client
unfolding get_client_by_id update_client
resume_from_interrupt id = do
  c ← get_client_by_id id
  previous ← require (app_error bad_request) c.interrupted_from_playlist_id
  update_client id (record no_update {
    assigned_playlist_id = some (some previous);
    interrupted_from_playlist_id = some none;
  })

-- `now - lastSeenTime > timeoutMs`; a client never seen stays.
abbrev pub unseen_for : ℕ → ℕ → Client → Bool
unseen_for now timeout c = elim c.last_seen [ none ↦ false | some t ↦ ltb timeout (now - t) ]

abbrev pub is_online : Client → Bool
is_online c = elim c.status [ online ↦ true | _ ↦ false ]

-- The loop over the clients that were online; `marked` is `markedOffline`.
unfoldable pub mark_each : ℕ → ℕ → List (Text × Client) → ℕ → Action Tables ℕ
mark_each now timeout [] marked t = (t, ok marked)
mark_each now timeout ((id, c) ∷ cs) marked t = elim (unseen_for now timeout c) [
  | true ↦
      and_then (update_client id (record no_update { status = some offline }) t)
        (λ _. mark_each now timeout cs (marked + 1))
  | false ↦ mark_each now timeout cs marked t
]

unfoldable pub mark_offline_clients : ℕ → ℕ → Action Tables ℕ
unfolding mark_each update_client all_clients
mark_offline_clients now timeout = do
  clients ← reads (λ t. filter (λ e. is_online e.1) (all_clients t))
  mark_each now timeout clients 0

-- The tables and the connections of the running server.
pub record Server : Type 0 where
  pub tables : Tables
  pub manager : Manager

unfoldable pub unregister_client : SocketLibrary → Text → Server → Server × Result (Unit {0})
unfolding get_client_by_id remove_connection broadcast_to_admins delete_client
unregister_client lib id s =
    let (t, found) = get_client_by_id id s.tables in
    elim found [
      | throw e ↦ (record s { tables = t }, throw e)
      | ok _ ↦
          let m = remove_connection lib id none s.manager in
          let m' = (broadcast_to_admins lib (client_state_change id ClientState.offline) m).0 in
          (record { tables = (delete_client id t).0; manager = m' }, ok tt)
    ]

-- `getClientStats`: total, online, offline, error.
pub record ClientStats : Type 0 where
  pub total : ℕ
  pub online : ℕ
  pub offline : ℕ
  pub error : ℕ

abbrev pub count_status : ClientStatus → ClientStats → ClientStats
count_status ClientStatus.online s = record s { online = s.online + 1 }
count_status ClientStatus.offline s = record s { offline = s.offline + 1 }
count_status ClientStatus.error s = record s { error = s.error + 1 }

unfoldable pub count_each : Map Text Client → ClientStats → ClientStats
count_each [] s = s
count_each ((id, c) ∷ cs) s = count_each cs (count_status c.status s)

unfoldable pub get_client_stats : Tables → ClientStats
unfolding count_each
get_client_stats t =
    count_each t.clients (record { total = length t.clients; online = 0; offline = 0; error = 0 })

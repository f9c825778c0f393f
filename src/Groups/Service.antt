-- ===== src/Groups/Service.antt =====
-- server/src/services/group.service.ts, over the group rows of
-- server/src/database/adapters/sql-base.adapter.ts. The members of a group are the list of the ids in
-- `group_members`, one list for each group. That the groups of a client are ordered by name is not modelled.
use montr.Base.{
  ℕ, ◌+◌, Text, not, Option, none, some, List, [], ◌∷◌, ◌++◌, ◌==◌, nat_eq, text_eq, if◌then◌else◌,
  filter, includes, Action, ok, app_error, foreign, resource_not_found, resource_already_exists,
  client_not_found, playlist_not_found, and_then, ◌>>=◌, ◌>>◌, give, reads, writes, require,
  reject_if,
}
use montr.Base.Map.{Map, get, set, has, delete, modify}
use montr.Database.Tables.{Tables}
use montr.Database.ClientRows.{or_null, get_client, update_client}
use montr.Clients.Service.{no_update}
use montr.Scheduling.Dispatch.{members_of}
use montr.Scheduling.Audience.{groups_of}

pub record ClientGroup : Type 0 where
  pub name : Text
  pub description : Option Text

pub record GroupTables : Type 0 where
  pub tables : Tables
  pub groups : Map ℕ ClientGroup
  pub next_group : ℕ

-- `undefined` is `none`.
pub record UpdateClientGroupInput : Type 0 where
  pub name : Option Text
  pub description : Option Text

-- A call on the tables of clients.
abbrev pub on_client_tables : {A : Type 0} → Action Tables A → Action GroupTables A
on_client_tables f s = let (t, r) = f s.tables in (record s { tables = t }, r)

abbrev pub change_members : (Map ℕ (List Text) → Map ℕ (List Text)) → GroupTables → GroupTables
change_members f s = record s {
  tables = record s.tables { group_members = f s.tables.group_members };
}

unfoldable pub create_group : Text → Option Text → Action GroupTables ℕ
create_group name description s =
    give s.next_group (record (change_members (set s.next_group []) s) {
      groups =
          set s.next_group (record { name = name; description = or_null description }) s.groups;
      next_group = s.next_group + 1;
    })

unfoldable pub get_group_by_id : ℕ → Action GroupTables ClientGroup
get_group_by_id id = do
  row ← reads (λ s. get id s.groups)
  require (app_error resource_not_found) row

abbrev pub or_name : Option Text → Text → Text
or_name none name = name
or_name (some name') name = name'

abbrev pub or_description : Option Text → Option Text → Option Text
or_description none d = d
or_description (some d') d = some d'

abbrev pub changed_group : UpdateClientGroupInput → ClientGroup → ClientGroup
changed_group input g = record {
  name = or_name input.name g.name;
  description = or_description input.description g.description;
}

unfoldable pub update_group : ℕ → UpdateClientGroupInput → Action GroupTables ClientGroup
unfolding get_group_by_id
update_group id input = do
  g ← get_group_by_id id
  writes (λ s. record s { groups = modify id (changed_group input) s.groups })
  row ← reads (λ s. get id s.groups)
  require foreign row

-- The memberships go with the group, by ON DELETE CASCADE; its schedules, which go too, are no part
-- of these tables.
unfoldable pub delete_group : ℕ → Action GroupTables (Unit {0})
unfolding get_group_by_id
delete_group id = do
  g ← get_group_by_id id
  writes (λ s. record (change_members (delete id) s) { groups = delete id s.groups })

-- `addClientToGroup`
abbrev pub with_member : ℕ → Text → Map ℕ (List Text) → Map ℕ (List Text)
with_member group id m =
    if has group m then modify group (λ ids. ids ++ id ∷ []) m else set group (id ∷ []) m

-- `removeClientFromGroup`
abbrev pub without_member : ℕ → Text → Map ℕ (List Text) → Map ℕ (List Text)
without_member group id m = modify group (filter (λ k. not (k == id))) m

unfoldable pub add_member : ℕ → Text → Action GroupTables (Unit {0})
unfolding get_group_by_id get_client members_of
add_member group id = do
  g ← get_group_by_id group
  row ← on_client_tables (get_client id)
  c ← require (app_error client_not_found) row
  members ← reads (λ s. members_of group s.tables)
  reject_if (includes members id) (app_error resource_already_exists)
  writes (change_members (with_member group id))

unfoldable pub remove_member : ℕ → Text → Action GroupTables (Unit {0})
unfolding get_group_by_id
remove_member group id = do
  g ← get_group_by_id group
  writes (change_members (without_member group id))

unfoldable pub get_members : ℕ → Action GroupTables (List Text)
unfolding get_group_by_id members_of
get_members group = do g ← get_group_by_id group; reads (λ s. members_of group s.tables)

-- The loop of `assignPlaylistToGroup`; `updated` counts the clients.
unfoldable pub assign_members : List Text → ℕ → ℕ → Action GroupTables ℕ
unfolding update_client
assign_members [] playlist_id updated s = (s, ok updated)
assign_members (id ∷ ids) playlist_id updated s =
    and_then
      (on_client_tables
        (update_client id (record no_update { assigned_playlist_id = some (some playlist_id) })) s)
      (λ c. assign_members ids playlist_id (updated + 1))

unfoldable pub assign_playlist_to_group : ℕ → ℕ → Action GroupTables ℕ
unfolding get_group_by_id members_of assign_members
assign_playlist_to_group group playlist_id = do
  g ← get_group_by_id group
  known ← reads (λ s. includes s.tables.playlists playlist_id)
  reject_if (not known) (app_error playlist_not_found)
  members ← reads (λ s. members_of group s.tables)
  assign_members members playlist_id 0

unfoldable pub get_client_groups : Text → Action GroupTables (List ℕ)
unfolding get_client groups_of
get_client_groups id = do
  row ← on_client_tables (get_client id)
  c ← require (app_error client_not_found) row
  reads (λ s. groups_of id s.tables.group_members)

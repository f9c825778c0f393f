-- ===== src/Handlers/Register.antt =====
-- `handleRegister` of server/src/websocket/handlers.ts: the client is online afterwards.
use montr.Base.{
  ◌⊎◌, inl, inr, ℕ, Text, Option, none, some, List, [], ◌∷◌, ◌++◌, text_eq, ok, Thrown, ◌≡◌, ◌≢◌,
  refl, ◌∙◌, arith, Option-cases, beq_refl,
}
use montr.Base.Map.{Map, get, modify, get-modify_self, get-modify_other, has-of_get-none}
use montr.Database.Tables.{Client, UpdateClientInput, Tables, online, offline}
use montr.Database.ClientRows.{get_client, update_client, create_client, set_fields, or_null}
use montr.Clients.Service.{get_client_by_id, register_client, change_client, no_update}
use montr.Handlers.Messages.{
  RegisterMessage, reconnection, register_rows, name_or_default, welcome, send_schedules_to_client,
  handle_register, with_tables,
}
use montr.Scheduling.Types.{Schedule, truthy_text}
use montr.Websocket.Types.{SocketLibrary}
use montr.Handlers.Notifications.{NotificationRule, Payload, Live}

register_rows_known :
    (m : RegisterMessage) (now : ℕ) (t : Tables) (c : Client)
    → get m.client_id t.clients ≡ some c
    → register_rows m now t ≡ (
      record t { clients = modify m.client_id (set_fields (reconnection m now)) t.clients },
      ok (set_fields (reconnection m now) c),
    )
unfolding register_rows get_client_by_id change_client update_client get_client
register_rows_known m now t c h =
    let row = get-modify_self m.client_id (set_fields (reconnection m now)) c t.clients h in
    ground (arith, h, row)

get-append_none :
    {V : Type 0} (id : Text) (v : V) (m : Map Text V)
    → get id m ≡ none
    → get id (m ++ (id, v) ∷ []) ≡ some v
unfolding get
get-append_none id v [] h = rw (beq_refl id) refl
get-append_none id v ((k, w) ∷ m) h = ground (arith, h, get-append_none id v m)

get-append_other :
    {V : Type 0} (id k : Text) (v : V) (m : Map Text V)
    → id ≢ k
    → get k (m ++ (id, v) ∷ []) ≡ get k m
unfolding get
get-append_other id k v [] n = ground (arith, n, text_eq.beq_iff id k)
get-append_other id k v ((j, w) ∷ m) n = ground (arith, n, get-append_other id k v m n)

or_null_twice : (o : Option Text) → or_null (or_null o) ≡ or_null o
or_null_twice none = refl
or_null_twice (some []) = refl
or_null_twice (some (c ∷ s)) = refl

-- The row of a client that was not there.
abbrev pub first_row : RegisterMessage → ℕ → Client
first_row m now = record {
  name = name_or_default (truthy_text m.name) m.client_id;
  assigned_playlist_id = none;
  interrupted_from_playlist_id = none;
  status = offline;
  last_seen = some now;
  version = or_null (some m.version);
  capabilities = or_null (some m.capabilities);
}

abbrev now_online : ℕ → UpdateClientInput
now_online now = record no_update { status = some online; last_seen = some now }

register_rows_new :
    (m : RegisterMessage) (now : ℕ) (t : Tables)
    → get m.client_id t.clients ≡ none
    → register_rows m now t ≡ (
      record t {
        clients =
            modify m.client_id
              (set_fields (now_online now))
              (t.clients ++ (m.client_id, first_row m now) ∷ []);
      },
      ok (set_fields (now_online now) (first_row m now)),
    )
unfolding register_rows get_client_by_id change_client update_client get_client register_client
    create_client
register_rows_new m now t h =
    let added = get-append_none m.client_id (first_row m now) t.clients h in
    let absent = has-of_get-none m.client_id t.clients h in
    let row =
      get-modify_self m.client_id (set_fields (now_online now)) (first_row m now)
        (t.clients ++ (m.client_id, first_row m now) ∷ []) added in
    ground (arith, h, absent, added, row)

-- The client's row, and those of the others, after a registration; the column of an empty version may
-- be null.
pub record IsRegistered (m : RegisterMessage) (now : ℕ) (before after : Map Text Client)
    : Type 0 where
  pub client : Client
  pub found : get m.client_id after ≡ some client
  pub marked_online : client.status ≡ online
  pub is_seen : client.last_seen ≡ some now
  pub has_version : or_null client.version ≡ or_null (some m.version)
  pub others : (k : Text) → m.client_id ≢ k → get k after ≡ get k before

register_rows-IsRegistered :
    (m : RegisterMessage) (now : ℕ) (t : Tables)
    → (t' : Tables) × (c : Client) × (register_rows m now t ≡ (t', ok c))
      × IsRegistered m now t.clients t'.clients
register_rows-IsRegistered m now t = elim (Option-cases (get m.client_id t.clients)) [
  | inr (c, h) ↦
      let change = set_fields (reconnection m now) in
      (
        _,
        change c,
        register_rows_known m now t c h,
        record {
          client = change c;
          found = get-modify_self m.client_id change c t.clients h;
          marked_online = refl;
          is_seen = refl;
          has_version = refl;
          others = λ k n. get-modify_other m.client_id k change t.clients n;
        },
      )
  | inl h ↦
      let change = set_fields (now_online now) in
      let added = t.clients ++ (m.client_id, first_row m now) ∷ [] in
      (
        _,
        change (first_row m now),
        register_rows_new m now t h,
        record {
          client = change (first_row m now);
          found =
              get-modify_self m.client_id change (first_row m now) added
                (get-append_none m.client_id (first_row m now) t.clients h);
          marked_online = refl;
          is_seen = refl;
          has_version = or_null_twice (some m.version);
          others = λ k n.
              get-modify_other m.client_id k change added n
              ∙ get-append_other m.client_id k (first_row m now) t.clients n;
        },
      )
]

module _ (lib : SocketLibrary) (payload : ℕ → Text ⊎ Text)
    (deliver : NotificationRule → Payload → Option Text) (show : List Schedule → Text)
    (told : Thrown → Text) where
  welcome-tables :
      (id : Text) (ref now : ℕ) (c : Client) (s : Live)
      → (welcome lib payload deliver show told id ref now c s).world.tables ≡ s.world.tables
  unfolding welcome send_schedules_to_client
  welcome-tables id ref now c s = ground arith

  -- After the register message of any client, known or new, its row says that it is online, seen now and
  -- of the version it named (an empty version may be stored as null), and no other client's row has
  -- changed. This is so too where the connection manager closes the socket as a duplicate.
  pub handle_register-IsRegistered :
      (message : RegisterMessage) (ref now : ℕ) (s : Live)
      → IsRegistered message now s.world.tables.clients
          (handle_register lib payload deliver show told message ref now s).world.tables.clients
  unfolding handle_register
  handle_register-IsRegistered message ref now s =
      let (t, c, ends, registered) = register_rows-IsRegistered message now s.world.tables in
      let same : (handle_register lib payload deliver show told message ref now s).world.tables
          ≡ t =
        ground (arith, ends, welcome-tables message.client_id ref now c (with_tables t s)) in
      rw same registered

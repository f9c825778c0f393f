-- ===== src/Handlers/Untargeted.antt =====
-- `handleError` of server/src/websocket/handlers.ts names the client `clientId`, and the schedules that an
-- event fires look for `client_id`: the fatal error of one client dispatches to all.
use montr.Base.{
  ◌⊎◌, inl, inr, ℕ, Text, codes, true, false, not, ◌&&◌, Option, none, some, List, [], ◌∷◌, ◌++◌,
  ◌==◌, text_eq, nat_eq, text_beq, filter, if◌then◌else◌, ok, ◌≡◌, refl, sym, ap, ◌∙◌, arith,
  Option-cases, All, includes, beq_refl,
}
use montr.Base.Map.{
  Map, get, has, keys, modify, get-modify_self, has-modify, has-of_get, has-of_get-none,
}
use montr.Database.Tables.{Client, UpdateClientInput, Tables, error, online}
use montr.Database.ClientRows.{get_client, update_client, set_fields, all_clients}
use montr.Clients.Service.{get_client_by_id, change_client, record_client_status, no_update}
use montr.Websocket.Types.{SocketLibrary, client_error}
use montr.Websocket.Manager.Send.{broadcast_to_admins}
use montr.Websocket.Manager.{is_connected}
use montr.Scheduling.Types.{Schedule, NotificationEventType, assign, truthy_text, truthy_number}
use montr.Scheduling.Dispatch.{World, dispatch_schedule, targets}
use montr.Scheduling.Service.{on_event, fire_each, waits_for, narrow_event_target, note_fired}
use montr.Scheduling.Events.{result_cases}
use montr.Scheduling.Targeted.{dispatch_schedule-assigns, assigned}
use montr.Scheduling.Audience.{includes-all_clients}
use montr.Handlers.Notifications.{
  NotificationRule, Payload, Live, fire_event, dispatch_rules, is_enabled_for, history_row,
}
use montr.Handlers.Messages.{with_manager, with_tables}
use montr.Handlers.Reports.{
  ErrorMessage, is_empty, is_text, field, error_fields, error_rows, handle_reported, handle_error,
  fire,
}

no_client_id :
    (id e : Text) (source context : Option Text)
    → get (codes "client_id") (
        (codes "clientId", id)
        ∷ (codes "error", e)
        ∷ (field (codes "source") source ++ field (codes "context") context))
      ≡ none
unfolding get text_beq
no_client_id id e none none = refl
no_client_id id e none (some y) = refl
no_client_id id e (some x) none = refl
no_client_id id e (some x) (some y) = refl

abbrev status_of : Text → ℕ → UpdateClientInput
status_of message now = record no_update {
  last_seen = some now;
  status = some (if not (is_empty message) then error else online);
}

abbrev faulted : ℕ → UpdateClientInput
faulted now = record no_update { status = some error; last_seen = some now }

abbrev error_clients : ErrorMessage → ℕ → Map Text Client → Map Text Client
error_clients m now clients =
    modify m.client_id (set_fields (faulted now))
      (modify m.client_id (set_fields (status_of m.error now)) clients)

error_rows_known :
    (m : ErrorMessage) (now : ℕ) (t : Tables) (c : Client)
    → get m.client_id t.clients ≡ some c
    → error_rows m now t ≡ (record t { clients = error_clients m now t.clients }, ok tt)
unfolding error_rows record_client_status change_client get_client_by_id update_client get_client
error_rows_known m now t c h =
    let first = set_fields (status_of m.error now) in
    let row = get-modify_self m.client_id first c t.clients h in
    let row' =
      get-modify_self m.client_id (set_fields (faulted now)) (first c)
        (modify m.client_id first t.clients) row in
    ground (arith, h, row, row')

has-error_clients :
    (m : ErrorMessage) (now : ℕ) (k : Text) (clients : Map Text Client)
    → has k (error_clients m now clients) ≡ has k clients
has-error_clients m now k clients =
    has-modify m.client_id (set_fields (faulted now)) k
      (modify m.client_id (set_fields (status_of m.error now)) clients)
    ∙ has-modify m.client_id (set_fields (status_of m.error now)) k clients

get-of_has :
    (k : Text) (clients : Map Text Client)
    → has k clients ≡ true
    → (row : Client) × (get k clients ≡ some row)
get-of_has k clients h = elim (Option-cases (get k clients)) [
  | inl e ↦ absurd (ground (arith, h, has-of_get-none k clients e))
  | inr (row, e) ↦ (row, e)
]

All-clients : (t : Tables) → All (λ id. has id t.clients ≡ true) (keys (all_clients t))
All-clients t = all_in (keys (all_clients t)) (λ id h. sym (includes-all_clients id t) ∙ h)
  where
    all_in :
        (ids : List Text)
        → ((id : Text) → includes ids id ≡ true → has id t.clients ≡ true)
        → All (λ id. has id t.clients ≡ true) ids
    all_in [] h = tt
    all_in (id ∷ ids) h =
        (h id (ground (arith, beq_refl id)), all_in ids (λ k e. h k (ground (arith, e))))

narrow_none : (x : Schedule) → narrow_event_target none x ≡ x
unfolding narrow_event_target
narrow_none x = elim (Option-cases (truthy_text x.client_id)) [
  | inl e ↦ elim (Option-cases (truthy_number x.group_id)) [
    | inl f ↦ ground (arith, e, f)
    | inr (g, f) ↦ ground (arith, e, f)
  ]
  | inr (c, e) ↦ ground (arith, e)
]

module _ (lib : SocketLibrary) (payload : ℕ → Text ⊎ Text) where
  fire_each_one :
      (now : ℕ) (x : Schedule) (w : World)
      → get x.id w.service.event_last_fired ≡ none
      → (fire_each lib payload none now (x ∷ []) 0 w).0
        ≡ (dispatch_schedule lib payload x now (note_fired lib payload x now w)).0
  unfolding fire_each
  fire_each_one now x w fresh =
      let alone = narrow_none x in
      let noted = note_fired lib payload x now w in
      elim (result_cases (dispatch_schedule lib payload x now noted).1) [
        | inl (a, e) ↦ ground (arith, fresh, alone, e)
        | inr (a, e) ↦ ground (arith, fresh, alone, e)
      ]

  -- A schedule that waits alone for an event without a source is dispatched as it stands.
  on_event_untargeted :
      (event : NotificationEventType) (now : ℕ) (schedules : List Schedule) (x : Schedule)
      (w : World)
      → filter (waits_for event) schedules ≡ x ∷ []
      → get x.id w.service.event_last_fired ≡ none
      → (on_event lib payload event none now schedules w).0
        ≡ (dispatch_schedule lib payload x now (note_fired lib payload x now w)).0
  unfolding on_event
  on_event_untargeted event now schedules x w one fresh =
      ap (λ ss. (fire_each lib payload none now ss 0 w).0) one ∙ fire_each_one now x w fresh

  -- All clients are given the playlist of a schedule that names no target.
  dispatch-all :
      (x : Schedule) (now : ℕ) (w : World) (k : Text) (row : Client)
      → x.interrupt_mode ≡ assign
      → truthy_text x.client_id ≡ none
      → truthy_number x.group_id ≡ none
      → includes w.tables.playlists x.playlist_id ≡ true
      → get k w.tables.clients ≡ some row
      → get k (dispatch_schedule lib payload x now w).0.tables.clients
        ≡ some (assigned x.playlist_id row)
  dispatch-all x now w k row mode c g known h =
      let all : targets lib payload (truthy_text x.client_id) (truthy_number x.group_id) w.tables
          ≡ keys (all_clients w.tables) =
        ground (arith, c, g) in
      let done =
        dispatch_schedule-assigns lib payload x now w mode known (rw all (All-clients w.tables)) in
      let listed : includes (keys (all_clients w.tables)) k ≡ true =
        includes-all_clients k w.tables ∙ has-of_get k row w.tables.clients h in
      done.1 k ∙ ground (arith, all, listed, h)

module _ (lib : SocketLibrary) (payload : ℕ → Text ⊎ Text)
    (deliver : NotificationRule → Payload → Option Text) where
  world-dispatch_rules :
      (fields : Payload) (rules : List NotificationRule) (n : ℕ) (s : Live)
      → ((dispatch_rules deliver fields rules n s).0.world ≡ s.world)
        × ((dispatch_rules deliver fields rules n s).0.schedules ≡ s.schedules)
  unfolding dispatch_rules
  world-dispatch_rules fields [] n s = (refl, refl)
  world-dispatch_rules fields (rule ∷ rules) n s =
      world-dispatch_rules fields rules _
        (record s { history = s.history ++ history_row deliver rule fields ∷ [] })

  fire-world :
      (event : NotificationEventType) (fields : Payload) (now : ℕ) (s : Live)
      → (fire lib payload deliver event fields now s).world
        ≡ (on_event lib payload event
            (get (codes "client_id") fields)
            now
            (filter (λ x. x.enabled) s.schedules)
            s.world).0
  unfolding fire_event
  fire-world event fields now s =
      let kept = world-dispatch_rules fields (filter (is_enabled_for event) s.rules) 0 s in
      ground (arith, kept.0, kept.1)

  -- The tables after the handler: those after its rows and the event.
  handle_error-tables :
      (m : ErrorMessage) (report : Text) (now : ℕ) (s : Live) (c : Client)
      → is_connected m.client_id s.world.manager ≡ true
      → get m.client_id s.world.tables.clients ≡ some c
      → m.severity ≡ some (codes "fatal")
      → (is_text (codes "cache") m.source && m.error == codes "storage_low") ≡ false
      → (v : Live) × (v.world.tables
          ≡ record s.world.tables { clients = error_clients m now s.world.tables.clients })
        × (v.world.service ≡ s.world.service)
        × (v.schedules ≡ s.schedules)
        × ((handle_error lib payload deliver m report now s).world.tables
            ≡ (fire lib payload deliver NotificationEventType.client_error
                (error_fields m)
                now
                v).world.tables)
  unfolding handle_error handle_reported text_beq
  handle_error-tables m report now s c connected found fatal other =
      let rows = error_rows_known m now s.world.tables c found in
      let told =
        with_manager (λ n. (broadcast_to_admins lib (client_error m.client_id report) n).0) s in
      let v =
        with_tables (record s.world.tables { clients = error_clients m now s.world.tables.clients })
          told in
      (v, refl, refl, refl, ground (arith, connected, rows, fatal, other))

  -- A fatal error that one connected client reports changes what every client plays, where a schedule
  -- that assigns a playlist that exists waits alone for client errors, names no client and no group, and
  -- has not fired yet:
  -- the client that the event is about is not among the fields that the schedules look at, so that
  -- every row, that of the client and of all others, is given the playlist.
  pub handle_error-assigns_all :
      (m : ErrorMessage) (report : Text) (now : ℕ) (s : Live) (c : Client) (x : Schedule)
      → is_connected m.client_id s.world.manager ≡ true
      → get m.client_id s.world.tables.clients ≡ some c
      → m.severity ≡ some (codes "fatal")
      → (is_text (codes "cache") m.source && m.error == codes "storage_low") ≡ false
      → filter (waits_for NotificationEventType.client_error) (filter (λ y. y.enabled) s.schedules)
        ≡ x ∷ []
      → get x.id s.world.service.event_last_fired ≡ none
      → x.interrupt_mode ≡ assign
      → truthy_text x.client_id ≡ none
      → truthy_number x.group_id ≡ none
      → includes s.world.tables.playlists x.playlist_id ≡ true
      → (k : Text) → has k s.world.tables.clients ≡ true
      → (row : Client) × (get k
            (handle_error lib payload deliver m report now s).world.tables.clients
          ≡ some row)
        × (row.assigned_playlist_id ≡ some x.playlist_id)
  handle_error-assigns_all m report now s c x connected found fatal other one fresh mode cl gr pl k
        h =
      let (v, tables, service, schedules, ends) =
        handle_error-tables m report now s c connected found fatal other in
      let there : has k v.world.tables.clients ≡ true =
        ap (λ t. has k t.clients) tables ∙ has-error_clients m now k s.world.tables.clients ∙ h in
      let (row, before) = get-of_has k v.world.tables.clients there in
      let one' : filter (waits_for NotificationEventType.client_error)
            (filter (λ y. y.enabled) v.schedules)
          ≡ x ∷ [] =
        ap
          (λ ss. filter (waits_for NotificationEventType.client_error) (filter (λ y. y.enabled) ss))
          schedules
        ∙ one in
      let fresh' : get x.id v.world.service.event_last_fired ≡ none =
        ap (λ r. get x.id r.event_last_fired) service ∙ fresh in
      let fired =
        on_event_untargeted lib payload NotificationEventType.client_error now
          (filter (λ y. y.enabled) v.schedules) x v.world one' fresh' in
      let silent = no_client_id m.client_id m.error m.source m.context in
      let noted = note_fired lib payload x now v.world in
      (
        assigned x.playlist_id row,
        ap (λ t. get k t.clients) ends
            ∙ ap (λ w. get k w.tables.clients)
                (fire-world NotificationEventType.client_error (error_fields m) now v)
            ∙ ap
                (λ o.
                  get k
                    (on_event lib payload NotificationEventType.client_error o now
                      (filter (λ y. y.enabled) v.schedules) v.world).0.tables.clients)
                silent
            ∙ ap (λ w. get k w.tables.clients) fired
            ∙ dispatch-all lib payload x now noted k row mode cl gr
                (ap (λ (t : Tables). includes t.playlists x.playlist_id) tables ∙ pl) before,
        refl,
      )

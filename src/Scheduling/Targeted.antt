-- ===== src/Scheduling/Targeted.antt =====
-- server/src/services/schedule.service.ts: what the dispatch of an assigning schedule does to the
-- clients.
use mathlib.Core.Option
use montr.Base.{
  ◌⊎◌, ℕ, Text, true, Option, none, some, List, [], ◌∷◌, ◌≡◌, refl, arith, text_eq, nat_eq, All,
  inl, inr, ap, ◌∙◌, Bool-cases, Option-cases, ◌==◌, includes, if◌then◌else◌, Result, ok, throw,
  and_then,
}
use montr.Base.Map.{
  Map, get, has, modify, get-modify_self, get-modify_other, get-modify-none, has-of_get-none,
  has-of_get, keys,
}
use montr.Database.Tables.{Client, Tables}
use montr.Clients.Interrupts.{update_client-found}
use montr.Database.ClientRows.{all_clients}
use montr.Websocket.Types.{SocketLibrary}
use montr.Scheduling.Types.{Schedule, assign, truthy_text, truthy_number}
use montr.Scheduling.Dispatch.{
  World, members_of, dispatch_assign, assignment, push_if_connected, push_each, assign_each,
  assign_and_push_each, targets, dispatch_schedule,
}

abbrev pub assigned : ℕ → Client → Client
assigned p c = record c { assigned_playlist_id = some p }

-- The rows after the clients of a list are assigned a playlist.
abbrev pub AreAssigned : List Text → ℕ → Map Text Client → Map Text Client → Type 0
AreAssigned ids p before after =
    (k : Text)
    → get k after
      ≡ (if includes ids k then Option.map (assigned p) (get k before) else get k before)

get-modify :
    (k j : Text) (f : Client → Client) (m : Map Text Client)
    → get j (modify k f m) ≡ (if k == j then Option.map f (get j m) else get j m)
get-modify k j f m = elim (Bool-cases (k == j)) [
  | inl same ↦ elim (Option-cases (get j m)) [
    | inl e ↦ ground (arith, get-modify-none k j f m)
    | inr (c, e) ↦ ground (
      arith,
      get-modify_self j f c m e,
      ap (λ i. get j (modify i f m)) ((text_eq.beq_iff k j).0 same),
    )
  ]
  | inr differs ↦
      rw differs (get-modify_other k j f m (λ e. ground (arith, (text_eq.beq_iff k j).1 e)))
]

has-modify :
    (k j : Text) (f : Client → Client) (m : Map Text Client)
    → has j m ≡ true
    → has j (modify k f m) ≡ true
has-modify k j f m h = elim (Option-cases (get j m)) [
  | inl e ↦ ground (arith, has-of_get-none j m e)
  | inr (c, e) ↦ elim (Bool-cases (k == j)) [
    | inl same ↦ has-of_get j (f c) (modify k f m) (ground (arith, get-modify k j f m))
    | inr differs ↦ has-of_get j c (modify k f m) (ground (arith, get-modify k j f m))
  ]
]

All-has-modify :
    (k : Text) (f : Client → Client) (m : Map Text Client) (ids : List Text)
    → All (λ id. has id m ≡ true) ids
    → All (λ id. has id (modify k f m) ≡ true) ids
All-has-modify k f m [] a = tt
All-has-modify k f m (id ∷ ids) a = (has-modify k id f m a.0, All-has-modify k f m ids a.1)

AreAssigned-cons :
    (id : Text) (ids : List Text) (p : ℕ) (before after : Map Text Client)
    → AreAssigned ids p (modify id (assigned p) before) after
    → AreAssigned (id ∷ ids) p before after
AreAssigned-cons id ids p before after h k = elim (Option-cases (get k before)) [
  | inl e ↦ ground (arith, h k, get-modify id k (assigned p) before)
  | inr (c, e) ↦ ground (arith, h k, get-modify id k (assigned p) before)
]

module _ (lib : SocketLibrary) (payload : ℕ → Text ⊎ Text) where
  pub push_if_connected-tables :
      (id : Text) (p : ℕ) (w : World) → (push_if_connected lib payload id p w).tables ≡ w.tables
  unfolding push_if_connected
  push_if_connected-tables id p w = ground arith

  push_each-tables :
      (ids : List Text) (p : ℕ) (w : World) → (push_each lib payload ids p w).tables ≡ w.tables
  unfolding push_each
  push_each-tables [] p w = refl
  push_each-tables (id ∷ ids) p w =
      push_each-tables ids p (push_if_connected lib payload id p w)
      ∙ push_if_connected-tables id p w

  assign_and_push_each-assigns :
      (ids : List Text) (p : ℕ) (w : World)
      → includes w.tables.playlists p ≡ true
      → All (λ id. has id w.tables.clients ≡ true) ids
      → ((assign_and_push_each lib payload ids p w).1 ≡ ok tt)
        × AreAssigned ids p w.tables.clients
            (assign_and_push_each lib payload ids p w).0.tables.clients
  unfolding assign_and_push_each
  assign_and_push_each-assigns [] p w known a = (refl, λ k. refl)
  assign_and_push_each-assigns (id ∷ ids) p w known a =
      elim (Option-cases (get id w.tables.clients)) [
        | inl e ↦ absurd (ground (arith, has-of_get-none id w.tables.clients e))
        | inr (c, e) ↦
            let w' : World = record w {
              tables = record w.tables { clients = modify id (assigned p) w.tables.clients };
            } in
            let w'' = push_if_connected lib payload id p w' in
            let same = ap (λ (t : Tables). t.clients) (push_if_connected-tables id p w') in
            let ih =
              assign_and_push_each-assigns ids p w'' (rw (push_if_connected-tables id p w') known)
                (rw same (All-has-modify id (assigned p) w.tables.clients ids a.1)) in
            rw (update_client-found id (assignment lib payload p) c w.tables e known)
              (ih.0, AreAssigned-cons id ids p w.tables.clients _ (rw same at ih.1))
      ]

  assign_each-assigns :
      (ids : List Text) (p : ℕ) (w : World)
      → includes w.tables.playlists p ≡ true
      → All (λ id. has id w.tables.clients ≡ true) ids
      → ((assign_each lib payload ids p w).1 ≡ ok tt)
        × AreAssigned ids p w.tables.clients (assign_each lib payload ids p w).0.tables.clients
  unfolding assign_each
  assign_each-assigns [] p w known a = (refl, λ k. refl)
  assign_each-assigns (id ∷ ids) p w known a = elim (Option-cases (get id w.tables.clients)) [
    | inl e ↦ absurd (ground (arith, has-of_get-none id w.tables.clients e))
    | inr (c, e) ↦
        let w' : World = record w {
          tables = record w.tables { clients = modify id (assigned p) w.tables.clients };
        } in
        let ih =
          assign_each-assigns ids p w' known
            (All-has-modify id (assigned p) w.tables.clients ids a.1) in
        rw (update_client-found id (assignment lib payload p) c w.tables e known)
          (ih.0, AreAssigned-cons id ids p w.tables.clients _ ih.1)
  ]

  dispatch_group :
      (ids : List Text) (p : ℕ) (w : World)
      → (assign_each lib payload ids p w).1 ≡ ok tt
      → AreAssigned ids p w.tables.clients (assign_each lib payload ids p w).0.tables.clients
      → let r =
          and_then {B = Unit {0}}
            (assign_each lib payload ids p w)
            (λ _ w'. (push_each lib payload ids p w', ok tt)) in
        (r.1 ≡ ok tt) × AreAssigned ids p w.tables.clients r.0.tables.clients
  dispatch_group ids p w done a = dispatched (assign_each lib payload ids p w) done a
    where
      dispatched :
          (r : World × Result (Unit {0}))
          → r.1 ≡ ok tt
          → AreAssigned ids p w.tables.clients r.0.tables.clients
          → let r' = and_then {B = Unit {0}} r (λ _ w'. (push_each lib payload ids p w', ok tt)) in
            (r'.1 ≡ ok tt) × AreAssigned ids p w.tables.clients r'.0.tables.clients
      dispatched (w', ok u) e b =
          (refl, λ k. ap (λ (t : Tables). get k t.clients) (push_each-tables ids p w') ∙ b k)
      dispatched (w', throw t) e b = cc

  dispatch_assign-assigns :
      (client : Option Text) (group : Option ℕ) (p : ℕ) (w : World)
      → includes w.tables.playlists p ≡ true
      → All (λ id. has id w.tables.clients ≡ true) (targets lib payload client group w.tables)
      → ((dispatch_assign lib payload client group p w).1 ≡ ok tt)
        × AreAssigned
            (targets lib payload client group w.tables)
            p
            w.tables.clients
            (dispatch_assign lib payload client group p w).0.tables.clients
  dispatch_assign-assigns (some id) group p w known a =
      assign_and_push_each-assigns (id ∷ []) p w known a
  dispatch_assign-assigns none (some group) p w known a =
      let ids = members_of group w.tables in
      let done = assign_each-assigns ids p w known a in dispatch_group ids p w done.0 done.1
  dispatch_assign-assigns none none p w known a =
      assign_and_push_each-assigns (keys (all_clients w.tables)) p w known a

  dispatch_schedule-assign :
      (s : Schedule) (now : ℕ) (w : World)
      → s.interrupt_mode ≡ assign
      → dispatch_schedule lib payload s now w
        ≡ dispatch_assign lib payload
            (truthy_text s.client_id)
            (truthy_number s.group_id)
            s.playlist_id
            w
  unfolding dispatch_schedule
  dispatch_schedule-assign s now w mode = ground arith

  -- Dispatching a schedule that assigns succeeds if its playlist exists and its targets are clients: the client of the
  -- schedule, or the members of its group, or all clients are given its playlist, and no other
  -- client's row changes.
  pub dispatch_schedule-assigns :
      (s : Schedule) (now : ℕ) (w : World)
      → s.interrupt_mode ≡ assign
      → includes w.tables.playlists s.playlist_id ≡ true
      → All
          (λ id. has id w.tables.clients ≡ true)
          (targets lib payload (truthy_text s.client_id) (truthy_number s.group_id) w.tables)
      → ((dispatch_schedule lib payload s now w).1 ≡ ok tt)
        × AreAssigned
            (targets lib payload (truthy_text s.client_id) (truthy_number s.group_id) w.tables)
            s.playlist_id
            w.tables.clients
            (dispatch_schedule lib payload s now w).0.tables.clients
  dispatch_schedule-assigns s now w mode known a = rw (dispatch_schedule-assign s now w mode) (
      dispatch_assign-assigns (truthy_text s.client_id) (truthy_number s.group_id) s.playlist_id w
        known a)

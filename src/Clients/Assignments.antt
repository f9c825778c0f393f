-- ===== src/Clients/Assignments.antt =====
-- server/src/services/client.service.ts: the active playlist of a client is one of its assignments
-- with the highest priority, after each call that changes them.
use mathlib.Core.List.{Perm}
use mathlib.Core.List.Perm
use montr.Base.{
  ℕ, Text, true, false, ◌&&◌, ◌==◌, ◌⊎◌, Bool, Option, some, List, [], ◌∷◌, ◌++◌, ◌≡◌, refl, arith,
  includes, ok, give, filter, not, text_eq, nat_eq, and_then, All, ltb, ◌≤◌, Bool-cases, inl, inr,
}
use montr.Base.Map.{get, modify, get-modify_self}
use montr.Database.Tables.{Client, ClientPlaylist, UpdateClientInput, Tables}
use montr.Database.ClientRows.{
  get_client, set_fields, by_priority, insert_by_priority, assignments_of, get_client_playlists,
  any, is_assignment, playlist_exists, add_client_playlist, remove_client_playlist,
}
use montr.Clients.Service.{
  no_update, first_playlist, resolve_active_playlist, add_playlist_assignment,
  remove_playlist_assignment, get_client_by_id, check_playlist,
}
use montr.Clients.Interrupts.{update_client-found}

insert_by_priority-Perm :
    (p : ClientPlaylist) (ps : List ClientPlaylist) → Perm (insert_by_priority p ps) (p ∷ ps)
unfolding insert_by_priority
insert_by_priority-Perm p [] = Perm.refl (p ∷ [])
insert_by_priority-Perm p (q ∷ qs) = elim (Bool-cases (ltb p.priority q.priority)) [
  | inl h ↦ rw h (Perm.trans (Perm.cons q (insert_by_priority-Perm p qs)) (Perm.swap p q qs))
  | inr h ↦ rw h (Perm.refl (p ∷ q ∷ qs))
]

pub by_priority-Perm : (ps : List ClientPlaylist) → Perm (by_priority ps) ps
unfolding by_priority
by_priority-Perm [] = Perm.refl []
by_priority-Perm (p ∷ ps) =
    Perm.trans (insert_by_priority-Perm p (by_priority ps)) (Perm.cons p (by_priority-Perm ps))

-- The first has the highest priority.
abbrev pub HeadHighest : List ClientPlaylist → Type 0
HeadHighest [] = Unit
HeadHighest (p ∷ ps) = All (λ q. q.priority ≤ p.priority) ps

lower :
    (n : ℕ) (p : ClientPlaylist) (ps : List ClientPlaylist)
    → p.priority ≤ n
    → All (λ q. q.priority ≤ p.priority) ps
    → All (λ q. q.priority ≤ n) ps
lower n p [] h a = tt
lower n p (q ∷ ps) h a = (omega arith, lower n p ps h a.1)

insert-All :
    (n : ℕ) (p : ClientPlaylist) (ps : List ClientPlaylist)
    → p.priority ≤ n
    → All (λ q. q.priority ≤ n) ps
    → All (λ q. q.priority ≤ n) (insert_by_priority p ps)
unfolding insert_by_priority
insert-All n p [] h a = (h, tt)
insert-All n p (q ∷ qs) h a = ground (arith, insert-All n p qs h a.1)

insert-HeadHighest :
    (p : ClientPlaylist) (ps : List ClientPlaylist)
    → HeadHighest ps
    → HeadHighest (insert_by_priority p ps)
unfolding insert_by_priority
insert-HeadHighest p [] h = tt
insert-HeadHighest p (q ∷ qs) h = elim (Bool-cases (ltb p.priority q.priority)) [
  | inl l ↦ rw l (insert-All q.priority p qs (ground arith) h)
  | inr l ↦ rw l (ground arith, lower p.priority q qs (ground arith) h)
]

by_priority-HeadHighest : (ps : List ClientPlaylist) → HeadHighest (by_priority ps)
unfolding by_priority
by_priority-HeadHighest [] = tt
by_priority-HeadHighest (p ∷ ps) =
    insert-HeadHighest p (by_priority ps) (by_priority-HeadHighest ps)

-- `active` is the playlist of the first of the assignments in an order by priority.
pub record IsActive (assignments : List ClientPlaylist) (active : Option ℕ) : Type 0 where
  pub ordered : List ClientPlaylist
  pub same : Perm ordered assignments
  pub highest : HeadHighest ordered
  pub first : active ≡ first_playlist ordered

-- The client is there, and its playlist is that of an assignment with the highest priority, or none
-- if it has no assignment.
pub record PlaysHighest (id : Text) (t : Tables) : Type 0 where
  pub row : Client
  pub found : get id t.clients ≡ some row
  pub active : IsActive (assignments_of id t) row.assigned_playlist_id

abbrev activation : Text → Tables → UpdateClientInput
activation id t = record no_update {
  assigned_playlist_id = some (first_playlist (by_priority (assignments_of id t)));
}

first_playlist-insert :
    (r : ClientPlaylist) (qs : List ClientPlaylist)
    → (first_playlist (insert_by_priority r qs) ≡ some r.playlist_id)
      ⊎ (first_playlist (insert_by_priority r qs) ≡ first_playlist qs)
unfolding insert_by_priority
first_playlist-insert r [] = inl refl
first_playlist-insert r (q ∷ qs) = elim (Bool-cases (ltb r.priority q.priority)) [
  | inl h ↦ inr (rw h refl)
  | inr h ↦ inl (rw h refl)
]

-- The playlist that is chosen exists, as the join with `playlists` wants.
chosen-exists :
    (id : Text) (t : Tables) (ps : List ClientPlaylist)
    → playlist_exists
        (some (
          first_playlist (
            by_priority
              (filter (λ p. (p.client_id == id) && includes t.playlists p.playlist_id) ps))))
        t
      ≡ true
unfolding by_priority
chosen-exists id t [] = refl
chosen-exists id t (p ∷ ps) =
    elim (Bool-cases ((p.client_id == id) && includes t.playlists p.playlist_id)) [
      | inr h ↦ rw h (chosen-exists id t ps)
      | inl h ↦
          let rest =
            by_priority
              (filter (λ p. (p.client_id == id) && includes t.playlists p.playlist_id) ps) in
          elim (first_playlist-insert p rest) [
            | inl e ↦ rw (h, e) (ground arith)
            | inr e ↦ rw (h, e) (chosen-exists id t ps)
          ]
    ]

resolve_active_playlist-found :
    (id : Text) (c : Client) (t : Tables)
    → get id t.clients ≡ some c
    → resolve_active_playlist id t ≡ (
      record t { clients = modify id (set_fields (activation id t)) t.clients },
      ok (first_playlist (by_priority (assignments_of id t))),
    )
unfolding resolve_active_playlist get_client_playlists assignments_of
resolve_active_playlist-found id c t found = ground (
  arith,
  update_client-found id (activation id t) c t found (chosen-exists id t t.client_playlists),
)

resolve_active_playlist-PlaysHighest :
    (id : Text) (c : Client) (t : Tables)
    → get id t.clients ≡ some c
    → PlaysHighest id (resolve_active_playlist id t).0
unfolding assignments_of
resolve_active_playlist-PlaysHighest id c t found =
    rw (resolve_active_playlist-found id c t found) (record {
      row = set_fields (activation id t) c;
      found = get-modify_self id (set_fields (activation id t)) c t.clients found;
      active = record {
        ordered = by_priority (assignments_of id t);
        same = by_priority-Perm (assignments_of id t);
        highest = by_priority-HeadHighest (assignments_of id t);
        first = refl;
      };
    })

any-filter-not :
    (p : ClientPlaylist → Bool) (ps : List ClientPlaylist)
    → any p (filter (λ q. not (p q)) ps) ≡ false
any-filter-not p [] = refl
any-filter-not p (q ∷ ps) = ground (arith, any-filter-not p ps)

abbrev with_row : ClientPlaylist → Tables → Tables
with_row row t = record t { client_playlists = t.client_playlists ++ row ∷ [] }

abbrev without_row : Text → ℕ → Tables → Tables
without_row id playlist_id t = record t {
  client_playlists = filter (λ p. not (is_assignment id playlist_id p)) t.client_playlists;
}

module _ (id : Text) (playlist_id : ℕ) (c : Client) (t : Tables)
    (found : get id t.clients ≡ some c) where
  add_playlist_assignment-found :
      (row : ClientPlaylist)
      → row ≡ record { client_id = id; playlist_id = playlist_id; priority = row.priority }
      → includes t.playlists playlist_id ≡ true
      → any (is_assignment id playlist_id) t.client_playlists ≡ false
      → add_playlist_assignment id playlist_id row.priority t
        ≡ and_then (resolve_active_playlist id (with_row row t)) (λ _. give row)
  unfolding add_playlist_assignment get_client_by_id check_playlist add_client_playlist get_client
  add_playlist_assignment-found row e known fresh = ground arith

  remove_playlist_assignment-found :
      remove_playlist_assignment id playlist_id t
      ≡ resolve_active_playlist id (without_row id playlist_id t)
  unfolding remove_playlist_assignment get_client_by_id remove_client_playlist get_client
  remove_playlist_assignment-found = ground arith

  -- A new assignment of an existing client to an existing playlist succeeds: the table has it then, with
  -- its priority, behind all that it had before, and the client plays an assignment with the highest
  -- priority.
  pub add_playlist_assignment-PlaysHighest :
      (priority : ℕ)
      → includes t.playlists playlist_id ≡ true
      → any (is_assignment id playlist_id) t.client_playlists ≡ false
      → ((add_playlist_assignment id playlist_id priority t).1
          ≡ ok (record { client_id = id; playlist_id = playlist_id; priority = priority }))
        × ((add_playlist_assignment id playlist_id priority t).0.client_playlists
            ≡ t.client_playlists
              ++ (record { client_id = id; playlist_id = playlist_id; priority = priority }) ∷ [])
        × PlaysHighest id (add_playlist_assignment id playlist_id priority t).0
  add_playlist_assignment-PlaysHighest priority known fresh =
      let row : ClientPlaylist = record {
        client_id = id;
        playlist_id = playlist_id;
        priority = priority;
      } in
      let t' = with_row row t in
      let plays = resolve_active_playlist-PlaysHighest id c t' found in
      rw (add_playlist_assignment-found row refl known fresh) (
        rw (resolve_active_playlist-found id c t' found)
          (refl, refl, rw (resolve_active_playlist-found id c t' found) at plays))

  -- After an assignment of an existing client is removed it is not in the table; all other assignments,
  -- of this client and of the others, are in it in their order, and nothing else; and the client plays an
  -- assignment with the highest priority among those that are left, or nothing.
  pub remove_playlist_assignment-PlaysHighest :
      PlaysHighest id (remove_playlist_assignment id playlist_id t).0
      × (any
            (is_assignment id playlist_id)
            (remove_playlist_assignment id playlist_id t).0.client_playlists
          ≡ false)
      × ((remove_playlist_assignment id playlist_id t).0.client_playlists
          ≡ filter (λ p. not (is_assignment id playlist_id p)) t.client_playlists)
  remove_playlist_assignment-PlaysHighest =
      let t' = without_row id playlist_id t in
      let plays = resolve_active_playlist-PlaysHighest id c t' found in
      rw remove_playlist_assignment-found (
        plays,
        rw (resolve_active_playlist-found id c t' found)
            (any-filter-not (is_assignment id playlist_id) t.client_playlists),
        rw (resolve_active_playlist-found id c t' found) refl,
      )

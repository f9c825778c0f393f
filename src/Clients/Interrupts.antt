-- ===== src/Clients/Interrupts.antt =====
-- server/src/services/client.service.ts: interrupting a client and resuming it, over the adapter's
-- `updateClient`, which writes no `interrupted_from_playlist_id`.
use montr.Base.{
  ℕ, Text, true, false, none, some, ◌≡◌, arith, includes, ok, throw, app_error, bad_request,
  playlist_not_found, foreign, text_eq, nat_eq,
}
use montr.Base.Map.{get, modify, get-modify_self, get-modify-none}
use montr.Database.Tables.{Client, UpdateClientInput, Tables}
use montr.Database.ClientRows.{get_client, update_client, set_fields, playlist_exists}
use montr.Clients.Service.{
  get_client_by_id, check_playlist, interrupt_with_playlist, resume_from_interrupt, no_update,
  resume_point,
}

-- What the adapter does for a client that is there, and a playlist that is.
pub update_client-found :
    (id : Text) (input : UpdateClientInput) (c : Client) (t : Tables)
    → get id t.clients ≡ some c
    → playlist_exists input.assigned_playlist_id t ≡ true
    → update_client id input t
      ≡ (record t { clients = modify id (set_fields input) t.clients }, ok (set_fields input c))
unfolding update_client get_client
update_client-found id input c t h k =
    ground (arith, k, get-modify_self id (set_fields input) c t.clients h)

pub update_client-missing :
    (id : Text) (input : UpdateClientInput) (t : Tables)
    → get id t.clients ≡ none
    → (update_client id input t).1 ≡ throw foreign
unfolding update_client get_client
update_client-missing id input t h =
    ground (arith, get-modify-none id id (set_fields input) t.clients h)

abbrev interruption : ℕ → Client → UpdateClientInput
interruption playlist_id c = record no_update {
  assigned_playlist_id = some (some playlist_id);
  interrupted_from_playlist_id = some (resume_point c);
}

interrupt_with_playlist-found :
    (id : Text) (playlist_id : ℕ) (c : Client) (t : Tables)
    → get id t.clients ≡ some c
    → includes t.playlists playlist_id ≡ true
    → interrupt_with_playlist id playlist_id t ≡ update_client id (interruption playlist_id c) t
unfolding interrupt_with_playlist check_playlist get_client_by_id get_client
interrupt_with_playlist-found id playlist_id c t found known = ground arith

-- Resuming a client that is not interrupted is refused and changes nothing.
pub resume_from_interrupt-refused :
    (id : Text) (c : Client) (t : Tables)
    → get id t.clients ≡ some c
    → c.interrupted_from_playlist_id ≡ none
    → resume_from_interrupt id t ≡ (t, throw (app_error bad_request))
unfolding resume_from_interrupt get_client_by_id get_client
resume_from_interrupt-refused id c t found fresh = ground arith

-- A client that was not interrupted before is given the interrupting playlist, but nothing of what
-- it played is kept: to resume it afterwards always fails, and changes nothing.
pub interrupt-resume_fails :
    (id : Text) (playlist_id : ℕ) (c : Client) (t : Tables)
    → get id t.clients ≡ some c
    → c.interrupted_from_playlist_id ≡ none
    → includes t.playlists playlist_id ≡ true
    → let t' = (interrupt_with_playlist id playlist_id t).0 in
      (get id t'.clients ≡ some (record c { assigned_playlist_id = some playlist_id }))
      × (resume_from_interrupt id t' ≡ (t', throw (app_error bad_request)))
interrupt-resume_fails id playlist_id c t found fresh known =
    let input = interruption playlist_id c in
    let c' = set_fields input c in
    let t' : Tables = record t { clients = modify id (set_fields input) t.clients } in
    let stored = get-modify_self id (set_fields input) c t.clients found in
    rw (interrupt_with_playlist-found id playlist_id c t found known) (
      rw (update_client-found id input c t found known)
        (stored, resume_from_interrupt-refused id c' t' stored fresh))

-- The playlist must exist: otherwise the client is not interrupted, and no table changes.
interrupt-unknown_playlist :
    (id : Text) (playlist_id : ℕ) (c : Client) (t : Tables)
    → get id t.clients ≡ some c
    → includes t.playlists playlist_id ≡ false
    → interrupt_with_playlist id playlist_id t ≡ (t, throw (app_error playlist_not_found))
unfolding interrupt_with_playlist check_playlist get_client_by_id get_client
interrupt-unknown_playlist id playlist_id c t found known = ground arith

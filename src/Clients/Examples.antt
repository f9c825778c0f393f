-- ===== src/Clients/Examples.antt =====
-- Example rows of clients and playlists.
use montr.Base.{
  Text, false, none, some, [], ◌∷◌, ◌++◌, filter, not, codes, text_beq, text_eq, nat_eq, ◌≡◌, refl,
  ok, throw, app_error, bad_request,
}
use montr.Base.Map.{get}
use montr.Database.Tables.{Client, Tables, online}
use montr.Database.ClientRows.{any, is_assignment}
use montr.Clients.Service.{
  interrupt_with_playlist, resume_from_interrupt, add_playlist_assignment,
  remove_playlist_assignment,
}
use montr.Clients.Interrupts.{interrupt-resume_fails}
use montr.Clients.Assignments.{
  PlaysHighest, add_playlist_assignment-PlaysHighest, remove_playlist_assignment-PlaysHighest,
}

abbrev lobby : Text
lobby = codes "lobby"

abbrev screen : Client
screen = record {
  name = codes "Lobby";
  assigned_playlist_id = some 1;
  interrupted_from_playlist_id = none;
  status = online;
  last_seen = some 5;
  version = none;
  capabilities = none;
}

-- One client that plays the first of two playlists.
abbrev tables : Tables
tables = record {
  clients = (lobby, screen) ∷ [];
  playlists = 1 ∷ 2 ∷ [];
  client_playlists = (record { client_id = lobby; playlist_id = 1; priority = 3 }) ∷ [];
  group_members = [];
}

interrupt-resume_fails_example :
    let t = (interrupt_with_playlist lobby 2 tables).0 in
    (get lobby t.clients ≡ some (record screen { assigned_playlist_id = some 2 }))
    × (resume_from_interrupt lobby t ≡ (t, throw (app_error bad_request)))
unfolding get text_beq
interrupt-resume_fails_example = interrupt-resume_fails lobby 2 screen tables refl refl refl

add_playlist_assignment-PlaysHighest_example :
    ((add_playlist_assignment lobby 2 9 tables).1
      ≡ ok (record { client_id = lobby; playlist_id = 2; priority = 9 }))
    × ((add_playlist_assignment lobby 2 9 tables).0.client_playlists
        ≡ tables.client_playlists
          ++ (record { client_id = lobby; playlist_id = 2; priority = 9 }) ∷ [])
    × PlaysHighest lobby (add_playlist_assignment lobby 2 9 tables).0
unfolding get text_beq
add_playlist_assignment-PlaysHighest_example =
    add_playlist_assignment-PlaysHighest lobby 2 screen tables refl 9 refl refl

remove_playlist_assignment-PlaysHighest_example :
    PlaysHighest lobby (remove_playlist_assignment lobby 1 tables).0
    × (any (is_assignment lobby 1) (remove_playlist_assignment lobby 1 tables).0.client_playlists
        ≡ false)
    × ((remove_playlist_assignment lobby 1 tables).0.client_playlists
        ≡ filter (λ p. not (is_assignment lobby 1 p)) tables.client_playlists)
unfolding get text_beq
remove_playlist_assignment-PlaysHighest_example =
    remove_playlist_assignment-PlaysHighest lobby 1 screen tables refl

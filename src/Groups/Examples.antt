-- ===== src/Groups/Examples.antt =====
-- An example group of screens.
use montr.Base.{Text, none, some, some, [], ◌∷◌, codes, text_beq, nat_eq, ◌≡◌, refl, ok}
use montr.Base.Map.{has, get}
use montr.Database.Tables.{Client, online}
use montr.Groups.Service.{GroupTables, ClientGroup, add_member, remove_member}
use montr.Groups.Membership.{remove_member-add_member}

abbrev lobby : Text
lobby = codes "lobby"

abbrev screen : Client
screen = record {
  name = codes "Lobby";
  assigned_playlist_id = none;
  interrupted_from_playlist_id = none;
  status = online;
  last_seen = some 5;
  version = none;
  capabilities = none;
}

abbrev ground_floor : ClientGroup
ground_floor = record { name = codes "Ground floor"; description = none }

-- A group of one screen, which the lobby is not in.
abbrev one_group : GroupTables
one_group = record {
  tables = record {
    clients = (lobby, screen) ∷ (codes "hall", screen) ∷ [];
    playlists = [];
    client_playlists = [];
    group_members = (4, codes "hall" ∷ []) ∷ [];
  };
  groups = (4, ground_floor) ∷ [];
  next_group = 5;
}

remove_member-add_member_example :
    ((add_member 4 lobby one_group).1 ≡ ok tt)
    × (get 4 (add_member 4 lobby one_group).0.tables.group_members
        ≡ some (codes "hall" ∷ lobby ∷ []))
    × (remove_member 4 lobby (add_member 4 lobby one_group).0 ≡ (one_group, ok tt))
unfolding text_beq has get
remove_member-add_member_example =
    remove_member-add_member 4 lobby ground_floor screen (codes "hall" ∷ []) one_group (refl, tt)
      refl refl refl refl

-- ===== src/Database/Tables.antt =====
-- The rows of server/src/database/types.ts that the services here use, and the tables that hold
-- them. A table is the list of its rows in the order of their creation.
use montr.Base.{ℕ, Text, Option, List}
use montr.Base.Map.{Map}

pub data ClientStatus : Type 0 where
  online offline error : ClientStatus

pub record Client : Type 0 where
  pub name : Text
  pub assigned_playlist_id : Option ℕ
  pub interrupted_from_playlist_id : Option ℕ
  pub status : ClientStatus
  pub last_seen : Option ℕ
  pub version : Option Text
  pub capabilities : Option Text

-- A field that is `none` is `undefined`; one that is `some none` is `null`.
pub record UpdateClientInput : Type 0 where
  pub name : Option Text
  pub assigned_playlist_id : Option (Option ℕ)
  pub interrupted_from_playlist_id : Option (Option ℕ)
  pub status : Option ClientStatus
  pub last_seen : Option ℕ
  pub version : Option Text
  pub capabilities : Option Text

pub record CreateClientInput : Type 0 where
  pub id : Text
  pub name : Text
  pub version : Option Text
  pub capabilities : Option Text

pub record ClientPlaylist : Type 0 where
  pub client_id : Text
  pub playlist_id : ℕ
  pub priority : ℕ

pub record Tables : Type 0 where
  pub clients : Map Text Client
  pub playlists : List ℕ
  pub client_playlists : List ClientPlaylist
  pub group_members : Map ℕ (List Text)

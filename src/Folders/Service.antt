-- ===== src/Folders/Service.antt =====
-- server/src/services/folder.service.ts: createFolder, getFolderById and updateFolder. The service tells
-- the adapter's errors apart by the words of their messages.
use montr.Base.{
  ℕ, none, some, Result, ok, throw, app_error, foreign, folder_not_found, folder_cycle,
  folder_name_conflict, nat_eq,
}
use montr.Base.Map.{get}
use montr.Folders.Table.{
  FolderTable, CreateMediaFolderInput, UpdateMediaFolderInput, FolderError, not_there, own_parent,
  into_descendant, duplicate_name, Outcome, done, failed, create_media_folder, update_media_folder,
  path_under,
}
use montr.Base.{Thrown}

abbrev pub thrown_for : FolderError → Thrown
thrown_for not_there = foreign
thrown_for own_parent = app_error folder_cycle
thrown_for into_descendant = app_error folder_cycle
thrown_for duplicate_name = app_error folder_name_conflict

-- The table after a call: a transaction that failed leaves it as it was.
abbrev pub settled : Outcome → FolderTable → FolderTable × Result (Unit {0})
settled (done t') t = (t', ok tt)
settled (failed e) t = (t, throw (thrown_for e))

unfoldable pub create_folder :
    CreateMediaFolderInput → FolderTable → FolderTable × Result (Unit {0})
unfolding create_media_folder
create_folder input t = elim (path_under input.parent_id t.folders) [
  | none ↦ (t, throw (app_error folder_not_found))
  | some path ↦ settled (create_media_folder input t) t
]

unfoldable pub update_folder :
    ℕ → UpdateMediaFolderInput → FolderTable → FolderTable × Result (Unit {0})
unfolding update_media_folder
update_folder id input t = elim (get id t.folders) [
  | none ↦ (t, throw (app_error folder_not_found))
  | some folder ↦ settled (update_media_folder id input t) t
]

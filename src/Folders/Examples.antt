-- ===== src/Folders/Examples.antt =====
-- An example tree of two folders.
use montr.Base.{
  none, some, [], ◌∷◌, codes, text_eq, nat_eq, ◌≡◌, refl, throw, app_error, folder_cycle,
}
use montr.Base.Map.{get, set}
use montr.Folders.Table.{
  MediaFolder, FolderTable, CreateMediaFolderInput, is_taken, create_media_folder,
}
use montr.Folders.Service.{create_folder, update_folder}
use montr.Folders.Tree.{IsTree}
use montr.Folders.Moves.{update_folder-IsTree}
use montr.Folders.Cycles.{itself, child, update_folder-cycle}
use montr.Folders.Growth.{IsWellFormed, create_folder-IsWellFormed}

abbrev empty_table : FolderTable
empty_table = record { folders = []; next_id = 1 }

abbrev top : CreateMediaFolderInput
top = record { name = codes "top"; parent_id = none; created_by = none }

abbrev inner : CreateMediaFolderInput
inner = record { name = codes "inner"; parent_id = some 1; created_by = none }

abbrev top_folder : MediaFolder
top_folder = record { name = codes "top"; parent_id = none; path = 1 ∷ []; created_by = none }

abbrev inner_folder : MediaFolder
inner_folder = record {
  name = codes "inner";
  parent_id = some 1;
  path = 1 ∷ 2 ∷ [];
  created_by = none;
}

abbrev one_folder : FolderTable
one_folder = record { folders = (1, top_folder) ∷ []; next_id = 2 }

abbrev two_folders : FolderTable
two_folders = record { folders = (1, top_folder) ∷ (2, inner_folder) ∷ []; next_id = 3 }

empty_table-IsWellFormed : IsWellFormed empty_table
unfolding get
empty_table-IsWellFormed = record { tree = λ k f e. absurd cc; given_out = λ k f e. absurd cc }

one_folder-IsWellFormed : IsWellFormed one_folder
unfolding create_folder create_media_folder set is_taken
one_folder-IsWellFormed = create_folder-IsWellFormed top empty_table empty_table-IsWellFormed

create_folder-IsWellFormed_example : IsWellFormed two_folders
unfolding create_folder create_media_folder set get is_taken
create_folder-IsWellFormed_example =
    create_folder-IsWellFormed inner one_folder one_folder-IsWellFormed

two_folders-IsTree : IsTree two_folders.folders
unfolding create_folder create_media_folder set get is_taken
two_folders-IsTree = (create_folder-IsWellFormed inner one_folder one_folder-IsWellFormed).tree

-- The inner folder moves to the top.
update_folder-IsTree_example :
    IsTree
      (update_folder 2
        (record { name = some (codes "out"); parent_id = some none })
        two_folders).0.folders
update_folder-IsTree_example =
    update_folder-IsTree 2 (record { name = some (codes "out"); parent_id = some none }) two_folders
      two_folders-IsTree

-- The top folder does not move below itself.
update_folder-cycle_example :
    update_folder 1 (record { name = none; parent_id = some (some 2) }) two_folders
    ≡ (two_folders, throw (app_error folder_cycle))
unfolding get
update_folder-cycle_example =
    update_folder-cycle 1 2 top_folder two_folders two_folders-IsTree refl
      (child 2 inner_folder refl refl itself)

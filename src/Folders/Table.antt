-- ===== src/Folders/Table.antt =====
-- The media folders of server/src/database/adapters/sql-base.adapter.ts. A path `/3/7` is the list of
-- its ids, 3 and 7: an id is a number in decimal, so that `startsWith` with a closing slash compares
-- the ids one by one. `path LIKE 'old/%'` selects the paths that are longer than `old` and begin with it.
use montr.Base.{
  ℕ, zero, suc, ◌+◌, Text, Bool, true, false, not, ◌&&◌, ◌||◌, Option, none, some, List, [], ◌∷◌,
  ◌++◌, length, eqb, ltb, ◌==◌, text_eq, nat_eq, if◌then◌else◌,
}
use montr.Base.Map.{Map, get, set, modify}

pub record MediaFolder : Type 0 where
  pub name : Text
  pub parent_id : Option ℕ
  pub path : List ℕ
  pub created_by : Option ℕ

pub record FolderTable : Type 0 where
  pub folders : Map ℕ MediaFolder
  pub next_id : ℕ

pub record CreateMediaFolderInput : Type 0 where
  pub name : Text
  pub parent_id : Option ℕ
  pub created_by : Option ℕ

-- A field that is `none` is `undefined`; one that is `some none` is `null`.
pub record UpdateMediaFolderInput : Type 0 where
  pub name : Option Text
  pub parent_id : Option (Option ℕ)

-- What the adapter throws.
pub data FolderError : Type 0 where
  not_there own_parent into_descendant duplicate_name : FolderError

pub data Outcome : Type 0 where
  done : FolderTable → Outcome
  failed : FolderError → Outcome

unfoldable pub starts_with : List ℕ → List ℕ → Bool
starts_with [] path = true
starts_with (i ∷ old) [] = false
starts_with (i ∷ old) (j ∷ path) = eqb i j && starts_with old path

-- `path LIKE 'old/%'`
unfoldable pub is_below : List ℕ → List ℕ → Bool
unfolding starts_with
is_below old path = starts_with old path && ltb (length old) (length path)

-- `path.slice(n)`
unfoldable pub slice : ℕ → List ℕ → List ℕ
slice zero path = path
slice (suc n) [] = []
slice (suc n) (i ∷ path) = slice n path

abbrev pub same_parent : Option ℕ → Option ℕ → Bool
same_parent none none = true
same_parent (some p) (some q) = p == q
same_parent _ _ = false

-- `UNIQUE(parent_id, name)`, for another folder than `id`; no two NULLs are equal there.
unfoldable pub is_taken : Option ℕ → Text → ℕ → Map ℕ MediaFolder → Bool
is_taken none name id rows = false
is_taken (some p) name id [] = false
is_taken (some p) name id ((k, f) ∷ rows) =
    (not (k == id) && same_parent f.parent_id (some p) && f.name == name)
    || is_taken (some p) name id rows

-- The path of the parent of a folder; `none` where there is no such folder.
abbrev pub path_under : Option ℕ → Map ℕ MediaFolder → Option (List ℕ)
path_under none rows = some []
path_under (some p) rows = elim (get p rows) [ none ↦ none | some f ↦ some f.path ]

unfoldable pub create_media_folder : CreateMediaFolderInput → FolderTable → Outcome
unfolding is_taken
create_media_folder input t = elim (path_under input.parent_id t.folders) [
  | none ↦ failed not_there
  | some parent_path ↦
      if is_taken input.parent_id input.name t.next_id t.folders
      then failed duplicate_name
      else done (record {
        folders =
            set t.next_id
              (record {
                name = input.name;
                parent_id = input.parent_id;
                path = parent_path ++ t.next_id ∷ [];
                created_by = input.created_by;
              })
              t.folders;
        next_id = t.next_id + 1;
      })
]

-- The new path of a row below `old`.
unfoldable pub rebase : List ℕ → List ℕ → MediaFolder → MediaFolder
unfolding is_below slice
rebase old new f =
    if is_below old f.path then record f { path = new ++ slice (length old) f.path } else f

unfoldable pub rebase_all : List ℕ → List ℕ → Map ℕ MediaFolder → Map ℕ MediaFolder
unfolding rebase
rebase_all old new [] = []
rebase_all old new ((k, f) ∷ rows) = (k, rebase old new f) ∷ rebase_all old new rows

-- The row's new parent and path, and then the paths of the rows below its old path.
unfoldable pub relocate : ℕ → List ℕ → Option ℕ → List ℕ → Map ℕ MediaFolder → Map ℕ MediaFolder
unfolding rebase_all
relocate id old parent new rows =
    rebase_all old new (modify id (λ f. record f { parent_id = parent; path = new }) rows)

-- Why a folder cannot move to a new parent, if it cannot.
unfoldable pub refusal : ℕ → List ℕ → Option ℕ → Map ℕ MediaFolder → Option FolderError
unfolding starts_with
refusal id old none rows = none
refusal id old (some p) rows = elim (get p rows) [
  | none ↦ some not_there
  | some f ↦
      if p == id
      then some own_parent
      else (if starts_with old f.path then some into_descendant else none)
]

-- The move of the transaction.
unfoldable pub move_folder : ℕ → MediaFolder → Option ℕ → FolderTable → Outcome
unfolding refusal relocate is_taken
move_folder id folder parent t = elim (refusal id folder.path parent t.folders) [
  | some e ↦ failed e
  | none ↦ elim (path_under parent t.folders) [
    | none ↦ failed not_there
    | some parent_path ↦
        if is_taken parent folder.name id t.folders
        then failed duplicate_name
        else done (record t {
          folders = relocate id folder.path parent (parent_path ++ id ∷ []) t.folders;
        })
  ]
]

abbrev pub new_name : Option Text → Text → Text
new_name none name = name
new_name (some name') name = name'

-- The renaming of the transaction.
unfoldable pub rename_folder : ℕ → MediaFolder → Option Text → FolderTable → Outcome
unfolding is_taken
rename_folder id folder none t = done t
rename_folder id folder (some name) t =
    if is_taken folder.parent_id name id t.folders
    then failed duplicate_name
    else done (record t { folders = modify id (λ f. record f { name = name }) t.folders })

abbrev pub move_folder? : ℕ → MediaFolder → Option (Option ℕ) → FolderTable → Outcome
move_folder? id folder none t = done t
move_folder? id folder (some parent) t =
    if same_parent parent folder.parent_id then done t else move_folder id folder parent t

abbrev pub bind_outcome : Outcome → (FolderTable → Outcome) → Outcome
bind_outcome (done t) f = f t
bind_outcome (failed e) f = failed e

-- `updateMediaFolder`, all or nothing. `folder` is the row before; its name is the new one by the time
-- of the move.
unfoldable pub update_media_folder : ℕ → UpdateMediaFolderInput → FolderTable → Outcome
unfolding rename_folder move_folder
update_media_folder id input t = elim (get id t.folders) [
  | none ↦ failed not_there
  | some folder ↦
      bind_outcome (rename_folder id folder input.name t)
        (move_folder? id (record folder { name = new_name input.name folder.name }) input.parent_id)
]

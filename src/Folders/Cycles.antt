-- ===== src/Folders/Cycles.antt =====
-- server/src/services/folder.service.ts: no folder is moved below itself.
use montr.Base.{
  ℕ, true, false, Option, none, some, List, [], ◌∷◌, ◌++◌, ◌==◌, nat_eq, ◌≡◌, ◌≢◌, refl, sym, ap,
  ◌∙◌, arith, inl, inr, Bool-cases, throw, app_error, folder_cycle,
}
use montr.Base.Map.{Map, get}
use montr.Folders.Table.{
  MediaFolder, FolderTable, starts_with, path_under, refusal, same_parent, move_folder,
  rename_folder, update_media_folder,
}
use montr.Folders.Service.{update_folder}
use montr.Folders.Tree.{IsTree, HasPath}
use montr.Folders.Paths.{starts_with_self}
use montr.Folders.Moves.{other_parent}

-- The folder `id` itself and, by their parents, all folders below it.
pub data IsWithin (rows : Map ℕ MediaFolder) (id : ℕ) : ℕ → Type 0 where
  itself : IsWithin rows id id
  child :
      {p : ℕ} (k : ℕ) (f : MediaFolder)
      → get k rows ≡ some f
      → f.parent_id ≡ some p
      → IsWithin rows id p
      → IsWithin rows id k

starts_with-append :
    (old path : List ℕ) (k : ℕ)
    → starts_with old path ≡ true
    → starts_with old (path ++ k ∷ []) ≡ true
unfolding starts_with
starts_with-append [] path k h = refl
starts_with-append (i ∷ old) [] k h = cc
starts_with-append (i ∷ old) (j ∷ path) k h = ground (arith, starts_with-append old path k, h)

longer : (path : List ℕ) (k : ℕ) → starts_with (path ++ k ∷ []) path ≡ false
unfolding starts_with
longer [] k = refl
longer (i ∷ path) k = ground (arith, longer path k)

one_path : (p q : List ℕ) → some p ≡ some q → p ≡ q
one_path p q e = cc

path_above :
    (q : ℕ) (above : MediaFolder) (o : Option ℕ) (pp : List ℕ) (rows : Map ℕ MediaFolder)
    → o ≡ some q
    → get q rows ≡ some above
    → path_under o rows ≡ some pp
    → pp ≡ above.path
path_above q above o pp rows e h u =
    let there : path_under (some q) rows ≡ some above.path = rw (path_under, h) refl in
    one_path pp above.path (sym u ∙ ap (λ x. path_under x rows) e ∙ there)

-- A folder within another is there, and its path begins with the path of the other.
within-starts :
    (id : ℕ) (folder : MediaFolder) (rows : Map ℕ MediaFolder) (p : ℕ)
    → get id rows ≡ some folder
    → IsTree rows
    → IsWithin rows id p
    → (target : MediaFolder) × (get p rows ≡ some target)
      × (starts_with folder.path target.path ≡ true)
within-starts id folder rows p found tree itself = (folder, found, starts_with_self folder.path)
within-starts id folder rows p found tree (child {p = q} k f g e b) =
    let (above, there, starts) = within-starts id folder rows q found tree b in
    let (pp, under, path) = tree k f g in
    let same : pp ≡ above.path = path_above q above f.parent_id pp rows e there under in
    (f, g, rw (path, same) (starts_with-append folder.path above.path k starts))

-- Where the stored paths are those of a tree, moving a folder to itself or to any folder below it, at
-- any depth, is refused with FOLDER_CYCLE and changes nothing.
pub update_folder-cycle :
    (id p : ℕ) (folder : MediaFolder) (t : FolderTable)
    → IsTree t.folders
    → get id t.folders ≡ some folder
    → IsWithin t.folders id p
    → update_folder id (record { name = none; parent_id = some (some p) }) t
      ≡ (t, throw (app_error folder_cycle))
unfolding update_folder update_media_folder rename_folder move_folder refusal
update_folder-cycle id p folder t tree g below =
    let (target, h, s) = within-starts id folder t.folders p g tree below in
    let n : same_parent (some p) folder.parent_id ≡ false =
      other_parent folder.parent_id p (not_under folder target p (tree id folder g) h s) in
    elim (Bool-cases (p == id)) [
      | inl same ↦ ground (arith, g, h, n, s, same)
      | inr differs ↦ ground (arith, g, h, n, s, differs)
    ]
  where
    not_under :
        (folder target : MediaFolder) (p : ℕ)
        → HasPath t.folders id folder
        → get p t.folders ≡ some target
        → starts_with folder.path target.path ≡ true
        → folder.parent_id ≢ some p
    not_under folder target p (pp, under, path) h s e =
        let same : pp ≡ target.path = path_above p target folder.parent_id pp t.folders e h under in
        let below_itself : starts_with (target.path ++ id ∷ []) target.path ≡ true =
          ap (λ q. starts_with (q ++ id ∷ []) target.path) (sym same)
          ∙ ap (λ q. starts_with q target.path) (sym path)
          ∙ s in
        ground (arith, longer target.path id, below_itself)

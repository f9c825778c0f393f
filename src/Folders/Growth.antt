-- ===== src/Folders/Growth.antt =====
-- server/src/services/folder.service.ts: a new folder takes its place in the tree.
use montr.Base.{
  ℕ, ◌+◌, ◌<◌, Option, none, some, List, [], ◌∷◌, ◌++◌, eqb_iff, ◌==◌, nat_eq, ◌≡◌, ◌≢◌, refl,
  arith, inl, inr, Bool-cases, Option-cases, ap, ◌∙◌,
}
use montr.Base.Map.{Map, get, set, get-set}
use montr.Folders.Table.{
  MediaFolder, FolderTable, CreateMediaFolderInput, path_under, is_taken, create_media_folder,
}
use montr.Folders.Service.{create_folder}
use montr.Folders.Tree.{IsTree}

-- The folders are a tree, and every id that is in use was given out.
pub record IsWellFormed (t : FolderTable) : Type 0 where
  pub tree : IsTree t.folders
  pub given_out : (k : ℕ) (f : MediaFolder) → get k t.folders ≡ some f → k < t.next_id

get-set_other :
    (j k : ℕ) (f : MediaFolder) (rows : Map ℕ MediaFolder)
    → j ≢ k
    → get k (set j f rows) ≡ get k rows
get-set_other j k f rows ne = ground (arith, get-set j k f rows, eqb_iff j k, ne)

module _ (t : FolderTable) (wf : IsWellFormed t) (g : MediaFolder) where
  path_under-set :
      (o : Option ℕ) (p : List ℕ)
      → path_under o t.folders ≡ some p
      → path_under o (set t.next_id g t.folders) ≡ some p
  path_under-set none p u = u
  path_under-set (some q) p u = elim (Option-cases (get q t.folders)) [
    | inl e ↦ absurd (ground (arith, e, u))
    | inr (f, e) ↦
        let apart : t.next_id ≢ q = λ i. omega (arith, wf.given_out q f e, i) in
        ground (arith, e, u, get-set_other t.next_id q g t.folders apart)
  ]

  set-IsWellFormed :
      (p : List ℕ)
      → path_under g.parent_id t.folders ≡ some p
      → g.path ≡ p ++ t.next_id ∷ []
      → IsWellFormed (record { folders = set t.next_id g t.folders; next_id = t.next_id + 1 })
  set-IsWellFormed p u h = record {
    tree = λ k f e. elim (Bool-cases (t.next_id == k)) [
      | inl same ↦
          let i : t.next_id ≡ k = (eqb_iff t.next_id k).0 same in
          let row : f ≡ g = ground (arith, e, get-set t.next_id k g t.folders, same) in
          rw row (p, path_under-set g.parent_id p u, h ∙ ap (λ j. p ++ j ∷ []) i)
      | inr differs ↦
          let old : get k t.folders ≡ some f =
            ground (arith, e, get-set t.next_id k g t.folders, differs) in
          let place = wf.tree k f old in
          (place.0, path_under-set f.parent_id place.0 place.1, place.2)
    ];
    given_out = λ k f e. elim (Bool-cases (t.next_id == k)) [
      | inl same ↦ let i = (eqb_iff t.next_id k).0 same in omega (arith, i)
      | inr differs ↦
          let old : get k t.folders ≡ some f =
            ground (arith, e, get-set t.next_id k g t.folders, differs) in
          let below = wf.given_out k f old in omega (arith, below)
    ];
  }

-- Creating a folder, refused or not, keeps the folders a tree whose ids were given out.
pub create_folder-IsWellFormed :
    (input : CreateMediaFolderInput) (t : FolderTable)
    → IsWellFormed t
    → IsWellFormed (create_folder input t).0
unfolding create_folder create_media_folder
create_folder-IsWellFormed input t wf = elim (Option-cases (path_under input.parent_id t.folders)) [
  | inl u ↦ let same : (create_folder input t).0 ≡ t = ground (arith, u) in rw same wf
  | inr (p, u) ↦ elim (Bool-cases (is_taken input.parent_id input.name t.next_id t.folders)) [
    | inl y ↦ let same : (create_folder input t).0 ≡ t = ground (arith, u, y) in rw same wf
    | inr n ↦
        let g : MediaFolder = record {
          name = input.name;
          parent_id = input.parent_id;
          path = p ++ t.next_id ∷ [];
          created_by = input.created_by;
        } in
        let same : (create_folder input t).0
            ≡ record { folders = set t.next_id g t.folders; next_id = t.next_id + 1 } =
          ground (arith, u, n) in
        rw same (set-IsWellFormed t wf g p u refl)
  ]
]

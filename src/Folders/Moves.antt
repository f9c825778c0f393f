-- ===== src/Folders/Moves.antt =====
-- server/src/services/folder.service.ts: creating, renaming and moving folders keeps the paths those of
-- a tree.
use montr.Base.{
  ℕ, Text, false, Option, none, some, List, [], ◌∷◌, ◌++◌, eqb_iff, ◌==◌, nat_eq, ◌≡◌, ◌≢◌, refl,
  arith, ◌⊎◌, inl, inr, Bool-cases, Option-cases, ap, sym, ◌∙◌,
}
use montr.Base.Map.{Map, get, modify, get-modify_self, get-modify_other, get-modify-none}
use montr.Folders.Table.{
  MediaFolder, FolderTable, UpdateMediaFolderInput, FolderError, Outcome, done, failed, starts_with,
  path_under, refusal, new_name, move_folder?, is_taken, relocate, same_parent, move_folder,
  rename_folder, update_media_folder,
}
use montr.Folders.Service.{update_folder}
use montr.Folders.Tree.{IsTree, relocate-IsTree}
use montr.Folders.Paths.{not_below_root}

path_under-modify :
    (id : ℕ) (name : Text) (rows : Map ℕ MediaFolder) (o : Option ℕ)
    → path_under o (modify id (λ f. record f { name = name }) rows) ≡ path_under o rows
path_under-modify id name rows none = refl
path_under-modify id name rows (some p) = elim (Option-cases (get p rows)) [
  | inl g ↦ ground (arith, g, get-modify-none id p (λ f. record f { name = name }) rows g)
  | inr (f, g) ↦ elim (Bool-cases (id == p)) [
    | inl same ↦
        let i : id ≡ p = (eqb_iff id p).0 same in
        let at_p = ap (λ j. get j (modify id (λ f. record f { name = name }) rows)) i in
        ground (
          arith,
          g,
          at_p,
          get-modify_self id (λ f. record f { name = name }) f rows (ap (λ j. get j rows) i ∙ g),
        )
    | inr differs ↦ ground (
      arith,
      g,
      get-modify_other id p (λ f. record f { name = name }) rows
          (λ i. ground (arith, differs, eqb_iff id p, i)),
    )
  ]
]

only : (f g : MediaFolder) → some f ≡ some g → f ≡ g
only f g e = cc

nothing : (f : MediaFolder) → some f ≡ none → ⊥
nothing f e = cc

modify-IsTree :
    (id : ℕ) (name : Text) (rows : Map ℕ MediaFolder)
    → IsTree rows
    → IsTree (modify id (λ f. record f { name = name }) rows)
modify-IsTree id name rows tree k f' e' = elim (Option-cases (get k rows)) [
  | inl g ↦
      absurd (nothing _ (sym e' ∙ get-modify-none id k (λ f. record f { name = name }) rows g))
  | inr (f, g) ↦
      let t = tree k f g in
      elim (Bool-cases (id == k)) [
        | inl same ↦
            let i : id ≡ k = (eqb_iff id k).0 same in
            let row : f' ≡ record f { name = name } = only _ _ (
              sym e'
              ∙ ap (λ j. get j (modify id (λ h. record h { name = name }) rows)) (sym i)
              ∙ get-modify_self id (λ h. record h { name = name }) f rows
                  (ap (λ j. get j rows) i ∙ g)) in
            rw row (t.0, path_under-modify id name rows f.parent_id ∙ t.1, t.2)
        | inr differs ↦
            let row : f' ≡ f = only _ _ (
              sym e'
              ∙ get-modify_other id k (λ h. record h { name = name }) rows
                  (λ i. ground (arith, differs, eqb_iff id k, i))
              ∙ g) in
            rw row (t.0, path_under-modify id name rows f.parent_id ∙ t.1, t.2)
      ]
]

nothing_above : (p : List ℕ) → some [] ≡ some p → p ≡ []
nothing_above p e = cc

done_injective : (t u : FolderTable) → done t ≡ done u → t ≡ u
done_injective t u e = cc

not_done : (e : FolderError) (t : FolderTable) → failed e ≡ done t → ⊥
not_done e t q = cc

-- A move that is not refused goes to a folder outside the one that moves.
refusal-outside :
    (id : ℕ) (folder : MediaFolder) (parent : Option ℕ) (pp : List ℕ) (rows : Map ℕ MediaFolder)
    → get id rows ≡ some folder
    → IsTree rows
    → refusal id folder.path parent rows ≡ none
    → path_under parent rows ≡ some pp
    → starts_with folder.path pp ≡ false
unfolding refusal
refusal-outside id folder none pp rows found tree r u =
    let own = tree id folder found in
    let empty : pp ≡ [] = nothing_above pp u in rw (own.2, empty) (not_below_root own.0 id)
refusal-outside id folder (some p) pp rows found tree r u = elim (Option-cases (get p rows)) [
  | inl g ↦ absurd (ground (arith, g, u))
  | inr (f, g) ↦ elim (Bool-cases (p == id)) [
    | inl same ↦ absurd (ground (arith, g, r, same))
    | inr differs ↦
        ground (arith, g, r, differs, u, ap (starts_with folder.path) {x = f.path} {y = pp})
  ]
]

move_folder-IsTree :
    (id : ℕ) (folder : MediaFolder) (parent : Option ℕ) (t t' : FolderTable)
    → get id t.folders ≡ some folder
    → IsTree t.folders
    → move_folder id folder parent t ≡ done t'
    → IsTree t'.folders
unfolding move_folder
move_folder-IsTree id folder parent t t' found tree e =
    elim (Option-cases (refusal id folder.path parent t.folders)) [
      | inr (w, r) ↦ absurd (not_done w t' (ground (arith, r, e)))
      | inl r ↦ elim (Option-cases (path_under parent t.folders)) [
        | inl u ↦ absurd (ground (arith, r, u, e))
        | inr (pp, u) ↦ elim (Bool-cases (is_taken parent folder.name id t.folders)) [
          | inl y ↦ absurd (ground (arith, r, u, y, e))
          | inr n ↦
              let t'' : FolderTable = record t {
                folders = relocate id folder.path parent (pp ++ id ∷ []) t.folders;
              } in
              let same : t'' ≡ t' = done_injective t'' t' (ground (arith, r, u, n, e)) in
              rw⁻¹ same (
                relocate-IsTree id folder parent pp t.folders found tree u
                  (refusal-outside id folder parent pp t.folders found tree r u))
        ]
      ]
    ]

rename_folder-IsTree :
    (id : ℕ) (folder : MediaFolder) (name : Option Text) (t t' : FolderTable)
    → get id t.folders ≡ some folder
    → IsTree t.folders
    → rename_folder id folder name t ≡ done t'
    → IsTree t'.folders
      × (get id t'.folders ≡ some (record folder { name = new_name name folder.name }))
unfolding rename_folder
rename_folder-IsTree id folder none t t' found tree e =
    let same : t ≡ t' = done_injective t t' e in rw⁻¹ same (tree, found)
rename_folder-IsTree id folder (some name) t t' found tree e =
    elim (Bool-cases (is_taken folder.parent_id name id t.folders)) [
      | inl y ↦ absurd (ground (arith, y, e))
      | inr n ↦
          let t'' : FolderTable = record t {
            folders = modify id (λ f. record f { name = name }) t.folders;
          } in
          let same : t'' ≡ t' = done_injective t'' t' (ground (arith, n, e)) in
          rw⁻¹ same (
            modify-IsTree id name t.folders tree,
            get-modify_self id (λ f. record f { name = name }) folder t.folders found,
          )
    ]

outcome_cases :
    (o : Outcome) → ((t : FolderTable) × (o ≡ done t)) ⊎ ((e : FolderError) × (o ≡ failed e))
outcome_cases (done t) = inl (t, refl)
outcome_cases (failed e) = inr (e, refl)

move_folder?-IsTree :
    (id : ℕ) (folder : MediaFolder) (parent : Option (Option ℕ)) (t t' : FolderTable)
    → get id t.folders ≡ some folder
    → IsTree t.folders
    → move_folder? id folder parent t ≡ done t'
    → IsTree t'.folders
move_folder?-IsTree id folder none t t' found tree e = rw⁻¹ (done_injective t t' e) tree
move_folder?-IsTree id folder (some parent) t t' found tree e =
    elim (Bool-cases (same_parent parent folder.parent_id)) [
      | inl y ↦ rw⁻¹ (done_injective t t' (ground (arith, y, e))) tree
      | inr n ↦ move_folder-IsTree id folder parent t t' found tree (ground (arith, n, e))
    ]

pub other_parent : (o : Option ℕ) (p : ℕ) → o ≢ some p → same_parent (some p) o ≡ false
other_parent none p ne = refl
other_parent (some q) p ne = elim (Bool-cases (p == q)) [
  | inl same ↦ absurd (ne (ap some (sym ((eqb_iff p q).0 same))))
  | inr differs ↦ differs
]

-- If the path of every folder is the path of its parent, which is there, followed by its own id, then
-- this is so after any renaming and moving of a folder too, refused or not.
pub update_folder-IsTree :
    (id : ℕ) (input : UpdateMediaFolderInput) (t : FolderTable)
    → IsTree t.folders
    → IsTree (update_folder id input t).0.folders
unfolding update_folder update_media_folder
update_folder-IsTree id input t tree = elim (Option-cases (get id t.folders)) [
  | inl g ↦ let same : (update_folder id input t).0 ≡ t = ground (arith, g) in rw same tree
  | inr (folder, g) ↦ elim (outcome_cases (update_media_folder id input t)) [
    | inr (e, o) ↦
        let same : (update_folder id input t).0 ≡ t = ground (arith, g, o) in rw same tree
    | inl (t', o) ↦ elim (outcome_cases (rename_folder id folder input.name t)) [
      | inr (e, q) ↦ absurd (ground (arith, g, q, o))
      | inl (t1, q) ↦
          let renamed = rename_folder-IsTree id folder input.name t t1 g tree q in
          let moved =
            move_folder?-IsTree id (record folder { name = new_name input.name folder.name })
              input.parent_id t1 t' renamed.1 renamed.0 (ground (arith, g, q, o)) in
          let same : (update_folder id input t).0 ≡ t' = ground (arith, g, o) in rw same moved
    ]
  ]
]

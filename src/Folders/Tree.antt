-- ===== src/Folders/Tree.antt =====
-- server/src/services/folder.service.ts and the adapter: the stored paths are those of a tree, and a
-- folder never moves below itself.
use montr.Base.{
  ℕ, true, false, Option, none, some, List, [], ◌∷◌, ◌++◌, length, eqb_iff, ◌==◌, nat_eq, ◌≡◌, ◌≢◌,
  refl, arith, inl, inr, Bool-cases, Option-cases, ap, sym, ◌∙◌,
}
use mathlib.Core.List.{append_assoc, append-nil}
use montr.Base.Map.{Map, get, modify, get-modify_self, get-modify_other}
use montr.Folders.Table.{
  MediaFolder, starts_with, is_below, slice, path_under, rebase, rebase_all, relocate,
}
use montr.Folders.Paths.{
  is_below-append, slice-append, starts_with_self, slice_self, starts_with-cases, is_below-starts,
  last_injective, not_below_root,
}

-- The path of a folder is its parent's path and its own id; a folder without a parent has its id alone.
abbrev pub IsUnder : Map ℕ MediaFolder → ℕ → MediaFolder → Type 0
IsUnder rows k f = path_under f.parent_id rows ≡ some f.path

abbrev pub HasPath : Map ℕ MediaFolder → ℕ → MediaFolder → Type 0
HasPath rows k f = (p : List ℕ) × (path_under f.parent_id rows ≡ some p) × (f.path ≡ p ++ k ∷ [])

abbrev pub IsTree : Map ℕ MediaFolder → Type 0
IsTree rows = (k : ℕ) (f : MediaFolder) → get k rows ≡ some f → HasPath rows k f

rebase_opt : List ℕ → List ℕ → Option MediaFolder → Option MediaFolder
rebase_opt old new none = none
rebase_opt old new (some f) = some (rebase old new f)

get-rebase_all :
    (old new : List ℕ) (k : ℕ) (rows : Map ℕ MediaFolder)
    → get k (rebase_all old new rows) ≡ rebase_opt old new (get k rows)
unfolding get rebase_all rebase_opt
get-rebase_all old new k [] = refl
get-rebase_all old new k ((j, f) ∷ rows) = ground (arith, get-rebase_all old new k rows)

-- The row of a folder after a move.
module _ (id : ℕ) (folder : MediaFolder) (parent : Option ℕ) (new : List ℕ)
    (rows : Map ℕ MediaFolder) (found : get id rows ≡ some folder) where
  abbrev moved : MediaFolder
  moved = record folder { parent_id = parent; path = new }

  get-relocate_self :
      is_below folder.path new ≡ false
      → get id (relocate id folder.path parent new rows) ≡ some moved
  unfolding relocate rebase_opt rebase
  get-relocate_self b =
      let set_row : MediaFolder → MediaFolder = λ f. record f { parent_id = parent; path = new } in
      get-rebase_all folder.path new id (modify id set_row rows)
      ∙ ap (rebase_opt folder.path new) (get-modify_self id set_row folder rows found)
      ∙ ground (arith, b)

  get-relocate_other :
      (k : ℕ)
      → id ≢ k
      → get k (relocate id folder.path parent new rows) ≡ rebase_opt folder.path new (get k rows)
  unfolding relocate
  get-relocate_other k ne =
      let set_row : MediaFolder → MediaFolder = λ f. record f { parent_id = parent; path = new } in
      get-rebase_all folder.path new k (modify id set_row rows)
      ∙ ap (rebase_opt folder.path new) (get-modify_other id k set_row rows ne)

rebase_below :
    (old new p : List ℕ) (k : ℕ) (f : MediaFolder)
    → f.path ≡ p ++ k ∷ []
    → starts_with old p ≡ true
    → (rebase old new f).path ≡ (new ++ slice (length old) p) ++ k ∷ []
unfolding rebase
rebase_below old new p k f e h =
    let b : is_below old f.path ≡ true = ap (is_below old) e ∙ is_below-append old p k ∙ h in
    let s = ap (slice (length old)) e ∙ slice-append old p k h in
    rw (b, s) (sym (append_assoc new (slice (length old) p) (k ∷ [])))

rebase_beside :
    (old new p : List ℕ) (k : ℕ) (f : MediaFolder)
    → f.path ≡ p ++ k ∷ []
    → starts_with old p ≡ false
    → rebase old new f ≡ f
unfolding rebase
rebase_beside old new p k f e h =
    let b : is_below old f.path ≡ false = ap (is_below old) e ∙ is_below-append old p k ∙ h in
    rw b refl

rebase_parent : (old new : List ℕ) (f : MediaFolder) → (rebase old new f).parent_id ≡ f.parent_id
unfolding rebase
rebase_parent old new f = ground arith

rebase_unmoved :
    (old new : List ℕ) (f : MediaFolder) → is_below old f.path ≡ false → rebase old new f ≡ f
unfolding rebase
rebase_unmoved old new f b = rw b refl

rebase_moved :
    (old new : List ℕ) (f : MediaFolder)
    → is_below old f.path ≡ true
    → (rebase old new f).path ≡ new ++ slice (length old) f.path
unfolding rebase
rebase_moved old new f b = rw b refl

-- The path of a parent other than the one that moves, before and after.
rebase_child :
    (old new : List ℕ) (k : ℕ) (f pf : MediaFolder)
    → f.path ≡ pf.path ++ k ∷ []
    → pf.path ≢ old
    → (rebase old new f).path ≡ (rebase old new pf).path ++ k ∷ []
rebase_child old new k f pf e ne = elim (Bool-cases (starts_with old pf.path)) [
  | inr no' ↦
      rw
        (
          rebase_beside old new pf.path k f e no',
          rebase_unmoved old new pf (is_below-starts old pf.path no'),
        )
        e
  | inl yes' ↦ elim (starts_with-cases old pf.path yes') [
    | inl same ↦ absurd (ne same)
    | inr b ↦
        rebase_below old new pf.path k f e yes'
        ∙ sym (ap (λ q. q ++ k ∷ []) (rebase_moved old new pf b))
  ]
]

no_path : (p : List ℕ) → some [] ≡ some p → p ≡ []
no_path p e = cc

only : (f g : MediaFolder) → some f ≡ some g → f ≡ g
only f g e = cc

nothing : (f : MediaFolder) → some f ≡ rebase_opt [] [] none → ⊥
unfolding rebase_opt
nothing f e = cc

module _ (id : ℕ) (folder : MediaFolder) (parent : Option ℕ) (pp : List ℕ)
    (rows : Map ℕ MediaFolder) (found : get id rows ≡ some folder) (tree : IsTree rows)
    (under : path_under parent rows ≡ some pp) (outside : starts_with folder.path pp ≡ false) where
  abbrev new_path : List ℕ
  new_path = pp ++ id ∷ []

  abbrev rows' : Map ℕ MediaFolder
  rows' = relocate id folder.path parent new_path rows

  self' : get id rows' ≡ some (record folder { parent_id = parent; path = new_path })
  self' =
      get-relocate_self id folder parent new_path rows found
        (is_below-append folder.path pp id ∙ outside)

  other' :
      (k : ℕ) (f : MediaFolder)
      → id ≢ k
      → get k rows ≡ some f
      → get k rows' ≡ some (rebase folder.path new_path f)
  unfolding rebase_opt
  other' k f ne e =
      get-relocate_other id folder parent new_path rows found k ne
      ∙ ap (rebase_opt folder.path new_path) e

  under' : (parent' : Option ℕ) → parent' ≡ parent → path_under parent' rows' ≡ some pp
  under' none e = ground (arith, e, under)
  under' (some q) e = elim (Option-cases (get q rows)) [
    | inl g ↦ absurd (ground (arith, g, under, ap (λ o. path_under o rows) e))
    | inr (fq, g) ↦
        let same : fq.path ≡ pp = ground (arith, g, under, ap (λ o. path_under o rows) e) in
        let apart : id ≢ q = λ i.
          ground (
            arith,
            starts_with_self folder.path,
            same,
            outside,
            g,
            found,
            ap (λ j. get j rows) i,
          ) in
        let stays =
          rebase_unmoved folder.path new_path fq
            (is_below-starts folder.path fq.path (ap (starts_with folder.path) same ∙ outside)) in
        ground (arith, other' q fq apart g, stays, same)
  ]

  -- A child of another folder, or of none.
  child' :
      (k : ℕ) (f : MediaFolder)
      → id ≢ k
      → get k rows ≡ some f
      → (o : Option ℕ) → f.parent_id ≡ o
      → (p : List ℕ) → path_under o rows ≡ some p
      → f.path ≡ p ++ k ∷ []
      → (q : List ℕ) × (path_under o rows' ≡ some q)
        × ((rebase folder.path new_path f).path ≡ q ++ k ∷ [])
  child' k f ne e none po p u h =
      let own = tree id folder found in
      let root : f.path ≡ [] ++ k ∷ [] = h ∙ ap (λ q. q ++ k ∷ []) (no_path p u) in
      let outside' : starts_with folder.path [] ≡ false = rw own.2 (not_below_root own.0 id) in
      (
        [],
        refl,
        ap (λ (g : MediaFolder). g.path) (rebase_beside folder.path new_path [] k f root outside')
            ∙ root,
      )
  child' k f ne e (some pk) po p u h = elim (Bool-cases (id == pk)) [
    | inl same ↦
        let i : id ≡ pk = (eqb_iff id pk).0 same in
        let pe : p ≡ folder.path = ground (arith, u, found, ap (λ j. get j rows) i) in
        let h' = h ∙ ap (λ q. q ++ k ∷ []) pe in
        (
          new_path,
          ground (arith, self', ap (λ j. get j rows') i),
          rebase_below folder.path new_path folder.path k f h' (starts_with_self folder.path)
              ∙ ap (λ q. (new_path ++ q) ++ k ∷ []) (slice_self folder.path)
              ∙ ap (λ q. q ++ k ∷ []) (append-nil new_path),
        )
    | inr differs ↦ elim (Option-cases (get pk rows)) [
      | inl g ↦ absurd (ground (arith, g, u))
      | inr (pf, g) ↦
          let pe : p ≡ pf.path = ground (arith, u, g) in
          let apart : pf.path ≢ folder.path = λ q. ground (
            arith,
            last_injective _ _ pk id (sym (tree pk pf g).2 ∙ q ∙ (tree id folder found).2),
            differs,
            eqb_iff id pk,
          ) in
          (
            (rebase folder.path new_path pf).path,
            ground (arith, other' pk pf (λ i. ground (arith, differs, eqb_iff id pk, i)) g),
            rebase_child folder.path new_path k f pf (h ∙ ap (λ q. q ++ k ∷ []) pe) apart,
          )
    ]
  ]

  pub relocate-IsTree : IsTree rows'
  unfolding rebase_opt
  relocate-IsTree k f' e' = elim (Bool-cases (id == k)) [
    | inl same ↦
        let i : id ≡ k = (eqb_iff id k).0 same in
        let row : f' ≡ record folder { parent_id = parent; path = new_path } =
          only _ _ (sym e' ∙ ap (λ j. get j rows') (sym i) ∙ self') in
        rw row (pp, under' parent refl, ap (λ j. pp ++ j ∷ []) i)
    | inr differs ↦
        let ne : id ≢ k = λ i. ground (arith, differs, eqb_iff id k, i) in
        elim (Option-cases (get k rows)) [
          | inl g ↦ absurd (
              nothing _ (
                sym e'
                ∙ get-relocate_other id folder parent new_path rows found k ne
                ∙ ap (rebase_opt folder.path new_path) g))
          | inr (f, g) ↦
              let row : f' ≡ rebase folder.path new_path f = only _ _ (sym e' ∙ other' k f ne g) in
              let t = tree k f g in
              rw (row, rebase_parent folder.path new_path f)
                (child' k f ne g f.parent_id refl t.0 t.1 t.2)
        ]
  ]

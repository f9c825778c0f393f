-- ===== src/Groups/Membership.antt =====
-- server/src/services/group.service.ts: adding a member and removing it again.
use montr.Base.{
  ◌∙◌, ℕ, Text, Bool, true, false, not, some, List, [], ◌∷◌, ◌++◌, ◌==◌, nat_eq, text_eq, eqb_iff,
  filter, includes, ◌≡◌, refl, arith, Bool-cases, inl, inr, ok, beq_refl,
}
use montr.Base.Map.{Map, get, has, modify, get-modify_self, Distinct, has-of_get}
use montr.Database.Tables.{Client}
use montr.Database.ClientRows.{get_client}
use montr.Scheduling.Dispatch.{members_of, name_of}
use montr.Scheduling.Audience.{includes-by_name}
use montr.Groups.Service.{ClientGroup, GroupTables, get_group_by_id, add_member, remove_member}

without_added :
    (id : Text) (ids : List Text)
    → includes ids id ≡ false
    → filter (λ k. not (k == id)) (ids ++ id ∷ []) ≡ ids
without_added id [] h = rw (beq_refl id) refl
without_added id (k ∷ ids) h = ground (arith, h, without_added id ids)

includes-filter :
    (p : Text → Bool) (id : Text) (ids : List Text)
    → includes ids id ≡ false
    → includes (filter p ids) id ≡ false
includes-filter p id [] h = refl
includes-filter p id (k ∷ ids) h = ground (arith, h, includes-filter p id ids)

modify_missing :
    (k : ℕ) (f : List Text → List Text) (m : Map ℕ (List Text)) → has k m ≡ false → modify k f m ≡ m
unfolding modify has
modify_missing k f [] h = refl
modify_missing k f ((j, xs) ∷ m) h = ground (arith, h, modify_missing k f m)

-- Two changes that undo each other at the value a key has.
modify_back :
    (k : ℕ) (f g : List Text → List Text) (xs : List Text) (m : Map ℕ (List Text))
    → Distinct m
    → get k m ≡ some xs
    → g (f xs) ≡ xs
    → modify k g (modify k f m) ≡ m
unfolding modify get
modify_back k f g xs [] d h e = refl
modify_back k f g xs ((j, ys) ∷ m) d h e = elim (Bool-cases (j == k)) [
  | inl t ↦
      let gone : modify k f m ≡ m = modify_missing k f m (ground (arith, d.0, eqb_iff j k)) in
      let gone' : modify k g m ≡ m = modify_missing k g m (ground (arith, d.0, eqb_iff j k)) in
      ground (arith, t, h, e, gone, gone')
  | inr t ↦ ground (arith, t, h, modify_back k f g xs m d.1)
]

-- Adding a known client to a group it is not in succeeds and puts it behind the members that the group
-- had; removing it then leaves the tables as they were.
pub remove_member-add_member :
    (group : ℕ) (id : Text) (g : ClientGroup) (c : Client) (ids : List Text) (s : GroupTables)
    → Distinct s.tables.group_members
    → get group s.groups ≡ some g
    → get id s.tables.clients ≡ some c
    → get group s.tables.group_members ≡ some ids
    → includes ids id ≡ false
    → ((add_member group id s).1 ≡ ok tt)
      × (get group (add_member group id s).0.tables.group_members ≡ some (ids ++ id ∷ []))
      × ((remove_member group id (add_member group id s).0) ≡ (s, ok tt))
unfolding add_member remove_member get_group_by_id get_client members_of
remove_member-add_member group id g c ids s d hg hc hm n =
    let there : has group s.tables.group_members ≡ true =
      has-of_get group ids s.tables.group_members hm in
    let back =
      modify_back group (λ xs. xs ++ id ∷ []) (filter (λ k. not (k == id))) ids
        s.tables.group_members d hm (without_added id ids n) in
    let held = includes-filter (λ k. has k s.tables.clients) id ids n in
    let new =
      includes-by_name (name_of s.tables.clients) id (filter (λ k. has k s.tables.clients) ids)
      ∙ held in
    let added = get-modify_self group (λ xs. xs ++ id ∷ []) ids s.tables.group_members hm in
    (
      ground (arith, hg, hc, hm, new),
      ground (arith, hg, hc, hm, new, there, added),
      ground (arith, hg, hc, hm, new, there, back),
    )

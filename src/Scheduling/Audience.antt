-- ===== src/Scheduling/Audience.antt =====
-- server/src/services/schedule.service.ts: the clients of a schedule, and the schedules of a client, which
-- server/src/websocket/handlers.ts pushes to it.
use montr.Base.{
  ℕ, suc, Text, Bool, true, false, ◌&&◌, ◌||◌, Option, none, some, List, [], ◌∷◌, ◌++◌, ◌==◌,
  text_eq, nat_eq, eqb_iff, filter, includes, if◌then◌else◌, ◌≡◌, refl, sym, ap, ◌∙◌, inl, inr,
  arith, Option-cases, All,
}
use montr.Base.Map.{Map, get, has, keys, Distinct, get-of_has-false}
use montr.Database.Tables.{Tables}
use montr.Database.ClientRows.{all_clients, newest_first}
use montr.Scheduling.Types.{Schedule, truthy_text, truthy_number}
use montr.Scheduling.Dispatch.{members_of, by_name, insert_by_name, name_of}

unfoldable pub get_clients_for_schedule : Schedule → Tables → List Text
unfolding members_of all_clients
get_clients_for_schedule s t = elim (truthy_text s.client_id) [
  | some id ↦ id ∷ []
  | none ↦ elim (truthy_number s.group_id) [
    | some group ↦ members_of group t
    | none ↦ keys (all_clients t)
  ]
]

-- `db.getClientGroups`
unfoldable pub groups_of : Text → Map ℕ (List Text) → List ℕ
groups_of id [] = []
groups_of id ((g, ids) ∷ groups) =
    if includes ids id then g ∷ groups_of id groups else groups_of id groups

abbrev pub in_groups : List ℕ → Option ℕ → Bool
in_groups groups none = false
in_groups groups (some g) = includes groups g

abbrev pub is_client : Text → Option Text → Bool
is_client id none = false
is_client id (some c) = c == id

abbrev pub is_null : {A : Type 0} → Option A → Bool
is_null none = true
is_null (some a) = false

abbrev pub applies_to : Text → List ℕ → Schedule → Bool
applies_to id groups s =
    is_client id s.client_id
    || (in_groups groups s.group_id || (is_null s.client_id && is_null s.group_id))

unfoldable pub get_schedules_for_client : Text → List Schedule → Tables → List Schedule
unfolding groups_of
get_schedules_for_client id schedules t =
    filter (applies_to id (groups_of id t.group_members)) schedules

-- A schedule is for one client, or one group, or all.
pub data Scope : Option Text → Option ℕ → Type 0 where
  one_client : (c : ℕ) (id : Text) → Scope (some (c ∷ id)) none
  one_group : (g : ℕ) → Scope none (some (suc g))
  all_of_them : Scope none none

abbrev is_member : Text → Option (List Text) → Bool
is_member id none = false
is_member id (some ids) = includes ids id

includes-groups_of :
    (id : Text) (g : ℕ) (groups : Map ℕ (List Text))
    → Distinct groups
    → includes (groups_of id groups) g ≡ is_member id (get g groups)
unfolding groups_of get
includes-groups_of id g [] d = refl
includes-groups_of id g ((k, ids) ∷ groups) d = ground (
  arith,
  eqb_iff k g,
  includes-groups_of id g groups d.1,
  get-of_has-false k groups d.0,
  ap (λ i. get i groups) {x = k} {y = g},
)

pub includes-keys : {V : Type 0} (id : Text) (m : Map Text V) → includes (keys m) id ≡ has id m
unfolding has
includes-keys id [] = refl
includes-keys id ((k, v) ∷ m) = ap (λ b. k == id || b) (includes-keys id m)

includes-append :
    (id : Text) (xs ys : List Text) → includes (xs ++ ys) id ≡ (includes xs id || includes ys id)
includes-append id [] ys = refl
includes-append id (x ∷ xs) ys = ground (arith, includes-append id xs ys)

keys-append : {V : Type 0} (m n : Map Text V) → keys (m ++ n) ≡ keys m ++ keys n
keys-append [] n = refl
keys-append ((k, v) ∷ m) n = ap (λ ks. k ∷ ks) (keys-append m n)

includes-newest_first :
    {V : Type 0} (id : Text) (m : Map Text V)
    → includes (keys (newest_first m)) id ≡ includes (keys m) id
includes-newest_first id [] = refl
includes-newest_first id ((k, v) ∷ m) =
    ap (λ ks. includes ks id) (keys-append (newest_first m) ((k, v) ∷ []))
    ∙ includes-append id (keys (newest_first m)) (k ∷ [])
    ∙ ground (arith, includes-newest_first id m)

pub includes-all_clients :
    (id : Text) (t : Tables) → includes (keys (all_clients t)) id ≡ has id t.clients
unfolding all_clients
includes-all_clients id t = includes-newest_first id t.clients ∙ includes-keys id t.clients

includes-filter :
    (p : Text → Bool) (id : Text) (xs : List Text)
    → p id ≡ true
    → includes (filter p xs) id ≡ includes xs id
includes-filter p id [] h = refl
includes-filter p id (x ∷ xs) h =
    ground (arith, h, text_eq.beq_iff x id, ap p {x = x} {y = id}, includes-filter p id xs h)

includes-insert_by_name :
    (name : Text → Text) (k id : Text) (ids : List Text)
    → includes (insert_by_name name k ids) id ≡ (k == id || includes ids id)
unfolding insert_by_name
includes-insert_by_name name k id [] = refl
includes-insert_by_name name k id (j ∷ ids) = ground (arith, includes-insert_by_name name k id ids)

pub includes-by_name :
    (name : Text → Text) (id : Text) (ids : List Text)
    → includes (by_name name ids) id ≡ includes ids id
unfolding by_name
includes-by_name name id [] = refl
includes-by_name name id (k ∷ ids) =
    includes-insert_by_name name k id (by_name name ids)
    ∙ ap (λ b. k == id || b) (includes-by_name name id ids)

includes-members_of :
    (id : Text) (g : ℕ) (t : Tables)
    → has id t.clients ≡ true
    → includes (members_of g t) id ≡ is_member id (get g t.group_members)
unfolding members_of
includes-members_of id g t h = elim (Option-cases (get g t.group_members)) [
  | inl e ↦ rw (members_of, e) refl
  | inr (ids, e) ↦
      rw (members_of, e)
        (includes-by_name (name_of t.clients) id (filter (λ k. has k t.clients) ids)
          ∙ includes-filter (λ k. has k t.clients) id ids h)
]

abbrev clients_for : Option Text → Option ℕ → Tables → List Text
clients_for (some id) g t = id ∷ []
clients_for none (some group) t = members_of group t
clients_for none none t = keys (all_clients t)

get_clients_for_schedule-clients_for :
    (s : Schedule) (t : Tables)
    → get_clients_for_schedule s t
      ≡ clients_for (truthy_text s.client_id) (truthy_number s.group_id) t
unfolding get_clients_for_schedule
get_clients_for_schedule-clients_for s t = ground arith

or_false : (b : Bool) → (b || false) ≡ b
or_false true = refl
or_false false = refl

Scope-agrees :
    (id : Text) (t : Tables) (c : Option Text) (g : Option ℕ)
    → Scope c g
    → has id t.clients ≡ true
    → Distinct t.group_members
    → includes (clients_for (truthy_text c) (truthy_number g) t) id
      ≡ (is_client id c || (in_groups (groups_of id t.group_members) g || (is_null c && is_null g)))
Scope-agrees id t c g (one_client x rest) h d = refl
Scope-agrees id t c g (one_group n) h d =
    includes-members_of id (suc n) t h
    ∙ sym (includes-groups_of id (suc n) t.group_members d)
    ∙ sym (or_false (includes (groups_of id t.group_members) (suc n)))
Scope-agrees id t c g all_of_them h d = includes-all_clients id t ∙ h

filter-agrees :
    (p q : Schedule → Bool) (P : Schedule → Type 0) (ss : List Schedule)
    → ((s : Schedule) → P s → p s ≡ q s)
    → All P ss
    → filter p ss ≡ filter q ss
filter-agrees p q P [] h a = refl
filter-agrees p q P (s ∷ ss) h a = ground (arith, h s a.0, filter-agrees p q P ss h a.1)

-- For schedules that are each for one client, for one group or for all clients, and none for a client and
-- a group at once, the schedules pushed to
-- a known client are exactly those that count the client among theirs, in the order of the table.
pub get_schedules_for_client-audience :
    (id : Text) (schedules : List Schedule) (t : Tables)
    → All (λ s. Scope s.client_id s.group_id) schedules
    → has id t.clients ≡ true
    → Distinct t.group_members
    → get_schedules_for_client id schedules t
      ≡ filter (λ s. includes (get_clients_for_schedule s t) id) schedules
unfolding get_schedules_for_client
get_schedules_for_client-audience id schedules t scoped h d =
    filter-agrees (applies_to id (groups_of id t.group_members))
      (λ s. includes (get_clients_for_schedule s t) id) (λ s. Scope s.client_id s.group_id)
      schedules
      (λ s scope. sym (
        ap (λ ids. includes ids id) (get_clients_for_schedule-clients_for s t)
        ∙ Scope-agrees id t s.client_id s.group_id scope h d))
      scoped

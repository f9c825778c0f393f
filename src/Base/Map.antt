-- ===== src/Base/Map.antt =====
-- The JavaScript `Map`, in insertion order: `set` of a present key keeps its place, `delete` leaves
-- no entry of the key. The keys of a map are distinct, and the operations keep them so.
use montr.Base.Lists.{length}
use montr.Base.Tests.{Eq, ◌==◌, if◌then◌else◌, beq_refl}
use Prim.Native.Nat.{suc}
use mathlib.Core.Path.{◌≡◌, refl, ap}
use mathlib.Core.Bool.{Bool, true, false, ◌||◌}
use mathlib.Core.Logic.{◌≢◌}
use mathlib.Core.List.{List, [], ◌∷◌, map}
use mathlib.Core.Option.{Option, none, some}
use native.Mathlib.Omega.{arith}

abbrev pub Map {ℓ κ} : Type ℓ → Type κ → Type (ℓ ⊔ κ)
Map K V = List (K × V)

module _ {ℓ κ} {K : Type ℓ} {V : Type κ} where
  abbrev pub keys : Map K V → List K
  keys = map (λ e. e.0)

  abbrev pub values : Map K V → List V
  values = map (λ e. e.1)

module _ {ℓ κ} {K : Type ℓ} {V : Type κ} ⦃e : Eq K⦄ where
  unfoldable pub get : K → Map K V → Option V
  get k [] = none
  get k ((j, v) ∷ m) = if j == k then some v else get k m

  unfoldable pub set : K → V → Map K V → Map K V
  set k v [] = (k, v) ∷ []
  set k v ((j, w) ∷ m) = if j == k then (k, v) ∷ m else (j, w) ∷ set k v m

  unfoldable pub delete : K → Map K V → Map K V
  delete k [] = []
  delete k ((j, w) ∷ m) = if j == k then delete k m else (j, w) ∷ delete k m

  unfoldable pub has : K → Map K V → Bool
  has k [] = false
  has k ((j, w) ∷ m) = j == k || has k m

  -- No key stands twice.
  abbrev pub Distinct : Map K V → Type 0
  Distinct [] = Unit
  Distinct ((j, w) ∷ m) = (has j m ≡ false) × Distinct m

  pub get-set :
      (k j : K) (v : V) (m : Map K V) → get j (set k v m) ≡ (if k == j then some v else get j m)
  unfolding get set
  get-set k j v [] = refl
  get-set k j v ((i, w) ∷ m) =
      ground (arith, e.beq_iff k j, e.beq_iff i k, e.beq_iff i j, get-set k j v m)

  pub get-set_self : (k : K) (v : V) (m : Map K V) → get k (set k v m) ≡ some v
  get-set_self k v m = ground (arith, get-set k k v m, beq_refl k)

  pub get-delete : (k j : K) (m : Map K V) → get j (delete k m) ≡ (if k == j then none else get j m)
  unfolding get delete
  get-delete k j [] = ground arith
  get-delete k j ((i, w) ∷ m) =
      ground (arith, e.beq_iff k j, e.beq_iff i k, e.beq_iff i j, get-delete k j m)

  pub has-set : (k j : K) (v : V) (m : Map K V) → has j (set k v m) ≡ (k == j || has j m)
  unfolding has set
  has-set k j v [] = refl
  has-set k j v ((i, w) ∷ m) =
      ground (arith, e.beq_iff k j, e.beq_iff i k, e.beq_iff i j, has-set k j v m)

  pub has-delete :
      (k j : K) (m : Map K V) → has j (delete k m) ≡ (if k == j then false else has j m)
  unfolding has delete
  has-delete k j [] = ground arith
  has-delete k j ((i, w) ∷ m) =
      ground (arith, e.beq_iff k j, e.beq_iff i k, e.beq_iff i j, has-delete k j m)

  -- A key is there exactly when a value is found.
  pub has-of_get : (k : K) (v : V) (m : Map K V) → get k m ≡ some v → has k m ≡ true
  unfolding get has
  has-of_get k v [] h = cc
  has-of_get k v ((i, w) ∷ m) h = ground (arith, has-of_get k v m)

  pub has-of_get-none : (k : K) (m : Map K V) → get k m ≡ none → has k m ≡ false
  unfolding get has
  has-of_get-none k [] h = refl
  has-of_get-none k ((i, w) ∷ m) h = ground (arith, has-of_get-none k m)

  pub get-of_has-false : (k : K) (m : Map K V) → has k m ≡ false → get k m ≡ none
  unfolding get has
  get-of_has-false k [] h = refl
  get-of_has-false k ((i, w) ∷ m) h = ground (arith, get-of_has-false k m)

  pub Distinct-set : (k : K) (v : V) (m : Map K V) → Distinct m → Distinct (set k v m)
  unfolding set has
  Distinct-set k v [] d = (refl, tt)
  Distinct-set k v ((i, w) ∷ m) d =
      ground (arith, e.beq_iff i k, e.beq_iff k i, has-set k i v m, Distinct-set k v m d.1)

  pub Distinct-delete : (k : K) (m : Map K V) → Distinct m → Distinct (delete k m)
  unfolding delete
  Distinct-delete k [] d = tt
  Distinct-delete k ((i, w) ∷ m) d = ground (arith, has-delete k i m, Distinct-delete k m d.1)

  pub length-set :
      (k : K) (v : V) (m : Map K V)
      → length (set k v m) ≡ (if has k m then length m else suc (length m))
  unfolding set has
  length-set k v [] = refl
  length-set k v ((i, w) ∷ m) = ground (arith, length-set k v m)

  pub delete_absent : (k : K) (m : Map K V) → has k m ≡ false → delete k m ≡ m
  unfolding delete has
  delete_absent k [] h = refl
  delete_absent k ((i, w) ∷ m) h = ground (arith, delete_absent k m)

  pub length-delete :
      (k : K) (m : Map K V) → Distinct m → has k m ≡ true → suc (length (delete k m)) ≡ length m
  unfolding delete has
  length-delete k [] d h = cc
  length-delete k ((i, w) ∷ m) d h =
      ground (arith, e.beq_iff i k, length-delete k m d.1, delete_absent k m)

  -- A value written at a key that is there changes no other key's presence.
  pub has-set_present :
      (k j : K) (v : V) (m : Map K V) → has k m ≡ true → has j (set k v m) ≡ has j m
  has-set_present k j v m h =
      ground (arith, has-set k j v m, e.beq_iff k j, ap (λ i. has i m) {x = k} {y = j})

  pub length-set_present :
      (k : K) (v : V) (m : Map K V) → has k m ≡ true → length (set k v m) ≡ length m
  length-set_present k v m h = ground (arith, length-set k v m)

  -- `UPDATE … WHERE key = k`
  unfoldable pub modify : K → (V → V) → Map K V → Map K V
  modify k f [] = []
  modify k f ((j, v) ∷ m) = (if j == k then (j, f v) else (j, v)) ∷ modify k f m

  pub get-modify_self :
      (k : K) (f : V → V) (v : V) (m : Map K V)
      → get k m ≡ some v
      → get k (modify k f m) ≡ some (f v)
  unfolding get modify
  get-modify_self k f v [] h = cc
  get-modify_self k f v ((i, w) ∷ m) h = ground (arith, get-modify_self k f v m)

  pub get-modify-none :
      (k j : K) (f : V → V) (m : Map K V) → get j m ≡ none → get j (modify k f m) ≡ none
  unfolding get modify
  get-modify-none k j f [] h = refl
  get-modify-none k j f ((i, w) ∷ m) h = ground (arith, get-modify-none k j f m)

  pub get-modify_other :
      (k j : K) (f : V → V) (m : Map K V) → k ≢ j → get j (modify k f m) ≡ get j m
  unfolding get modify
  get-modify_other k j f [] h = refl
  get-modify_other k j f ((i, w) ∷ m) h =
      ground (arith, e.beq_iff i k, e.beq_iff i j, get-modify_other k j f m h)

  pub has-modify : (k : K) (f : V → V) (j : K) (m : Map K V) → has j (modify k f m) ≡ has j m
  unfolding has modify
  has-modify k f j [] = refl
  has-modify k f j ((i, w) ∷ m) = ground (arith, has-modify k f j m)

  pub Distinct-modify : (k : K) (f : V → V) (m : Map K V) → Distinct m → Distinct (modify k f m)
  unfolding modify
  Distinct-modify k f [] d = tt
  Distinct-modify k f ((i, w) ∷ m) d = ground (arith, has-modify k f i m, Distinct-modify k f m d.1)

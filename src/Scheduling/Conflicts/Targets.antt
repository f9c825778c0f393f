-- ===== src/Scheduling/Conflicts/Targets.antt =====
-- server/src/services/scheduling/conflict-resolver.ts: the key of a target names one target.
use montr.Base.{Text, ℕ, ◌+◌, Option, none, some, ◌∷◌, ◌++◌, ◌≡◌, refl, ap, arith, codes}
use montr.Base.Texts.{show_number}
use montr.Base.Texts.Numbers.{show_number-injective}
use montr.Scheduling.Types.{Schedule, truthy_text, truthy_number}
use montr.Scheduling.Conflicts.{key_of, target_key_for}

-- The target of a schedule: a client, else a group, else all clients.
pub data Target : Type 0 where
  client : Text → Target
  group : ℕ → Target
  everyone : Target

abbrev pub target_of : Option Text → Option ℕ → Target
target_of (some id) g = client id
target_of none (some id) = group id
target_of none none = everyone

-- The second and the third character together; no two kinds of key share them.
abbrev mark : Text → ℕ
mark (a ∷ b ∷ c ∷ s) = b + c
mark _ = 0

key_of-injective :
    (c d : Option Text) (g h : Option ℕ) → key_of c g ≡ key_of d h → target_of c g ≡ target_of d h
key_of-injective (some c) (some d) g h e = cc
key_of-injective (some c) none g (some h) e = absurd (omega (arith, ap mark e))
key_of-injective (some c) none g none e = absurd (omega (arith, ap mark e))
key_of-injective none (some d) (some g) h e = absurd (omega (arith, ap mark e))
key_of-injective none (some d) none h e = absurd (omega (arith, ap mark e))
key_of-injective none none (some g) (some h) e =
    ap group (show_number-injective g h (drop_prefix e))
  where
    drop_prefix :
        codes "group:" ++ show_number g ≡ codes "group:" ++ show_number h
        → show_number g ≡ show_number h
    drop_prefix p = cc
key_of-injective none none (some g) none e = absurd (omega (arith, ap mark e))
key_of-injective none none none (some h) e = absurd (omega (arith, ap mark e))
key_of-injective none none none none e = refl

-- Two schedules with the same key have the same target: the same client; or no client and the same
-- group; or neither.
pub target_key_for-injective :
    (s t : Schedule)
    → target_key_for s ≡ target_key_for t
    → target_of (truthy_text s.client_id) (truthy_number s.group_id)
      ≡ target_of (truthy_text t.client_id) (truthy_number t.group_id)
unfolding target_key_for
target_key_for-injective s t e = key_of-injective _ _ _ _ e

-- ===== src/Base/Results.antt =====
-- `AppError` of server/src/api/middleware/error-handler.ts, and calls that change a state and may
-- throw: what was written before a throw stays written.
use mathlib.Core.Option.{Option, none, some}
use mathlib.Core.Bool.{Bool, true, false}

pub data ErrorCode : Type 0 where
  bad_request not_found validation_error resource_not_found : ErrorCode
  resource_already_exists : ErrorCode
  playlist_not_found playlist_item_not_found media_not_found : ErrorCode
  client_not_found client_already_registered : ErrorCode
  folder_not_found folder_cycle folder_name_conflict folder_not_empty : ErrorCode

-- A thrown value: one of the server's own errors, or what a library or an adapter raised.
pub data Thrown : Type 0 where
  app_error : ErrorCode → Thrown
  foreign : Thrown

pub data Result {ℓ} (A : Type ℓ) : Type ℓ where
  ok : A → Result A
  throw : Thrown → Result A

abbrev pub Action {ℓ κ} : Type ℓ → Type κ → Type (ℓ ⊔ κ)
Action S A = S → S × Result A

module _ {ℓ κ μ} {S : Type ℓ} {A : Type κ} {B : Type μ} where
  abbrev pub and_then : S × Result A → (A → Action S B) → S × Result B
  and_then (s, ok a) f = f a s
  and_then (s, throw e) f = (s, throw e)

infixl 5 ◌>>=◌ ◌>>◌
abbrev pub ◌>>=◌ {ℓ κ μ} :
    {S : Type ℓ} {A : Type κ} {B : Type μ} → Action S A → (A → Action S B) → Action S B
◌>>=◌ m f s = and_then (m s) f

abbrev pub ◌>>◌ {ℓ κ μ} :
    {S : Type ℓ} {A : Type κ} {B : Type μ} → Action S A → Action S B → Action S B
m >> k = m >>= λ _. k

module _ {ℓ κ} {S : Type ℓ} {A : Type κ} where
  abbrev pub give : A → Action S A
  give a s = (s, ok a)

  abbrev pub fail : Thrown → Action S A
  fail e s = (s, throw e)

  abbrev pub reads : (S → A) → Action S A
  reads f s = (s, ok (f s))

  -- `if (!x) throw …`
  abbrev pub require : Thrown → Option A → Action S A
  require e none s = (s, throw e)
  require e (some a) s = (s, ok a)

module _ {ℓ} {S : Type ℓ} where
  abbrev pub writes : (S → S) → Action S (Unit {0})
  writes f s = (f s, ok tt)

  -- `if (bad) throw …`
  abbrev pub reject_if : Bool → Thrown → Action S (Unit {0})
  reject_if true e s = (s, throw e)
  reject_if false e s = (s, ok tt)

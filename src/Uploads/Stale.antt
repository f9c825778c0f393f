-- ===== src/Uploads/Stale.antt =====
-- server/src/services/chunked-upload.service.ts: which sessions the periodic clean-up removes.
use montr.Base.{
  ℕ, ◌-◌, Text, Bool, false, ◌≡◌, refl, arith, text_eq, nat_eq, Option, none, some, List, [], ◌∷◌,
  includes, ltb, Bool-cases, Option-cases, ◌==◌, if◌then◌else◌, ap, ◌∙◌, inl, inr,
}
use montr.Base.Map.{Map, get, has, delete, Distinct, get-delete, get-of_has-false}
use montr.Uploads.Sessions.{UploadSession, Uploads, Environment}
use montr.Uploads.Completion.{stale_ids, abort_upload, abort_each, cleanup_stale_sessions}

-- No activity for longer than `max_age`.
abbrev pub is_stale : ℕ → ℕ → UploadSession → Bool
is_stale now max_age s = ltb max_age (now - s.last_activity)

abbrev pub keep_fresh : ℕ → ℕ → Option UploadSession → Option UploadSession
keep_fresh now max_age none = none
keep_fresh now max_age (some s) = if is_stale now max_age s then none else some s

includes-stale_ids_absent :
    (now max_age : ℕ) (id : Text) (m : Map Text UploadSession)
    → has id m ≡ false
    → includes (stale_ids now max_age m) id ≡ false
unfolding has
includes-stale_ids_absent now max_age id [] h = refl
includes-stale_ids_absent now max_age id ((j, s) ∷ m) h =
    elim (Bool-cases (is_stale now max_age s)) [
      | inl old ↦ rw old (ground (arith, includes-stale_ids_absent now max_age id m))
      | inr new ↦ rw new (ground (arith, includes-stale_ids_absent now max_age id m))
    ]

includes-stale_ids :
    (now max_age : ℕ) (id : Text) (m : Map Text UploadSession)
    → Distinct m
    → (if includes (stale_ids now max_age m) id then none else get id m)
      ≡ keep_fresh now max_age (get id m)
unfolding get
includes-stale_ids now max_age id [] d = refl
includes-stale_ids now max_age id ((j, s) ∷ m) d = elim (Bool-cases (is_stale now max_age s)) [
  | inl old ↦ rw old (
      ground (
        arith,
        includes-stale_ids now max_age id m d.1,
        text_eq.beq_iff j id,
        get-of_has-false j m d.0,
        ap (λ i. get i m) {x = j} {y = id},
      ))
  | inr new ↦ rw new (
      ground (
        arith,
        includes-stale_ids now max_age id m d.1,
        includes-stale_ids_absent now max_age j m d.0,
        ap (includes (stale_ids now max_age m)) {x = j} {y = id},
        text_eq.beq_iff j id,
        get-of_has-false j m d.0,
        ap (λ i. get i m) {x = j} {y = id},
      ))
]

module _ (env : Environment) where
  abort_upload-sessions :
      (id : Text) (u : Uploads)
      → (abort_upload env id u).sessions
        ≡ (elim (get id u.sessions) [ none ↦ u.sessions | some s ↦ delete id u.sessions ])
  unfolding abort_upload
  abort_upload-sessions id u = ground arith

  abort_upload-get :
      (id k : Text) (u : Uploads)
      → get k (abort_upload env id u).sessions ≡ (if id == k then none else get k u.sessions)
  abort_upload-get id k u = elim (Option-cases (get id u.sessions)) [
    | inl e ↦ ground (
      arith,
      abort_upload-sessions id u,
      e,
      text_eq.beq_iff id k,
      ap (λ i. get i u.sessions) {x = id} {y = k},
    )
    | inr (s, e) ↦ ground (arith, abort_upload-sessions id u, e, get-delete id k u.sessions)
  ]

  abort_each-get :
      (ids : List Text) (k : Text) (u : Uploads)
      → get k (abort_each env ids u).sessions ≡ (if includes ids k then none else get k u.sessions)
  unfolding abort_each
  abort_each-get [] k u = refl
  abort_each-get (id ∷ ids) k u =
      ground (arith, abort_each-get ids k (abort_upload env id u), abort_upload-get id k u)

  -- The periodic clean-up removes exactly the sessions whose last activity is longer ago than the
  -- limit; every other session stays as it is. The ids of the sessions are distinct.
  pub cleanup_stale_sessions-get :
      (now max_age : ℕ) (k : Text) (u : Uploads)
      → Distinct u.sessions
      → get k (cleanup_stale_sessions env now max_age u).sessions
        ≡ keep_fresh now max_age (get k u.sessions)
  unfolding cleanup_stale_sessions
  cleanup_stale_sessions-get now max_age k u d =
      abort_each-get (stale_ids now max_age u.sessions) k u
      ∙ includes-stale_ids now max_age k u.sessions d

-- ===== src/Cluster/Expiry.antt =====
-- server/src/cluster/session-store.ts: the deletion of expired entries by a read is not observable.
use montr.Base.{
  ℕ, ◌≤◌, Text, true, Option, none, some, List, [], ◌∷◌, text_eq, ◌==◌, if◌then◌else◌, ◌≡◌, refl,
  sym, ap, ◌∙◌, arith, Bool-cases, Option-cases, inl, inr,
}
use montr.Base.Map.{get, set, delete, get-set, get-delete}
use montr.Cluster.SessionStore
use montr.Cluster.SessionStore.{
  Entry, Store, expiry, has_expired, get_value, set_value, delete_value, Call, gets, sets, deletes,
}

-- The entry last written at each key, if none was deleted since.
abbrev pub Last : Type 0
Last = Text → Option Entry

-- The value of the entry that was written last, if its time is not over.
abbrev pub live : ℕ → Option Entry → Option Text
live now none = none
live now (some e) = if has_expired now e then none else some e.value

unfoldable pub run : Last → List Call → List (Option Text)
run l [] = []
run l (gets key now ∷ cs) = live now (l key) ∷ run l cs
run l (sets key value ttl now ∷ cs) =
    run
      (λ k. if key == k then some (record { value = value; expires_at = expiry ttl now }) else l k)
      cs
run l (deletes key ∷ cs) = run (λ k. if key == k then none else l k) cs

-- The clock does not go back from one read to the next.
abbrev pub IsOnTime : ℕ → List Call → Type 0
IsOnTime t [] = Unit
IsOnTime t (gets key now ∷ cs) = (t ≤ now) × IsOnTime now cs
IsOnTime t (sets key value ttl now ∷ cs) = IsOnTime t cs
IsOnTime t (deletes key ∷ cs) = IsOnTime t cs

-- No read from the time `t` on tells the two apart.
abbrev Agrees : ℕ → Store → Last → Type 0
Agrees t s l = (k : Text) (now : ℕ) → t ≤ now → live now (get k s) ≡ live now (l k)

get_value-live : (key : Text) (now : ℕ) (s : Store) → (get_value key now s).1 ≡ live now (get key s)
unfolding get_value
get_value-live key now s = ground arith

-- What has expired stays so.
live_later :
    (e : Entry) (now later : ℕ)
    → now ≤ later
    → has_expired now e ≡ true
    → has_expired later e ≡ true
live_later e now later h x = ground (arith, h, x)

get_value-Agrees :
    (key : Text) (t now : ℕ) (s : Store) (l : Last)
    → t ≤ now
    → Agrees t s l
    → Agrees now (get_value key now s).0 l
unfolding get_value
get_value-Agrees key t now s l h a k later g = elim (Option-cases (get key s)) [
  | inl e ↦
      let same : (get_value key now s).0 ≡ s = ground (arith, e) in
      rw same (a k later (omega (arith, h, g)))
  | inr (e, there) ↦ elim (Bool-cases (has_expired now e)) [
    | inr alive ↦
        let same : (get_value key now s).0 ≡ s = ground (arith, there, alive) in
        rw same (a k later (omega (arith, h, g)))
    | inl over ↦
        let gone : (get_value key now s).0 ≡ delete key s = ground (arith, there, over) in
        rw gone (deleted e there (live_later e now later g over) ∙ a k later (omega (arith, h, g)))
  ]
]
  where
    deleted :
        (e : Entry)
        → get key s ≡ some e
        → has_expired later e ≡ true
        → live later (get k (delete key s)) ≡ live later (get k s)
    deleted e there over = elim (Bool-cases (key == k)) [
      | inl same ↦
          let here : get k s ≡ some e =
            ap (λ j. get j s) (sym ((text_eq.beq_iff key k).0 same)) ∙ there in
          ground (arith, here, over, same, get-delete key k s)
      | inr other ↦ ground (arith, other, get-delete key k s)
    ]

run-Agrees :
    (cs : List Call) (t : ℕ) (s : Store) (l : Last)
    → Agrees t s l
    → IsOnTime t cs
    → SessionStore.run s cs ≡ run l cs
unfolding SessionStore.run run set_value delete_value
run-Agrees [] t s l a h = refl
run-Agrees (gets key now ∷ cs) t s l a h =
    let said = get_value-live key now s ∙ a key now h.0 in
    rw said (
      ap (λ vs. live now (l key) ∷ vs)
        (run-Agrees cs now (get_value key now s).0 l (get_value-Agrees key t now s l h.0 a) h.1))
run-Agrees (sets key value ttl now ∷ cs) t s l a h =
    let entry : Entry = record { value = value; expires_at = expiry ttl now } in
    run-Agrees cs t (set key entry s) _
      (λ k later g. ground (arith, get-set key k entry s, a k later g)) h
run-Agrees (deletes key ∷ cs) t s l a h =
    run-Agrees cs t (delete key s) _ (λ k later g. ground (arith, get-delete key k s, a k later g))
      h

-- Of any calls on a new store, with a clock that does not go back from one read to the next, each read
-- returns the value last written at its key, if it was not deleted since and its time to live is not
-- over, and null otherwise; a time to live of 0 or none at all never ends.
pub run-reads_last : (cs : List Call) → IsOnTime 0 cs → SessionStore.run [] cs ≡ run (λ k. none) cs
unfolding get
run-reads_last cs h = run-Agrees cs 0 [] (λ k. none) (λ k now g. refl) h

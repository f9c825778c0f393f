-- ===== src/Websocket/Manager/Health.antt =====
-- server/src/websocket/client-manager.ts: what a health check removes and keeps.
use montr.Base.{
  ℕ, Text, false, Option, none, some, [], ◌∷◌, ◌≡◌, refl, ap, text_eq, nat_eq, arith, Option-cases,
  Bool-cases, inl, inr, ◌≢◌, ◌==◌, not, All, if◌then◌else◌, beq_refl,
}
use montr.Base.Map.{Map, get, has, Distinct, get-delete, get-of_has-false}
use montr.Websocket.Types.{SocketLibrary}
use montr.Websocket.Manager.{Manager, close_if_open}
use montr.Websocket.Manager.Sweep.{check_client, check_each, health_check}
use montr.Base.{eqb_iff, ◌&&◌}
use montr.Websocket.Manager.Consistent.{IsConsistent}

-- No socket is bound to two clients.
abbrev pub RefsDistinct : Map Text ℕ → Type 0
RefsDistinct [] = Unit
RefsDistinct ((id, ref) ∷ cs) = All (λ c. c.1 ≢ ref) cs × RefsDistinct cs

module _ (lib : SocketLibrary) (now timeout : ℕ) where
  check_client-get :
      (client_id k : Text) (ref : ℕ) (m : Manager)
      → get client_id m.connections ≡ some ref
      → get k (check_client lib now timeout (client_id, ref) m).connections
        ≡ (if (client_id == k) && not (m.sockets ref).is_alive then none else get k m.connections)
  unfolding check_client close_if_open
  check_client-get client_id k ref m e =
      ground
        (arith, eqb_iff ref ref, get-delete client_id k m.connections, text_eq.beq_iff client_id k)

  pub check_client-other :
      (client_id : Text) (ref other : ℕ) (m : Manager)
      → other ≢ ref
      → (check_client lib now timeout (client_id, ref) m).sockets other ≡ m.sockets other
  unfolding check_client close_if_open
  check_client-other client_id ref other m h = ground (arith, eqb_iff other ref)

  -- The entries that are still to be visited stay bound.
  check_client-bound :
      (client_id : Text) (ref : ℕ) (cs : Map Text ℕ) (m : Manager)
      → get client_id m.connections ≡ some ref
      → has client_id cs ≡ false
      → All (λ c. get c.0 m.connections ≡ some c.1) cs
      → All
          (λ c. get c.0 (check_client lib now timeout (client_id, ref) m).connections ≡ some c.1)
          cs
  unfolding has
  check_client-bound client_id ref [] m e h a = tt
  check_client-bound client_id ref ((id, r) ∷ cs) m e h a = (
    ground (
      arith,
      check_client-get client_id id ref m e,
      text_eq.beq_iff client_id id,
      text_eq.beq_iff id client_id,
      a.0,
    ),
    check_client-bound client_id ref cs m e (ground arith) a.1,
  )

pub get-ne :
    (k : Text) (ref r : ℕ) (cs : Map Text ℕ) → All (λ c. c.1 ≢ ref) cs → get k cs ≡ some r → r ≢ ref
unfolding get
get-ne k ref r [] a e = cc
get-ne k ref r ((id, r') ∷ cs) a e = elim (Bool-cases (id == k)) [
  | inl h ↦ λ q. a.0 (ground arith)
  | inr h ↦ get-ne k ref r cs a.1 (ground arith)
]

-- The connection that a client of the visited entries has after the check, if it has one.
unfoldable pub survivor : Manager → Option ℕ → Option ℕ
survivor m none = none
survivor m (some ref) = if (m.sockets ref).is_alive then some ref else none

abbrev either : Option ℕ → Option ℕ → Option ℕ → Option ℕ
either none visited other = other
either (some _) visited other = visited

module _ (lib : SocketLibrary) (now timeout : ℕ) where
  check_each-get :
      (k : Text) (cs : Map Text ℕ) (m : Manager)
      → Distinct cs
      → RefsDistinct cs
      → All (λ c. get c.0 m.connections ≡ some c.1) cs
      → get k (check_each lib now timeout cs m).connections
        ≡ either (get k cs) (survivor m (get k cs)) (get k m.connections)
  unfolding check_each get survivor
  check_each-get k [] m d r a = refl
  check_each-get k ((id, ref) ∷ cs) m d r a =
      let m' = check_client lib now timeout (id, ref) m in
      let ih =
        check_each-get k cs m' d.1 r.1
          (check_client-bound lib now timeout id ref cs m a.0 d.0 a.1) in
      let one = check_client-get lib now timeout id k ref m a.0 in
      elim (Bool-cases (id == k)) [
        | inl same ↦
            let e : id ≡ k = (text_eq.beq_iff id k).0 same in
            ground (
              arith,
              e,
              ih,
              one,
              a.0,
              ap (λ j. get j cs) e,
              get-of_has-false id cs d.0,
              ap (λ j. get j m.connections) e,
            )
        | inr differs ↦ elim (Option-cases (get k cs)) [
          | inl absent ↦ ground (arith, ih, one)
          | inr (r', e) ↦ ground (
            arith,
            ih,
            one,
            check_client-other lib now timeout id ref r' m (get-ne k ref r' cs r.0 e),
          )
        ]
      ]

bound_cons :
    (id : Text) (ref : ℕ) (all cs : Map Text ℕ)
    → has id cs ≡ false
    → All (λ c. get c.0 all ≡ some c.1) cs
    → All (λ c. get c.0 ((id, ref) ∷ all) ≡ some c.1) cs
unfolding get has
bound_cons id ref all [] h a = tt
bound_cons id ref all ((i, r) ∷ cs) h a = (
  ground (arith, text_eq.beq_iff id i, text_eq.beq_iff i id, a.0),
  bound_cons id ref all cs (ground arith) a.1,
)

-- Every entry of a map with distinct keys is found.
entries_found : (cs : Map Text ℕ) → Distinct cs → All (λ c. get c.0 cs ≡ some c.1) cs
unfolding get
entries_found [] d = tt
entries_found ((id, ref) ∷ cs) d =
    (ground (arith, beq_refl id), bound_cons id ref cs cs d.0 (entries_found cs d.1))

module _ (lib : SocketLibrary) (now timeout : ℕ) where
  -- A health check removes exactly the clients whose socket has not been alive since the check before
  -- it, and keeps every other connection, if no socket is bound to two clients.
  pub health_check-get :
      (k : Text) (m : Manager)
      → IsConsistent m
      → RefsDistinct m.connections
      → get k (health_check lib now timeout m).connections ≡ survivor m (get k m.connections)
  unfolding health_check survivor
  health_check-get k m c r = ground (
    arith,
    check_each-get lib now timeout k m.connections m c.distinct r
        (entries_found m.connections c.distinct),
  )

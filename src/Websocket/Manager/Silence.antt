-- ===== src/Websocket/Manager/Silence.antt =====
-- server/src/websocket/client-manager.ts: a client that answers no ping is removed by the second check.
use montr.Base.{
  ℕ, Text, true, false, none, some, [], ◌∷◌, ◌≡◌, text_eq, nat_eq, arith, Bool-cases, inl, inr, ◌≢◌,
  ◌==◌, All,
}
use montr.Base.Map.{Map, get, delete}
use montr.Websocket.Types.{SocketLibrary}
use montr.Websocket.Manager.{Manager, close_if_open, is_open}
use montr.Websocket.Manager.Sweep.{check_client, check_each, health_check}
use montr.Base.{eqb_iff}
use montr.Websocket.Manager.Consistent.{IsConsistent}
use montr.Websocket.Manager.Upkeep.{check_each-IsConsistent}
use montr.Websocket.Manager.Health.{
  RefsDistinct, get-ne, survivor, check_client-other, health_check-get,
}

All-delete : (P : Text × ℕ → Type 0) (id : Text) (cs : Map Text ℕ) → All P cs → All P (delete id cs)
unfolding delete
All-delete P id [] a = tt
All-delete P id ((i, r) ∷ cs) a = ground (arith, All-delete P id cs a.1)

RefsDistinct-delete : (id : Text) (cs : Map Text ℕ) → RefsDistinct cs → RefsDistinct (delete id cs)
unfolding delete
RefsDistinct-delete id [] d = tt
RefsDistinct-delete id ((i, r) ∷ cs) d =
    ground (arith, All-delete (λ c. c.1 ≢ r) id cs d.0, RefsDistinct-delete id cs d.1)

module _ (lib : SocketLibrary) (now timeout : ℕ) where
  check_client-RefsDistinct :
      (id : Text) (ref : ℕ) (m : Manager)
      → RefsDistinct m.connections
      → RefsDistinct (check_client lib now timeout (id, ref) m).connections
  unfolding check_client close_if_open
  check_client-RefsDistinct id ref m d = ground (arith, RefsDistinct-delete id m.connections d)

  check_each-RefsDistinct :
      (cs : Map Text ℕ) (m : Manager)
      → RefsDistinct m.connections
      → RefsDistinct (check_each lib now timeout cs m).connections
  unfolding check_each
  check_each-RefsDistinct [] m d = d
  check_each-RefsDistinct ((id, ref) ∷ cs) m d =
      check_each-RefsDistinct cs (check_client lib now timeout (id, ref) m)
        (check_client-RefsDistinct id ref m d)

  check_client-dead :
      (id : Text) (ref other : ℕ) (m : Manager)
      → (m.sockets other).is_alive ≡ false
      → ((check_client lib now timeout (id, ref) m).sockets other).is_alive ≡ false
  unfolding check_client close_if_open
  check_client-dead id ref other m h = ground (arith, eqb_iff other ref)

  check_each-dead :
      (cs : Map Text ℕ) (other : ℕ) (m : Manager)
      → (m.sockets other).is_alive ≡ false
      → ((check_each lib now timeout cs m).sockets other).is_alive ≡ false
  unfolding check_each
  check_each-dead [] other m h = h
  check_each-dead ((id, ref) ∷ cs) other m h =
      check_each-dead cs other (check_client lib now timeout (id, ref) m)
        (check_client-dead id ref other m h)

  check_client-silences :
      (id : Text) (ref : ℕ) (m : Manager)
      → is_open (m.sockets ref) ≡ true
      → ((check_client lib now timeout (id, ref) m).sockets ref).is_alive ≡ false
  unfolding check_client close_if_open
  check_client-silences id ref m h = ground (arith, eqb_iff ref ref)

  check_each-silences :
      (k : Text) (ref : ℕ) (cs : Map Text ℕ) (m : Manager)
      → RefsDistinct cs
      → get k cs ≡ some ref
      → is_open (m.sockets ref) ≡ true
      → ((check_each lib now timeout cs m).sockets ref).is_alive ≡ false
  unfolding check_each get
  check_each-silences k ref [] m d e h = cc
  check_each-silences k ref ((id, r) ∷ cs) m d e h = elim (Bool-cases (id == k)) [
    | inl same ↦
        check_each-dead cs ref (check_client lib now timeout (id, r) m)
          (ground (arith, check_client-silences id r m))
    | inr differs ↦
        let e' : get k cs ≡ some ref = ground arith in
        check_each-silences k ref cs (check_client lib now timeout (id, r) m) d.1 e'
          (ground (arith, check_client-other lib now timeout id r ref m (get-ne k r ref cs d.0 e')))
  ]

-- A client whose socket is open before the first of two health checks is removed by the second one, at the
-- latest, if the second follows with no call of the manager and no answer to a ping in between, and no
-- socket is bound to two clients.
pub two_checks-removes :
    (lib : SocketLibrary) (now later timeout : ℕ) (k : Text) (ref : ℕ) (m : Manager)
    → IsConsistent m
    → RefsDistinct m.connections
    → get k m.connections ≡ some ref
    → is_open (m.sockets ref) ≡ true
    → get k (health_check lib later timeout (health_check lib now timeout m)).connections ≡ none
unfolding health_check survivor
two_checks-removes lib now later timeout k ref m c d e h =
    let m' = health_check lib now timeout m in
    ground (
      arith,
      health_check-get lib now timeout k m c d,
      health_check-get lib later timeout k m'
          (check_each-IsConsistent lib now timeout m.connections m c)
          (check_each-RefsDistinct lib now timeout m.connections m d),
      check_each-silences lib now timeout k ref m.connections m d e h,
    )

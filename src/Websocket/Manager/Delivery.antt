-- ===== src/Websocket/Manager/Delivery.antt =====
-- server/src/websocket/client-manager.ts: what the broadcasts deliver and count.
use montr.Base.{
  ℕ, ◌+◌, Text, Bool, List, [], ◌∷◌, length, ◌≡◌, refl, ap, ◌∙◌, text_eq, nat_eq, arith,
  if◌then◌else◌,
}
use montr.Base.Map.{get, keys}
use montr.Websocket.Types.{ServerMessage, SocketLibrary}
use montr.Websocket.Manager.{Manager, is_connected}
use montr.Websocket.Manager.Send.{send_to_client, send_to_each, broadcast_to_all}
use montr.Base.{filter}
use mathlib.Core.Option.{get_or}
use mathlib.Core.Path.{fun_ext}

-- One send, by its counters: sockets and connections stay, and of `messages_sent` and `errors` one
-- grows if the client is connected.
record Sent (m m' : Manager) (client_id : Text) (done : Bool) : Type 0 where
  connections : m'.connections ≡ m.connections
  sockets : m'.sockets ≡ m.sockets
  sent : m'.stats.messages_sent ≡ m.stats.messages_sent + (if done then 1 else 0)
  wire : length m'.wire ≡ length m.wire + (if done then 1 else 0)
  attempted :
      m'.stats.messages_sent + m'.stats.errors
      ≡ m.stats.messages_sent + m.stats.errors + (if is_connected client_id m then 1 else 0)

is_connected-Sent :
    (m m' : Manager) (client_id : Text) (done : Bool)
    → Sent m m' client_id done
    → ◌≡◌ {A = Text → Bool} (λ id. is_connected id m') (λ id. is_connected id m)
unfolding is_connected
is_connected-Sent m m' client_id done s = fun_ext (λ id.
    ground
      (arith, ap (get id) s.connections, ap (λ f. f (get_or (get id m.connections) 0)) s.sockets))

module _ (lib : SocketLibrary) where
  send_to_client-Sent :
      (client_id : Text) (message : ServerMessage) (m : Manager)
      → Sent m
          (send_to_client lib client_id message m).0
          client_id
          (send_to_client lib client_id message m).1
  unfolding send_to_client is_connected
  send_to_client-Sent client_id message m = ground arith

  send_to_each-keeps :
      (ids : List Text) (message : ServerMessage) (sent : ℕ) (m : Manager)
      → ((send_to_each lib ids message sent m).0.connections ≡ m.connections)
        × ((send_to_each lib ids message sent m).0.sockets ≡ m.sockets)
  unfolding send_to_each
  send_to_each-keeps [] message sent m = (refl, refl)
  send_to_each-keeps (client_id ∷ ids) message sent m =
      let (m', done) = send_to_client lib client_id message m in
      let one = send_to_client-Sent client_id message m in
      let ih = send_to_each-keeps ids message (if done then sent + 1 else sent) m' in
      (ih.0 ∙ one.connections, ih.1 ∙ one.sockets)

  -- The count that a loop of sends returns is the number of messages put on the wire, and every
  -- connected client of the list is counted as a message sent or as an error.
  pub send_to_each-counts :
      (ids : List Text) (message : ServerMessage) (sent : ℕ) (m : Manager)
      → let (m', sent') = send_to_each lib ids message sent m in
        (m'.stats.messages_sent + sent ≡ m.stats.messages_sent + sent')
        × (length m'.wire + sent ≡ length m.wire + sent')
        × (m'.stats.messages_sent + m'.stats.errors
            ≡ m.stats.messages_sent
              + m.stats.errors
              + length (filter (λ id. is_connected id m) ids))
  unfolding send_to_each
  send_to_each-counts [] message sent m = omega arith
  send_to_each-counts (client_id ∷ ids) message sent m =
      let (m', done) = send_to_client lib client_id message m in
      let one = send_to_client-Sent client_id message m in
      ground (
        arith,
        one.sent,
        one.wire,
        one.attempted,
        ap (λ p. length (filter p ids)) (is_connected-Sent m m' client_id done one),
        send_to_each-counts ids message (if done then sent + 1 else sent) m',
      )

  -- What a broadcast to all connections returns is the number of messages put on the wire and counted
  -- as sent; every client that is connected is counted as a message sent or as an error; and no
  -- connection and no socket changes.
  pub broadcast_to_all-counts :
      (message : ServerMessage) (m : Manager)
      → let (m', sent) = broadcast_to_all lib message m in
        (m'.stats.messages_sent ≡ m.stats.messages_sent + sent)
        × (length m'.wire ≡ length m.wire + sent)
        × (sent + m'.stats.errors
            ≡ m.stats.errors + length (filter (λ id. is_connected id m) (keys m.connections)))
        × (m'.connections ≡ m.connections)
        × (m'.sockets ≡ m.sockets)
  unfolding broadcast_to_all
  broadcast_to_all-counts message m =
      let c = send_to_each-counts (keys m.connections) message 0 m in
      let k = send_to_each-keeps (keys m.connections) message 0 m in
      (omega (arith, c.0), omega (arith, c.1), omega (arith, c.0, c.2), k.0, k.1)

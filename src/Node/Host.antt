-- ===== src/Node/Host.antt =====
-- The tasks of a node: `Node::connect` and `Node::run` of src/node.rs, which spawn a task for each
-- connection that listens to its requests, one that listens to its heart beats, and one task each
-- that accepts connections, sends heart beats and synchronizes. A loop that breaks, or an `unwrap`
-- that fails, ends its task. What connections, endpoints and peers answer stands in the events.
pub mod Ended
pub mod Refines
use ddk.Prelude.{
  ℕ, Bool, true, false, Option, none, some, List, [], ◌∷◌, Result, ok, err, ◌>>=◌, ◌>>◌, map,
  if◌then◌else◌,
}
use ddk.Table.{Table, get, put, delete, keys}
use ddk.Types.{Chain, number_key}
use ddk.Net
use ddk.Net.{
  PeerState, Connection, Peer, Net, connect, accept, heart_beat_listen, disconnect, peer_state,
}
use ddk.Node.{World, Node}
use ddk.Node.Requests.{Request, Response, peer_listen}
use ddk.Node.Sync.{announced, sync_peer}

-- `Peer::heart_beat`, with what `bincode` and the connection answer
unfoldable pub heart_beat :
    {E : Type 0} → Result E (Unit {0}) → Result E (Unit {0}) → Result E (Unit {0})
heart_beat serialized sent = serialized >> sent

module _ {c : Chain} {A : Type 0} (w : World c A) (E : Type 0) where
  pub record Host : Type 0 where
    pub node : Node w
    pub net : Net
    -- the connections with a task that listens to requests, and to heart beats
    pub listening : Table ℕ Peer
    pub hearing : Table ℕ Peer
    -- whether the tasks of `run` go on
    pub accepting : Bool
    pub beating : Bool
    pub synchronizing : Bool

  -- the node with the peers that the table has now
  unfoldable pub current : Host → Node w
  current h = record h.node { peers = keys h.net.peers }

  -- the two tasks of a connection
  unfoldable pub spawn : Host → Peer × Net → Host
  spawn h (peer, net) = record h {
    net = net;
    listening = put peer.connection.stable_id peer h.listening;
    hearing = put peer.connection.stable_id peer h.hearing;
  }

  -- `Node::connect`
  unfoldable pub dial : Host → ℕ → Result E Connection → Result (Net.Error E) Host
  unfolding connect spawn
  dial h addr answer = do entered ← connect h.net addr answer; ok (spawn h entered)

  -- a round of the task that accepts connections, with the connection or why there is none
  unfoldable pub accept_next : Host → Result E Connection → Bool → Host
  unfolding accept spawn
  accept_next h (err e) closed = record h { accepting = false }
  accept_next h (ok connection) closed =
      let (entered, net') = accept h.net connection closed in
      elim entered [ none ↦ record h { net = net' } | some peer ↦ spawn h (peer, net') ]

  -- a round of the task that listens to the requests of a connection, with the request or why
  -- there is none
  unfoldable pub listen : Host → ℕ → Result E (Request w) → Host
  unfolding peer_listen current
  listen h id (err e) = record h { listening = delete id h.listening }
  listen h id (ok message) =
      let reply = peer_listen w (current h) id message in
      elim reply.outcome [
        | ok _ ↦ record h { node = reply.node }
        | err _ ↦ record h { node = reply.node; listening = delete id h.listening }
      ]

  -- a round of the task that listens to the heart beats of a peer
  unfoldable pub hear : Host → Peer → Result E (Result E PeerState) → Host
  unfolding heart_beat_listen
  hear h peer datagram =
      let (outcome, net') = heart_beat_listen h.net peer datagram in
      elim outcome [
        | ok _ ↦ record h { net = net' }
        | err _ ↦ record h { net = net'; hearing = delete peer.connection.stable_id h.hearing }
      ]

  -- a round of the task that sends heart beats, with what each peer's connection answers
  unfoldable pub heart_beats :
      (Peer → PeerState → Result E (Unit {0})) → PeerState → List Peer → Result E (Unit {0})
  heart_beats send state [] = ok tt
  heart_beats send state (peer ∷ peers) = do send peer state; heart_beats send state peers

  unfoldable pub beat : Host → (Peer → PeerState → Result E (Unit {0})) → Host
  unfolding heart_beats announced
  beat h send = elim (heart_beats send (announced w h.node) (map (λ e. e.1) h.net.peers)) [
    | ok _ ↦ h
    | err _ ↦ record h { beating = false }
  ]

  -- a peer's turn in a round of the task that synchronizes, with the peer's responses
  unfoldable pub synchronize : Host → Peer → (Request w → Option (Response w)) → Host
  unfolding sync_peer peer_state
  synchronize h peer respond = elim (sync_peer w h.node (peer_state h.net peer) respond) [
    | some n ↦ record h { node = n }
    | none ↦ record h { synchronizing = false }
  ]

  pub data Event : Type 0 where
    dialled : ℕ → Result E Connection → Event
    arrived : Result E Connection → Bool → Event
    requested : ℕ → Result E (Request w) → Event
    heard : ℕ → Result E (Result E PeerState) → Event
    beat_due : (Peer → PeerState → Result E (Unit {0})) → Event
    sync_due : ℕ → (Request w → Option (Response w)) → Event
    hung_up : ℕ → Event

  -- An event is handled if the task that waits for it goes on.
  unfoldable pub handle : Host → Event → Host
  unfolding dial accept_next listen hear beat synchronize disconnect
  handle h (dialled addr answer) = elim (dial h addr answer) [ ok h' ↦ h' | err _ ↦ h ]
  handle h (arrived answer closed) = if h.accepting then accept_next h answer closed else h
  handle h (requested id message) = elim (get id h.listening) [
    | none ↦ h
    | some _ ↦ listen h id message
  ]
  handle h (heard id datagram) = elim (get id h.hearing) [
    | none ↦ h
    | some peer ↦ hear h peer datagram
  ]
  handle h (beat_due send) = if h.beating then beat h send else h
  handle h (sync_due id respond) = elim (get id h.net.peers) [
    | none ↦ h
    | some peer ↦ if h.synchronizing then synchronize h peer respond else h
  ]
  handle h (hung_up id) = record h { net = (disconnect h.net id).1 }

  unfoldable pub run : Host → List Event → Host
  unfolding handle
  run h [] = h
  run h (e ∷ es) = run (handle h e) es

-- ===== src/Net.antt =====
-- The table of peers of src/net.rs, as src/node.rs keeps it: connections out and in, their ends,
-- and the heart beats. A connection of the `quinn` crate is its stable id and its remote address;
-- what an endpoint or a connection answers is a parameter of the operation. The state of a peer is
-- shared by its clones (an `Arc`): it stands in a table of its own, under the number that the
-- clones hold.
pub mod Peers
pub mod Steps
pub mod Race
use ddk.Prelude.{
  ℕ, ◌+◌, ◌==◌, ◌||◌, Bool, true, false, if◌then◌else◌, Option, none, some, List, [], ◌∷◌, Result,
  ok, err, ◌>>=◌, ◌>>◌, map_err, fail_if,
}
use ddk.Table.{Table, get, put, delete}
use ddk.Types.{number_key}

-- `PeerState`
pub record PeerState : Type 0 where
  pub block_height : ℕ

pub record Connection : Type 0 where
  pub stable_id : ℕ
  pub remote_address : ℕ

pub record Peer : Type 0 where
  pub state : ℕ
  pub connection : Connection

pub record Net : Type 0 where
  pub peers : Table ℕ Peer
  -- the states that have been announced, and the number of the next peer's
  pub states : Table ℕ PeerState
  pub next_state : ℕ

-- `E` is what `quinn` or `bincode` fail with.
pub data Error (E : Type 0) : Type 0 where
  other : E → Error E
  already_connected : ℕ → Error E

-- `peers.values()` with a connection to the address
unfoldable pub is_connected : Table ℕ Peer → ℕ → Bool
is_connected [] addr = false
is_connected ((_, peer) ∷ rest) addr =
    (peer.connection.remote_address == addr) || is_connected rest addr

-- a peer with a state of its own, which is none at first, put under its stable id
unfoldable pub add_peer : Net → Connection → Peer × Net
add_peer net connection =
    let peer : Peer = record { state = net.next_state; connection = connection } in
    (
      peer,
      record net {
        peers = put connection.stable_id peer net.peers;
        states = delete net.next_state net.states;
        next_state = net.next_state + 1;
      },
    )

-- `Net::connect`, with what the endpoint answers
unfoldable pub connect :
    {E : Type 0} → Net → ℕ → Result E Connection → Result (Error E) (Peer × Net)
unfolding is_connected add_peer
connect net addr answer = do
  fail_if (is_connected net.peers addr) (already_connected addr)
  connection ← map_err other answer
  ok (add_peer net connection)

-- `Net::disconnect`
unfoldable pub disconnect : Net → ℕ → Option Peer × Net
disconnect net stable_id =
    (get stable_id net.peers, record net { peers = delete stable_id net.peers })

-- the task of `Node::run` that accepts a connection, with none if it refuses it, or if the other
-- side has closed it
unfoldable pub accept : Net → Connection → Bool → Option Peer × Net
unfolding is_connected add_peer
accept net connection closed =
    let (peer, net') = add_peer net connection in
    if is_connected net.peers connection.remote_address || closed
    then (none, net)
    else (some peer, net')

-- `Node::heart_beat_listen`, with the datagram that is read and what `bincode` makes of it
unfoldable pub heart_beat_listen :
    {E : Type 0} → Net → Peer → Result E (Result E PeerState) → Result E (Unit {0}) × Net
heart_beat_listen net peer (err e) =
    (err e, record net { peers = delete peer.connection.stable_id net.peers })
heart_beat_listen net peer (ok (err e)) = (err e, net)
heart_beat_listen net peer (ok (ok state)) =
    (ok tt, record net { states = put peer.state state net.states })

-- the state of a peer: none until its first heart beat
unfoldable pub peer_state : Net → Peer → Option PeerState
peer_state net peer = get peer.state net.states

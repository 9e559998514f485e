-- ===== src/Net/Peers.antt =====
-- What holds of the table of peers: one connection for each address.
use ddk.Prelude.{
  Bool, All, ℕ, ◌<◌, ◌≡◌, false, Bool-cases, inl, inr, some, List, [], ◌∷◌, Result, ok, err, arith,
}
use ddk.Table.{Table, get, delete}
use ddk.Table.Laws.{get-put, get-delete}
use ddk.Types.{number_key}
use ddk.Net.{
  PeerState, Connection, Peer, Net, is_connected, add_peer, connect, disconnect, accept,
  heart_beat_listen,
}

-- A peer stands under its stable id, no two peers have one address, and no two share a state.
pub record IsUnique (net : Net) : Type 0 where
  pub own_id : (i : ℕ) (p : Peer) → get i net.peers ≡ some p → p.connection.stable_id ≡ i
  pub one_each :
      (i j : ℕ) (p q : Peer)
      → get i net.peers ≡ some p
      → get j net.peers ≡ some q
      → p.connection.remote_address ≡ q.connection.remote_address
      → i ≡ j
  pub old_state : (i : ℕ) (p : Peer) → get i net.peers ≡ some p → p.state < net.next_state
  pub own_state :
      (i j : ℕ) (p q : Peer)
      → get i net.peers ≡ some p
      → get j net.peers ≡ some q
      → p.state ≡ q.state
      → i ≡ j

pub get-is_connected :
    (peers : Table ℕ Peer) (i : ℕ) (p : Peer) (addr : ℕ)
    → is_connected peers addr ≡ false
    → get i peers ≡ some p
    → ¬ (p.connection.remote_address ≡ addr)
unfolding get is_connected
get-is_connected [] i p addr free h = λ same. absurd (ground arith)
get-is_connected ((j, q) ∷ rest) i p addr free h =
    λ same. absurd (ground (arith, get-is_connected rest i p addr))

pub add_peer-IsUnique :
    (net : Net) (connection : Connection)
    → IsUnique net
    → is_connected net.peers connection.remote_address ≡ false
    → IsUnique (add_peer net connection).1
unfolding add_peer
add_peer-IsUnique net connection s free =
    let id = connection.stable_id in
    let peer : Peer = record { state = net.next_state; connection = connection } in
    let look = λ (i : ℕ). get-put i id peer net.peers in
    let apart =
      λ (i : ℕ) (p : Peer). get-is_connected net.peers i p connection.remote_address free in
    record {
      own_id = λ i p h. ground (arith, look i, s.own_id i p);
      one_each = λ i j p q hi hj same.
          ground (arith, look i, look j, s.one_each i j p q, apart i p, apart j q);
      old_state = λ i p h. ground (arith, look i, s.old_state i p);
      own_state = λ i j p q hi hj same.
          ground (arith, look i, look j, s.own_state i j p q, s.old_state i p, s.old_state j q);
    }

pub delete-IsUnique :
    (net : Net) (k : ℕ) → IsUnique net → IsUnique (record net { peers = delete k net.peers })
delete-IsUnique net k s =
    let look = λ (i : ℕ). get-delete i k net.peers in
    record {
      own_id = λ i p h. ground (arith, look i, s.own_id i p);
      one_each = λ i j p q hi hj same. ground (arith, look i, look j, s.one_each i j p q);
      old_state = λ i p h. ground (arith, look i, s.old_state i p);
      own_state = λ i j p q hi hj same. ground (arith, look i, look j, s.own_state i j p q);
    }

-- An operation of a task: what the endpoint or the connection answers stands in it.
pub data Event (E : Type 0) : Type 0 where
  -- `connect`, with the address
  dial : ℕ → Result E Connection → Event E
  -- the task of `run` that accepts connections
  incoming : Connection → Bool → Event E
  -- `disconnect`
  hang_up : ℕ → Event E
  -- `heart_beat_listen`
  beat : Peer → Result E (Result E PeerState) → Event E

module _ {E : Type 0} where
  unfoldable pub handle : Net → Event E → Net
  unfolding connect accept disconnect heart_beat_listen
  handle net (dial addr answer) = elim (connect net addr answer) [
    | ok (_, net') ↦ net'
    | err _ ↦ net
  ]
  handle net (incoming connection closed) = (accept net connection closed).1
  handle net (hang_up stable_id) = (disconnect net stable_id).1
  handle net (beat peer datagram) = (heart_beat_listen net peer datagram).1

  unfoldable pub run : Net → List (Event E) → Net
  unfolding handle
  run net [] = net
  run net (e ∷ es) = run (handle net e) es

  -- A connection that is dialled has the address that was dialled.
  abbrev pub IsAnswered : Event E → Type 0
  IsAnswered (dial addr (ok connection)) = connection.remote_address ≡ addr
  IsAnswered (dial addr (err e)) = Unit
  IsAnswered (incoming connection closed) = Unit
  IsAnswered (hang_up stable_id) = Unit
  IsAnswered (beat peer datagram) = Unit

  pub handle-IsUnique :
      (net : Net) (e : Event E) → IsAnswered e → IsUnique net → IsUnique (handle net e)
  unfolding handle connect accept disconnect heart_beat_listen
  handle-IsUnique net (dial addr (ok connection)) answered s =
      elim (Bool-cases (is_connected net.peers addr)) [
        | inl taken ↦ rw (taken, handle) s
        | inr free ↦ rw (free, handle) (add_peer-IsUnique net connection s (rw answered free))
      ]
  handle-IsUnique net (dial addr (err e)) answered s =
      elim (Bool-cases (is_connected net.peers addr)) [
        | inl taken ↦ rw (taken, handle) s
        | inr free ↦ rw (free, handle) s
      ]
  handle-IsUnique net (incoming connection closed) answered s =
      elim (Bool-cases (is_connected net.peers connection.remote_address)) [
        | inl taken ↦ rw (taken, handle) s
        | inr free ↦ elim (Bool-cases closed) [
          | inl ended ↦ rw (free, ended, handle) s
          | inr alive ↦ rw (free, alive, handle) (add_peer-IsUnique net connection s free)
        ]
      ]
  handle-IsUnique net (hang_up stable_id) answered s = delete-IsUnique net stable_id s
  handle-IsUnique net (beat peer (err e)) answered s =
      delete-IsUnique net peer.connection.stable_id s
  handle-IsUnique net (beat peer (ok (err e))) answered s = s
  handle-IsUnique net (beat peer (ok (ok state))) answered s = record {
    own_id = s.own_id;
    one_each = s.one_each;
    old_state = s.old_state;
    own_state = s.own_state;
  }

  -- If every connection that is dialled has the address that was dialled, then over any operations
  -- in any order, each peer stands under its stable id, no two have one address, and no two share
  -- a state.
  pub run-IsUnique :
      (net : Net) (es : List (Event E)) → All IsAnswered es → IsUnique net → IsUnique (run net es)
  unfolding run
  run-IsUnique net [] answered s = s
  run-IsUnique net (e ∷ es) answered s =
      run-IsUnique (handle net e) es answered.1 (handle-IsUnique net e answered.0 s)

-- ===== src/Net/Steps.antt =====
-- The tasks that enter a connection into the table of peers of src/net.rs, one step at a time: a
-- task looks at the table under its lock, lets go of the lock, waits for the connection, and
-- enters it. Between the two steps of `Net::connect`, or of the accepting task of `Node::run`
-- (src/node.rs), other tasks run.
use ddk.Prelude.{
  ℕ, ◌≡◌, ◌≢◌, false, some, none, List, [], ◌∷◌, Result, ok, err, if◌then◌else◌, arith, inl, inr,
  Bool-cases, Option-cases,
}
use ddk.Table.{Table, get, put, delete}
use ddk.Table.Laws.{get-put, get-delete, get-delete_self}
use ddk.Types.{number_key}
use ddk.Net.{
  PeerState, Connection, Peer, Net, is_connected, add_peer, disconnect, heart_beat_listen,
}
use ddk.Net.Peers
use ddk.Net.Peers.{IsUnique, get-is_connected, add_peer-IsUnique, delete-IsUnique, handle-IsUnique}

-- The table, and the addresses that tasks found free and wait for.
pub record Tasks : Type 0 where
  pub net : Net
  pub waiting : Table ℕ ℕ

pub data Step (E : Type 0) : Type 0 where
  -- a task looks for a peer with the address
  look : ℕ → ℕ → Step E
  -- it enters its connection, if it has one
  enter : ℕ → Result E Connection → Step E
  -- `disconnect`
  hang_up : ℕ → Step E
  -- `heart_beat_listen`
  beat : Peer → Result E (Result E PeerState) → Step E

module _ {E : Type 0} where
  unfoldable pub step : Tasks → Step E → Tasks
  unfolding is_connected add_peer disconnect heart_beat_listen
  step s (look task addr) =
      if is_connected s.net.peers addr
      then s
      else record { net = s.net; waiting = put task addr s.waiting }
  step s (enter task (err e)) = record { net = s.net; waiting = delete task s.waiting }
  step s (enter task (ok connection)) = elim (get task s.waiting) [
    | none ↦ s
    | some _ ↦ record { net = (add_peer s.net connection).1; waiting = delete task s.waiting }
  ]
  step s (hang_up stable_id) = record { net = (disconnect s.net stable_id).1; waiting = s.waiting }
  step s (beat peer datagram) = record {
    net = (heart_beat_listen s.net peer datagram).1;
    waiting = s.waiting;
  }

  unfoldable pub steps : Tasks → List (Step E) → Tasks
  unfolding step
  steps s [] = s
  steps s (e ∷ es) = steps (step s e) es

  -- No two tasks wait for one address, and a connection has the address that its task looked for.
  abbrev pub IsAlone : Tasks → Step E → Type 0
  IsAlone s (look task addr) = (i a : ℕ) → get i s.waiting ≡ some a → a ≢ addr
  IsAlone s (enter task (err e)) = Unit
  IsAlone s (enter task (ok connection)) =
      (a : ℕ) → get task s.waiting ≡ some a → connection.remote_address ≡ a
  IsAlone s (hang_up stable_id) = Unit
  IsAlone s (beat peer datagram) = Unit

  abbrev pub AllAlone : Tasks → List (Step E) → Type 0
  AllAlone s [] = Unit
  AllAlone s (e ∷ es) = IsAlone s e × AllAlone (step s e) es

-- The peers are unique, and what tasks wait for is still free, each address for one task.
pub record IsApart (s : Tasks) : Type 0 where
  pub unique : IsUnique s.net
  pub free : (i a : ℕ) → get i s.waiting ≡ some a → is_connected s.net.peers a ≡ false
  pub own : (i j a : ℕ) → get i s.waiting ≡ some a → get j s.waiting ≡ some a → i ≡ j

is_connected-put :
    (k a : ℕ) (p : Peer) (peers : Table ℕ Peer)
    → p.connection.remote_address ≢ a
    → is_connected peers a ≡ false
    → is_connected (put k p peers) a ≡ false
unfolding is_connected put
is_connected-put k a p [] other free = ground arith
is_connected-put k a p ((j, q) ∷ peers) other free = ground (arith, is_connected-put k a p peers)

is_connected-delete :
    (k a : ℕ) (peers : Table ℕ Peer)
    → is_connected peers a ≡ false
    → is_connected (delete k peers) a ≡ false
unfolding is_connected delete
is_connected-delete k a [] free = free
is_connected-delete k a ((j, q) ∷ peers) free = ground (arith, is_connected-delete k a peers)

module _ {E : Type 0} where
  step-IsApart : (s : Tasks) (e : Step E) → IsAlone s e → IsApart s → IsApart (step s e)
  unfolding step Peers.handle
  step-IsApart s (look task addr) alone h = elim (Bool-cases (is_connected s.net.peers addr)) [
    | inl taken ↦ rw (taken, step) h
    | inr open_ ↦
        rw (open_, step)
          (record {
            unique = h.unique;
            free = λ i a e. ground (arith, get-put i task addr s.waiting, h.free i a, open_);
            own = λ i j a ei ej. ground (
              arith,
              get-put i task addr s.waiting,
              get-put j task addr s.waiting,
              h.own i j a,
              alone i a,
              alone j a,
            );
          })
  ]
  step-IsApart s (enter task (err e)) alone h = record {
    unique = h.unique;
    free = λ i a e. ground (arith, get-delete i task s.waiting, h.free i a);
    own = λ i j a ei ej.
        ground (arith, get-delete i task s.waiting, get-delete j task s.waiting, h.own i j a);
  }
  step-IsApart s (enter task (ok connection)) alone h = elim (Option-cases (get task s.waiting)) [
    | inl gone ↦ rw (gone, step) h
    | inr (addr, w) ↦
        rw (w, step)
          (record {
            unique =
                add_peer-IsUnique s.net connection h.unique
                  (rw (alone addr w) (h.free task addr w));
            free = λ i a e.
                let held : get i s.waiting ≡ some a =
                  ground (arith, get-delete i task s.waiting, e) in
                let other : addr ≢ a = λ same.
                  ground (
                    arith,
                    get-delete_self task s.waiting,
                    h.own i task a held (rw same at w),
                    e,
                  ) in
                is_connected-put connection.stable_id a _ s.net.peers
                  (λ same. other (ground (arith, alone addr w, same))) (h.free i a held);
            own = λ i j a ei ej.
                ground
                  (arith, get-delete i task s.waiting, get-delete j task s.waiting, h.own i j a);
          })
  ]
  step-IsApart s (hang_up stable_id) alone h = record {
    unique = delete-IsUnique s.net stable_id h.unique;
    free = λ i a e. is_connected-delete stable_id a s.net.peers (h.free i a e);
    own = h.own;
  }
  step-IsApart s (beat peer (err e)) alone h = record {
    unique = handle-IsUnique {E = E} s.net (Peers.beat peer (err e)) tt h.unique;
    free = λ i a e. is_connected-delete peer.connection.stable_id a s.net.peers (h.free i a e);
    own = h.own;
  }
  step-IsApart s (beat peer (ok (err e))) alone h = record {
    unique = h.unique;
    free = h.free;
    own = h.own;
  }
  step-IsApart s (beat peer (ok (ok state))) alone h = record {
    unique = handle-IsUnique {E = E} s.net (Peers.beat peer (ok (ok state))) tt h.unique;
    free = h.free;
    own = h.own;
  }

  -- If the peers are unique and the addresses that tasks wait for are free, each for one task, no
  -- task looks for an address that another waits for, and each connection has the address that its
  -- task looked for, then in any order of the tasks' steps the peers stay unique, and the
  -- addresses that tasks wait for stay free, each for one task.
  pub steps-IsApart :
      (s : Tasks) (es : List (Step E)) → AllAlone s es → IsApart s → IsApart (steps s es)
  unfolding steps
  steps-IsApart s [] alone h = h
  steps-IsApart s (e ∷ es) alone h =
      steps-IsApart (step s e) es alone.1 (step-IsApart s e alone.0 h)

-- ===== src/Net/Race.antt =====
-- What may come of the two steps of `Net::connect` of src/net.rs.
use ddk.Prelude.{
  ℕ, ◌+◌, ◌≡◌, ◌≢◌, refl, true, false, some, none, List, [], ◌∷◌, Result, ok, err, arith, inl, inr,
  Bool-cases,
}
use ddk.Table.{get, put, delete}
use ddk.Table.Laws.{get-put, get-delete, get-put_self}
use ddk.Types.{number_key}
use ddk.Net.{Connection, Peer, is_connected, add_peer, connect}
use ddk.Net.Peers
use ddk.Net.Peers.{IsUnique}
use ddk.Net.Steps.{Tasks, Step, look, enter, step, steps}

module _ (E : Type 0) where
  step-look :
      (s : Tasks) (task addr : ℕ)
      → is_connected s.net.peers addr ≡ false
      → step {E = E} s (look task addr) ≡ record { net = s.net; waiting = put task addr s.waiting }
  unfolding step
  step-look s task addr free = rw free refl

  step-refused :
      (s : Tasks) (task addr : ℕ)
      → is_connected s.net.peers addr ≡ true
      → step {E = E} s (look task addr) ≡ s
  unfolding step
  step-refused s task addr taken = rw taken refl

  step-idle :
      (s : Tasks) (task : ℕ) (answer : Result E Connection)
      → get task s.waiting ≡ none
      → (step s (enter task answer)).net ≡ s.net
  unfolding step
  step-idle s task (ok connection) idle = rw (idle, step) refl
  step-idle s task (err e) idle = refl

  step-enter :
      (s : Tasks) (task addr : ℕ) (connection : Connection)
      → get task s.waiting ≡ some addr
      → step {E = E} s (enter task (ok connection))
        ≡ record { net = (add_peer s.net connection).1; waiting = delete task s.waiting }
  unfolding step
  step-enter s task addr connection waits = rw (waits, step) refl

  step-failed : (s : Tasks) (task : ℕ) (e : E) → (step s (enter task (err e))).net ≡ s.net
  unfolding step
  step-failed s task e = refl

  -- `connect` is its two steps with no other step between them.
  connect-steps :
      (s : Tasks) (task addr : ℕ) (answer : Result E Connection)
      → get task s.waiting ≡ none
      → (steps s (look task addr ∷ enter task answer ∷ [])).net
        ≡ Peers.handle s.net (Peers.dial addr answer)
  unfolding steps Peers.handle connect
  connect-steps s task addr answer idle = elim (Bool-cases (is_connected s.net.peers addr)) [
    | inl taken ↦
        rw (step-refused s task addr taken, taken, Peers.handle) (step-idle s task answer idle)
    | inr free ↦ rw (step-look s task addr free) (entered answer free)
  ]
    where
      entered :
          (answer : Result E Connection)
          → is_connected s.net.peers addr ≡ false
          → (step
              (record { net = s.net; waiting = put task addr s.waiting })
              (enter task answer)).net
            ≡ Peers.handle s.net (Peers.dial addr answer)
      entered (ok connection) free =
          rw
            (
              step-enter (record { net = s.net; waiting = put task addr s.waiting }) task addr
                  connection (get-put_self task addr s.waiting),
              free,
              Peers.handle,
            )
            refl
      entered (err e) free =
          rw (free, Peers.handle)
            (step-failed (record { net = s.net; waiting = put task addr s.waiting }) task e)

  -- Two tasks look for an address, and then enter their connections.
  abbrev pub race : ℕ → ℕ → ℕ → Connection → Connection → List (Step E)
  race i j addr a b = look i addr ∷ look j addr ∷ enter i (ok a) ∷ enter j (ok b) ∷ []

  steps-race :
      (s : Tasks) (i j addr : ℕ) (a b : Connection)
      → i ≢ j
      → is_connected s.net.peers addr ≡ false
      → (steps s (race i j addr a b)).net ≡ (add_peer (add_peer s.net a).1 b).1
  unfolding steps
  steps-race s i j addr a b apart free =
      let first : get i (put j addr (put i addr s.waiting)) ≡ some addr =
        ground (arith, get-put i j addr (put i addr s.waiting), get-put_self i addr s.waiting) in
      let second : get j (delete i (put j addr (put i addr s.waiting))) ≡ some addr = ground (
        arith,
        get-delete j i (put j addr (put i addr s.waiting)),
        get-put_self j addr (put i addr s.waiting),
      ) in
      let one : Tasks = record { net = s.net; waiting = put i addr s.waiting } in
      let two : Tasks = record { net = s.net; waiting = put j addr (put i addr s.waiting) } in
      let three : Tasks = record { net = (add_peer s.net a).1; waiting = delete i two.waiting } in
      rw
        (
          step-look s i addr free,
          step-look one j addr free,
          step-enter two i addr a first,
          step-enter three j addr b second,
        )
        refl

  -- Two tasks that both look for a free address before either enters its connection, each with a
  -- stable id of its own, leave two peers with that address, under the two stable ids.
  pub steps-race_two :
      (s : Tasks) (i j addr : ℕ) (a b : Connection)
      → i ≢ j
      → is_connected s.net.peers addr ≡ false
      → a.remote_address ≡ addr
      → b.remote_address ≡ addr
      → a.stable_id ≢ b.stable_id
      → (p : Peer) × (q : Peer) × (get a.stable_id (steps s (race i j addr a b)).net.peers ≡ some p)
        × (get b.stable_id (steps s (race i j addr a b)).net.peers ≡ some q)
        × (p.connection.remote_address ≡ addr)
        × (q.connection.remote_address ≡ addr)
  unfolding add_peer
  steps-race_two s i j addr a b apart free at_a at_b ids =
      let peer_a : Peer = record { state = s.net.next_state; connection = a } in
      let peer_b : Peer = record { state = s.net.next_state + 1; connection = b } in
      let there : get a.stable_id (put b.stable_id peer_b (put a.stable_id peer_a s.net.peers))
          ≡ some peer_a =
        ground (
          arith,
          get-put a.stable_id b.stable_id peer_b (put a.stable_id peer_a s.net.peers),
          get-put_self a.stable_id peer_a s.net.peers,
        ) in
      (
        peer_a,
        peer_b,
        rw (steps-race s i j addr a b apart free) there,
        rw (steps-race s i j addr a b apart free)
            (get-put_self b.stable_id peer_b (put a.stable_id peer_a s.net.peers)),
        at_a,
        at_b,
      )

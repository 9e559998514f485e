-- ===== src/Node/Host/Ended.antt =====
-- What a node does when a task of `Node::run` of src/node.rs has ended, or none has.
use ddk.Prelude.{
  ℕ, ◌≡◌, refl, sym, ◌∙◌, ap, Bool, true, false, some, List, [], ◌∷◌, ◌⊎◌, Result, ok, err, arith,
  inl, inr, Bool-cases, Option-cases, Result-cases, if◌then◌else◌,
}
use mathlib.Core.Path.{subst}
use ddk.Table.{get}
use ddk.Table.Laws.{get-put, get-delete}
use ddk.Types.{Chain, number_key}
use ddk.Net.{
  PeerState, Connection, Peer, Net, is_connected, add_peer, connect, accept, disconnect,
  heart_beat_listen,
}
use ddk.Net.Peers
use ddk.Net.Peers.{IsUnique, run-IsUnique}
use ddk.Node.{World}
use ddk.Node.Host.{
  Host, Event, dialled, arrived, requested, heard, beat_due, sync_due, hung_up, handle, run, dial,
  accept_next, beat, synchronize, spawn,
}
use ddk.Node.Host.Refines.{net_events, handle-net, listen-net, hear-net, beat-net, synchronize-net}

get-add_peer :
    (n : Net) (connection : Connection) (i : ℕ) (p : Peer)
    → get i (add_peer n connection).1.peers ≡ some p
    → (get i n.peers ≡ some p) ⊎ (connection ≡ p.connection)
unfolding add_peer
get-add_peer n connection i p h =
    let entered : Peer = record { state = n.next_state; connection = connection } in
    elim (number_key.discrete i connection.stable_id) [
      | yes same ↦
          let is : entered ≡ p =
            ground (arith, get-put i connection.stable_id entered n.peers, h, same) in
          inr (ap (λ (p : Peer). p.connection) is)
      | no other ↦ inl (ground (arith, get-put i connection.stable_id entered n.peers, h, other))
    ]

module _ {E : Type 0} where
  -- A peer that the event enters.
  abbrev Enters : Peer → Peers.Event E → Type 0
  Enters p (Peers.dial addr (ok connection)) = connection ≡ p.connection
  Enters p (Peers.dial addr (err e)) = ⊥
  Enters p (Peers.incoming connection closed) = connection ≡ p.connection
  Enters p (Peers.hang_up stable_id) = ⊥
  Enters p (Peers.beat peer datagram) = ⊥

  get-handle :
      (n : Net) (e : Peers.Event E) (i : ℕ) (p : Peer)
      → get i (Peers.handle n e).peers ≡ some p
      → (get i n.peers ≡ some p) ⊎ Enters p e
  unfolding Peers.handle connect accept disconnect heart_beat_listen
  get-handle n (Peers.dial addr (ok connection)) i p h =
      elim (Bool-cases (is_connected n.peers addr)) [
        | inl taken ↦ inl (rw (taken, Peers.handle) at h)
        | inr free ↦ get-add_peer n connection i p (rw (free, Peers.handle) at h)
      ]
  get-handle n (Peers.dial addr (err e)) i p h = elim (Bool-cases (is_connected n.peers addr)) [
    | inl taken ↦ inl (rw (taken, Peers.handle) at h)
    | inr free ↦ inl (rw (free, Peers.handle) at h)
  ]
  get-handle n (Peers.incoming connection closed) i p h =
      elim (Bool-cases (is_connected n.peers connection.remote_address)) [
        | inl taken ↦ inl (rw (taken, Peers.handle) at h)
        | inr free ↦ elim (Bool-cases closed) [
          | inl ended ↦ inl (rw (free, ended, Peers.handle) at h)
          | inr alive ↦ get-add_peer n connection i p (rw (free, alive, Peers.handle) at h)
        ]
      ]
  get-handle n (Peers.hang_up stable_id) i p h =
      inl (ground (arith, get-delete i stable_id n.peers))
  get-handle n (Peers.beat peer (err e)) i p h =
      inl (ground (arith, get-delete i peer.connection.stable_id n.peers))
  get-handle n (Peers.beat peer (ok (err e))) i p h = inl h
  get-handle n (Peers.beat peer (ok (ok state))) i p h = inl h

beat-not-Enters :
    {E : Type 0} (peer : Peer) (datagram : Result E (Result E PeerState)) (p : Peer)
    → ¬ Enters p (Peers.beat peer datagram)
beat-not-Enters peer datagram p never = never

if-off : {A : Type 0} (b : Bool) (x y : A) → b ≡ false → (if b then x else y) ≡ y
if-off true x y h = absurd (ground arith)
if-off false x y h = refl

module _ {c : Chain} {A : Type 0} (w : World c A) (E : Type 0) where
  -- The event dials a connection, and it is the peer's.
  abbrev pub Dials : Peer → Event w E → Type 0
  Dials p (dialled addr (ok connection)) = connection ≡ p.connection
  Dials p (dialled addr (err e)) = ⊥
  Dials p (arrived answer closed) = ⊥
  Dials p (requested id message) = ⊥
  Dials p (heard id datagram) = ⊥
  Dials p (beat_due send) = ⊥
  Dials p (sync_due id respond) = ⊥
  Dials p (hung_up id) = ⊥

  abbrev pub DialledIn : Peer → List (Event w E) → Type 0
  DialledIn p [] = ⊥
  DialledIn p (e ∷ es) = Dials p e ⊎ DialledIn p es

  spawn-accepting :
      (h : Host w E) (entered : Peer × Net) → (spawn w E h entered).accepting ≡ h.accepting
  unfolding spawn
  spawn-accepting h (peer, net) = refl

  chosen-accepting :
      (on : Bool) (h h' : Host w E)
      → h'.accepting ≡ h.accepting
      → (if on then h' else h).accepting ≡ h.accepting
  chosen-accepting true h h' e = e
  chosen-accepting false h h' e = refl

  handle-accepting :
      (h : Host w E) (e : Event w E) → h.accepting ≡ false → (handle w E h e).accepting ≡ false
  unfolding handle dial
  handle-accepting h (dialled addr answer) off = elim (Result-cases (connect h.net addr answer)) [
    | inl ((peer, net'), e) ↦ rw (e, handle) off
    | inr (z, e) ↦ rw (e, handle) off
  ]
  handle-accepting h (arrived answer closed) off =
      ap (λ (h : Host w E). h.accepting)
        (if-off h.accepting (accept_next w E h answer closed) h off)
      ∙ off
  handle-accepting h (requested id message) off = elim (Option-cases (get id h.listening)) [
    | inl gone ↦ rw (gone, handle) off
    | inr (peer, there) ↦ rw (there, handle) ((listen-net w E h id message).1 ∙ off)
  ]
  handle-accepting h (heard id datagram) off = elim (Option-cases (get id h.hearing)) [
    | inl gone ↦ rw (gone, handle) off
    | inr (peer, there) ↦ rw (there, handle) ((hear-net w E h peer datagram).1 ∙ off)
  ]
  handle-accepting h (beat_due send) off =
      chosen-accepting h.beating h (beat w E h send) (beat-net w E h send).1 ∙ off
  handle-accepting h (sync_due id respond) off = elim (Option-cases (get id h.net.peers)) [
    | inl gone ↦ rw (gone, handle) off
    | inr (peer, there) ↦
        rw (there, handle)
          (chosen-accepting h.synchronizing h (synchronize w E h peer respond)
              (synchronize-net w E h peer respond).1
            ∙ off)
  ]
  handle-accepting h (hung_up id) off = off

  handle-Dials :
      (h : Host w E) (e : Event w E) (i : ℕ) (p : Peer)
      → h.accepting ≡ false
      → get i (handle w E h e).net.peers ≡ some p
      → (get i h.net.peers ≡ some p) ⊎ Dials p e
  unfolding net_events Peers.run
  handle-Dials h (dialled addr (ok connection)) i p off there =
      get-handle h.net (Peers.dial addr (ok connection)) i p
        (rw (handle-net w E h (dialled addr (ok connection))) at there)
  handle-Dials h (dialled addr (err e)) i p off there =
      get-handle h.net (Peers.dial addr (err e)) i p
        (rw (handle-net w E h (dialled addr (err e))) at there)
  handle-Dials h (arrived (ok connection) closed) i p off there =
      inl (rw (handle-net w E h (arrived (ok connection) closed), off) at there)
  handle-Dials h (arrived (err e) closed) i p off there =
      inl (rw (handle-net w E h (arrived (err e) closed)) at there)
  handle-Dials h (requested id message) i p off there =
      inl (rw (handle-net w E h (requested id message)) at there)
  handle-Dials h (heard id datagram) i p off there = elim (Option-cases (get id h.hearing)) [
    | inl gone ↦ inl (rw (handle-net w E h (heard id datagram), gone, net_events) at there)
    | inr (peer, hears) ↦
        elim (get-handle h.net (Peers.beat peer datagram) i p
          (rw (handle-net w E h (heard id datagram), hears, net_events) at there)) [
            | inl before ↦ inl before
            | inr enters ↦ absurd (beat-not-Enters peer datagram p enters)
          ]
  ]
  handle-Dials h (beat_due send) i p off there =
      inl (rw (handle-net w E h (beat_due send)) at there)
  handle-Dials h (sync_due id respond) i p off there =
      inl (rw (handle-net w E h (sync_due id respond)) at there)
  handle-Dials h (hung_up id) i p off there =
      get-handle {E = E} h.net (Peers.hang_up id) i p (rw (handle-net w E h (hung_up id)) at there)

  run-Dials :
      (h : Host w E) (es : List (Event w E)) (i : ℕ) (p : Peer)
      → h.accepting ≡ false
      → get i (run w E h es).net.peers ≡ some p
      → (get i h.net.peers ≡ some p) ⊎ DialledIn p es
  unfolding run
  run-Dials h [] i p off there = inl there
  run-Dials h (e ∷ es) i p off there =
      elim (run-Dials (handle w E h e) es i p (handle-accepting h e off) there) [
        | inr later ↦ inr (inr later)
        | inl now ↦ elim (handle-Dials h e i p off now) [
          | inl before ↦ inl before
          | inr dials ↦ inr (inl dials)
        ]
      ]

  arrived-accepting :
      (h : Host w E) (e : E) (closed : Bool)
      → (handle w E h (arrived (err e) closed)).accepting ≡ false
  unfolding handle accept_next
  arrived-accepting h e closed = elim (Bool-cases h.accepting) [
    | inl on ↦
        subst (λ (b : Bool). (if b then accept_next w E h (err e) closed else h).accepting ≡ false)
          (sym on) refl
    | inr off ↦
        subst (λ (b : Bool). (if b then accept_next w E h (err e) closed else h).accepting ≡ false)
          (sym off) off
  ]

  -- Once a connection that arrives has failed, a node accepts none any more: after any further
  -- events, each peer in its table was there before or was dialled.
  pub run-arrived :
      (h : Host w E) (e : E) (closed : Bool) (es : List (Event w E)) (i : ℕ) (p : Peer)
      → get i (run w E h (arrived (err e) closed ∷ es)).net.peers ≡ some p
      → (get i h.net.peers ≡ some p) ⊎ DialledIn p es
  unfolding run Peers.run net_events
  run-arrived h e closed es i p there =
      let h' = handle w E h (arrived (err e) closed) in
      elim (run-Dials h' es i p (arrived-accepting h e closed) there) [
        | inr dials ↦ inr dials
        | inl now ↦ inl (rw (handle-net w E h (arrived (err e) closed)) at now)
      ]

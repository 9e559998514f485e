-- ===== src/Node/Host/Refines.antt =====
-- The tasks of a node do to its table of peers and to its state what the events of the two do.
use ddk.Prelude.{
  ℕ, ◌≡◌, refl, sym, ◌∙◌, Bool, true, false, Option, none, some, List, [], ◌∷◌, ◌++◌, Result, ok,
  err, All, map, if◌then◌else◌, inl, inr, Bool-cases, Option-cases, Result-cases,
}
use mathlib.Core.Path.{subst}
use ddk.Table.{get}
use ddk.Types.{Chain, number_key}
use ddk.Net.{PeerState, peer_state, Connection, Peer, Net, connect, accept, heart_beat_listen}
use ddk.Net.Peers
use ddk.Net.Peers.{IsUnique, IsAnswered, run-IsUnique}
use ddk.Node.{World}
use ddk.Node.Requests.{Request, Response, peer_listen}
use ddk.Node.Sync.{announced, sync_peer}
use ddk.Node.Host.{
  Host, Event, dialled, arrived, requested, heard, beat_due, sync_due, hung_up, handle, run, dial,
  accept_next, listen, hear, beat, synchronize, spawn, current, heart_beats,
}

module _ {c : Chain} {A : Type 0} (w : World c A) (E : Type 0) where
  -- What an event of the node's tasks does to the table of peers.
  unfoldable pub net_events : Host w E → Event w E → List (Peers.Event E)
  net_events h (dialled addr answer) = Peers.dial addr answer ∷ []
  net_events h (arrived (ok connection) closed) =
      if h.accepting then Peers.incoming connection closed ∷ [] else []
  net_events h (arrived (err e) closed) = []
  net_events h (requested id message) = []
  net_events h (heard id datagram) = elim (get id h.hearing) [
    | none ↦ []
    | some peer ↦ Peers.beat peer datagram ∷ []
  ]
  net_events h (beat_due send) = []
  net_events h (sync_due id respond) = []
  net_events h (hung_up id) = Peers.hang_up id ∷ []

  guarded-net :
      (on : Bool) (h h' : Host w E) (es : List (Peers.Event E))
      → h'.net ≡ Peers.run h.net es
      → (if on then h' else h).net ≡ Peers.run h.net (if on then es else [])
  unfolding Peers.run
  guarded-net true h h' es e = e
  guarded-net false h h' es e = refl

  idle-net : (on : Bool) (h h' : Host w E) → h'.net ≡ h.net → (if on then h' else h).net ≡ h.net
  idle-net true h h' e = e
  idle-net false h h' e = refl

  accept_next-net :
      (h : Host w E) (connection : Connection) (closed : Bool)
      → ((accept_next w E h (ok connection) closed).net ≡ (accept h.net connection closed).1)
        × ((accept_next w E h (ok connection) closed).accepting ≡ h.accepting)
  unfolding accept_next spawn
  accept_next-net h connection closed = elim (Option-cases (accept h.net connection closed).0) [
    | inl refused ↦ rw (refused, accept_next) (refl, refl)
    | inr (peer, entered) ↦ rw (entered, accept_next) (refl, refl)
  ]

  pub listen-net :
      (h : Host w E) (id : ℕ) (message : Result E (Request w))
      → ((listen w E h id message).net ≡ h.net)
        × ((listen w E h id message).accepting ≡ h.accepting)
  unfolding listen
  listen-net h id (err e) = (refl, refl)
  listen-net h id (ok message) =
      elim (Result-cases (peer_listen w (current w E h) id message).outcome) [
        | inl (u, good) ↦ rw (good, listen) (refl, refl)
        | inr (e, bad) ↦ rw (bad, listen) (refl, refl)
      ]

  pub hear-net :
      (h : Host w E) (peer : Peer) (datagram : Result E (Result E PeerState))
      → ((hear w E h peer datagram).net ≡ (heart_beat_listen h.net peer datagram).1)
        × ((hear w E h peer datagram).accepting ≡ h.accepting)
  unfolding hear
  hear-net h peer datagram = elim (Result-cases (heart_beat_listen h.net peer datagram).0) [
    | inl (u, good) ↦ rw (good, hear) (refl, refl)
    | inr (e, bad) ↦ rw (bad, hear) (refl, refl)
  ]

  pub beat-net :
      (h : Host w E) (send : Peer → PeerState → Result E (Unit {0}))
      → ((beat w E h send).net ≡ h.net) × ((beat w E h send).accepting ≡ h.accepting)
  unfolding beat
  beat-net h send =
      elim (Result-cases (heart_beats w E send (announced w h.node) (map (λ e. e.1) h.net.peers))) [
        | inl (u, good) ↦ rw (good, beat) (refl, refl)
        | inr (e, bad) ↦ rw (bad, beat) (refl, refl)
      ]

  pub synchronize-net :
      (h : Host w E) (peer : Peer) (respond : Request w → Option (Response w))
      → ((synchronize w E h peer respond).net ≡ h.net)
        × ((synchronize w E h peer respond).accepting ≡ h.accepting)
  unfolding synchronize
  synchronize-net h peer respond =
      elim (Option-cases (sync_peer w h.node (peer_state h.net peer) respond)) [
        | inl ended ↦ rw (ended, synchronize) (refl, refl)
        | inr (n, on) ↦ rw (on, synchronize) (refl, refl)
      ]

  pub handle-net :
      (h : Host w E) (e : Event w E) → (handle w E h e).net ≡ Peers.run h.net (net_events h e)
  unfolding handle net_events Peers.run Peers.handle dial spawn accept_next
  handle-net h (dialled addr answer) = elim (Result-cases (connect h.net addr answer)) [
    | inl ((peer, net'), e) ↦ rw (e, handle, Peers.handle) refl
    | inr (z, e) ↦ rw (e, handle, Peers.handle) refl
  ]
  handle-net h (arrived (ok connection) closed) =
      guarded-net h.accepting h (accept_next w E h (ok connection) closed)
        (Peers.incoming connection closed ∷ []) (accept_next-net h connection closed).0
  handle-net h (arrived (err e) closed) = idle-net h.accepting h _ refl
  handle-net h (requested id message) = elim (Option-cases (get id h.listening)) [
    | inl gone ↦ rw (gone, handle) refl
    | inr (peer, there) ↦ rw (there, handle) (listen-net h id message).0
  ]
  handle-net h (heard id datagram) = elim (Option-cases (get id h.hearing)) [
    | inl gone ↦ rw (gone, handle, net_events) refl
    | inr (peer, there) ↦ rw (there, handle, net_events) (hear-net h peer datagram).0
  ]
  handle-net h (beat_due send) = idle-net h.beating h (beat w E h send) (beat-net h send).0
  handle-net h (sync_due id respond) = elim (Option-cases (get id h.net.peers)) [
    | inl gone ↦ rw (gone, handle) refl
    | inr (peer, there) ↦
        rw (there, handle)
          (idle-net h.synchronizing h (synchronize w E h peer respond)
            (synchronize-net h peer respond).0)
  ]
  handle-net h (hung_up id) = refl

  -- The same for events in a row.
  unfoldable pub net_trace : Host w E → List (Event w E) → List (Peers.Event E)
  unfolding net_events
  net_trace h [] = []
  net_trace h (e ∷ es) = net_events h e ++ net_trace (handle w E h e) es

  run-append :
      (n : Net) (xs ys : List (Peers.Event E))
      → Peers.run n (xs ++ ys) ≡ Peers.run (Peers.run n xs) ys
  unfolding Peers.run
  run-append n [] ys = refl
  run-append n (x ∷ xs) ys = run-append (Peers.handle n x) xs ys

  -- Over any events of the node's tasks, the table of peers is what the operations on it leave
  -- that the tasks which have not ended come to.
  pub run-net :
      (h : Host w E) (es : List (Event w E)) → (run w E h es).net ≡ Peers.run h.net (net_trace h es)
  unfolding run net_trace Peers.run
  run-net h [] = refl
  run-net h (e ∷ es) =
      let rest = run-net (handle w E h e) es in
      let first = handle-net h e in
      rest
      ∙ subst
          (λ (n : Net).
            Peers.run (handle w E h e).net (net_trace (handle w E h e) es)
            ≡ Peers.run n (net_trace (handle w E h e) es))
          first refl
      ∙ sym (run-append h.net (net_events h e) (net_trace (handle w E h e) es))

  -- A connection that is dialled has the address that was dialled.
  abbrev pub IsAnsweredBy : Event w E → Type 0
  IsAnsweredBy (dialled addr answer) = Peers.IsAnswered (Peers.dial addr answer)
  IsAnsweredBy (arrived answer closed) = Unit
  IsAnsweredBy (requested id message) = Unit
  IsAnsweredBy (heard id datagram) = Unit
  IsAnsweredBy (beat_due send) = Unit
  IsAnsweredBy (sync_due id respond) = Unit
  IsAnsweredBy (hung_up id) = Unit

  pub net_events-IsAnswered :
      (h : Host w E) (e : Event w E) → IsAnsweredBy e → All IsAnswered (net_events h e)
  unfolding net_events
  net_events-IsAnswered h (dialled addr answer) answered = (answered, tt)
  net_events-IsAnswered h (arrived (ok connection) closed) answered =
      elim (Bool-cases h.accepting) [ inl on ↦ rw on (tt, tt) | inr off ↦ rw off tt ]
  net_events-IsAnswered h (arrived (err e) closed) answered = tt
  net_events-IsAnswered h (requested id message) answered = tt
  net_events-IsAnswered h (heard id datagram) answered = elim (Option-cases (get id h.hearing)) [
    | inl gone ↦ rw (gone, net_events) tt
    | inr (peer, there) ↦ rw (there, net_events) (tt, tt)
  ]
  net_events-IsAnswered h (beat_due send) answered = tt
  net_events-IsAnswered h (sync_due id respond) answered = tt
  net_events-IsAnswered h (hung_up id) answered = (tt, tt)

-- ===== src/Node/Sync.antt =====
-- The synchronization with a peer: the task of `run` in src/node.rs that requests missing blocks,
-- and the height that a heart beat announces. An `unwrap` that fails ends the task.
use ddk.Prelude.{
  ℕ, zero, suc, Option, none, some, ltb, if◌then◌else◌, add32, ok, err, List, [], ◌∷◌, ◌≡◌, refl,
  Option-cases, inl, inr,
}
use ddk.Types.{Chain}
use ddk.Archive.{get_height}
use ddk.Net.{PeerState}
use ddk.Node.{World, Node, submit_block}
use ddk.Node.Requests.{
  Request, Response, get_block, block, no_block, transaction_accepted, transaction_rejected,
  peer_listen,
}

module _ {c : Chain} {A : Type 0} (w : World c A) where
  -- what the heart beat sends
  unfoldable pub announced : Node w → PeerState
  announced n = record { block_height = get_height n.archive }

  -- the request for the block above the archive's
  unfoldable pub next_request : Node w → Request w
  next_request n = get_block (add32 (get_height n.archive) 1)

  -- the response of a peer, with none if the request fails: the node, or none after a panic
  unfoldable pub take_response : Node w → Option (Response w) → Option (Node w)
  unfolding submit_block
  take_response n none = none
  take_response n (some (block header body)) = elim (submit_block w n header body) [
    | ok (n', _) ↦ some n'
    | err _ ↦ none
  ]
  take_response n (some no_block) = some n
  take_response n (some transaction_accepted) = some n
  take_response n (some transaction_rejected) = some n

  -- One peer of a round: the state that it announced, and its response to the request.
  unfoldable pub sync_peer :
      Node w → Option PeerState → (Request w → Option (Response w)) → Option (Node w)
  unfolding next_request take_response
  sync_peer n none respond = some n
  sync_peer n (some state) respond =
      if ltb (get_height n.archive) state.block_height
      then take_response n (respond (next_request n))
      else some n

  -- A peer as a round sees it: the state that it announced, and its responses.
  abbrev pub Seen : Type 0
  Seen = Option PeerState × (Request w → Option (Response w))

  -- A round over the peers.
  unfoldable pub sync_round : List Seen → Node w → Option (Node w)
  unfolding sync_peer
  sync_round [] n = some n
  sync_round ((state, respond) ∷ peers) n = elim (sync_peer n state respond) [
    | none ↦ none
    | some n' ↦ sync_round peers n'
  ]

  -- Another node as a peer: what it announces, and what it responds.
  unfoldable pub seen : Node w → Seen
  unfolding announced peer_listen
  seen peer = (some (announced peer), λ message. (peer_listen w peer 0 message).response)

  -- So many rounds with one peer, another node that stays as it is.
  unfoldable pub sync_rounds : ℕ → Node w → Node w → Option (Node w)
  unfolding sync_round seen
  sync_rounds zero peer n = some n
  sync_rounds (suc k) peer n = elim (sync_round (seen peer ∷ []) n) [
    | none ↦ none
    | some n' ↦ sync_rounds k peer n'
  ]

  -- A round with one peer is one step.
  pub sync_round-sync_peer :
      (state : Option PeerState) (respond : Request w → Option (Response w)) (n : Node w)
      → sync_round ((state, respond) ∷ []) n ≡ sync_peer n state respond
  unfolding sync_round
  sync_round-sync_peer state respond n = elim (Option-cases (sync_peer n state respond)) [
    | inl ended ↦ rw (ended, sync_round) refl
    | inr (n', taken) ↦ rw (taken, sync_round) refl
  ]

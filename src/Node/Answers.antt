-- ===== src/Node/Answers.antt =====
-- What the node answers to a peer, and what a request may change.
use ddk.Prelude.{
  ℕ, ◌≡◌, ◌≢◌, refl, arith, Bool-cases, List, [], ◌∷◌, All, ◌==◌, Result, ok, err, inl, inr,
}
use ddk.Types.{Chain}
use ddk.Mempool.{insert}
use ddk.Mempool.Consistent.{IsConsistent, insert-IsConsistent}
use ddk.Node.{World, Error, Node, validate_transaction}
use ddk.Node.Requests.{Request, get_block, push_transaction, peer_listen, other_peers}

module _ {c : Chain} {A : Type 0} (w : World c A) where
  other_peers-All : (peer : ℕ) (ps : List ℕ) → All (λ p. p ≢ peer) (other_peers w peer ps)
  unfolding other_peers
  other_peers-All peer [] = tt
  other_peers-All peer (p ∷ ps) =
      let rest = other_peers-All peer ps in
      elim (Bool-cases (p == peer)) [
        | inl same ↦ rw same rest
        | inr other ↦ rw other (ground (arith, other), rest)
      ]

  -- A request of a peer changes nothing but the pool, which stays consistent, and the peer that
  -- sends a transaction is not among those that it is pushed to.
  pub peer_listen-IsConsistent :
      (n : Node w) (peer : ℕ) (request : Request w)
      → IsConsistent n.mempool
      → let reply = peer_listen w n peer request in
        IsConsistent reply.node.mempool
        × (reply.node.state ≡ n.state)
        × (reply.node.archive ≡ n.archive)
        × All (λ p. p ≢ peer) reply.pushed
  unfolding peer_listen
  peer_listen-IsConsistent n peer (get_block height) old = (old, refl, refl, tt)
  peer_listen-IsConsistent n peer (push_transaction t) old =
      go (validate_transaction w n t) (insert w.codec n.mempool t) refl refl
    where
      go :
          (r : Result (Error w) ℕ) (q : Result ddk.Mempool.Error _)
          → validate_transaction w n t ≡ r
          → insert w.codec n.mempool t ≡ q
          → let reply = peer_listen w n peer (push_transaction t) in
            IsConsistent reply.node.mempool
            × (reply.node.state ≡ n.state)
            × (reply.node.archive ≡ n.archive)
            × All (λ p. p ≢ peer) reply.pushed
      go (err e) q e1 e2 = rw (peer_listen, e1) (old, refl, refl, tt)
      go (ok f) (err e) e1 e2 = rw (peer_listen, e1, e2) (old, refl, refl, tt)
      go (ok f) (ok pool) e1 e2 =
          rw (peer_listen, e1, e2)
            (
              insert-IsConsistent w.codec n.mempool pool t old e2,
              refl,
              refl,
              other_peers-All peer n.peers,
            )

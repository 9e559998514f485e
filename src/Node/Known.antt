-- ===== src/Node/Known.antt =====
-- A transaction that reaches the node twice, over two peers.
use ddk.Prelude.{ℕ, ◌≡◌, refl, ◌∙◌, true, none, arith, ok, err, Result-cases, inl, inr}
use mathlib.Core.Path.{subst}
use ddk.Types.{Chain, OutPoint, AuthorizedTransaction, out_point_key}
use ddk.State.{contains}
use ddk.Mempool.{Mempool, insert, utxo_double_spent}
use ddk.Mempool.Marks.{insert-again}
use ddk.Node.{World, Error, Node, validate_transaction}
use ddk.Node.Requests.{push_transaction, peer_listen}

module _ {c : Chain} {A : Type 0} (w : World c A) where
  pub validate_transaction-pool :
      (n : Node w) (pool : Mempool c A) (t : AuthorizedTransaction c A)
      → validate_transaction w (record n { mempool = pool }) t ≡ validate_transaction w n t
  unfolding validate_transaction
  validate_transaction-pool n pool t = refl

  peer_listen-added :
      (n : Node w) (peer : ℕ) (t : AuthorizedTransaction c A) {fee : ℕ} {pool : Mempool c A}
      → validate_transaction w n t ≡ ok fee
      → insert w.codec n.mempool t ≡ ok pool
      → record n { mempool = pool } ≡ (peer_listen w n peer (push_transaction t)).node
  unfolding peer_listen
  peer_listen-added n peer t valid added = rw (peer_listen, valid, added) refl

  -- What a request leaves whose transaction the pool does not take.
  abbrev Refused : Node w → ℕ → AuthorizedTransaction c A → Type 0
  Refused n other t =
      let again = peer_listen w n other (push_transaction t) in
      (again.outcome ≡ err (Error.mempool utxo_double_spent))
      × (again.response ≡ none)
      × (again.node ≡ n)

  peer_listen-Refused :
      (n : Node w) (other : ℕ) (t : AuthorizedTransaction c A) {fee : ℕ}
      → validate_transaction w n t ≡ ok fee
      → insert w.codec n.mempool t ≡ err utxo_double_spent
      → Refused n other t
  unfolding peer_listen
  peer_listen-Refused n other t valid refused = rw (peer_listen, valid, refused) (refl, refl, refl)

  -- A transaction with an input, which a request of a peer brought into the pool, fails as a
  -- request of the same or another peer: there is no response, and the error ends the task that
  -- listens to that peer.
  pub peer_listen-known :
      (n : Node w) (peer other : ℕ) (t : AuthorizedTransaction c A) (i : OutPoint)
      → contains i t.transaction.inputs ≡ true
      → (peer_listen w n peer (push_transaction t)).outcome ≡ ok tt
      → let n' = (peer_listen w n peer (push_transaction t)).node in
        let again = peer_listen w n' other (push_transaction t) in
        (again.outcome ≡ err (Error.mempool utxo_double_spent))
        × (again.response ≡ none)
        × (again.node ≡ n')
  unfolding peer_listen
  peer_listen-known n peer other t i spends h = elim (Result-cases (validate_transaction w n t)) [
    | inr (e, rejected) ↦ absurd (ground arith)
    | inl (fee, valid) ↦ elim (Result-cases (insert w.codec n.mempool t)) [
      | inr (e, refused) ↦ absurd (ground arith)
      | inl (pool, added) ↦
          subst (λ (m : Node w). Refused m other t) (peer_listen-added n peer t valid added)
            (peer_listen-Refused (record n { mempool = pool }) other t
              (validate_transaction-pool n pool t ∙ valid)
              (insert-again w.codec n.mempool pool t t i added spends spends))
    ]
  ]

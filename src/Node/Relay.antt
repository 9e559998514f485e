-- ===== src/Node/Relay.antt =====
-- A transaction that goes from node to node: `submit_transaction` and `peer_listen` of src/node.rs
-- with the calls of `Peer::request` of src/net.rs that they wait for. A request that is sent is
-- handled at the other end of the connection before its sender goes on, so that a network of nodes
-- is one table, and a request is a call. One transaction is on its way at a time, and no request
-- is longer than `READ_LIMIT`.
pub mod Keeps
pub mod Ends
pub mod Delivered
pub mod Steps
pub mod Frame
pub mod Ready
pub mod Returns
pub mod Reaches
pub mod Settled
pub mod Cycles
use ddk.Prelude.{
  ℕ, zero, suc, ◌≡◌, refl, Option, none, some, List, [], ◌∷◌, Result, ok, err, true, false, is_some,
  ◌⊎◌, inl, inr,
}
use ddk.Table.{Table, get, put, delete}
use ddk.Types.{Chain, AuthorizedTransaction, number_key}
use ddk.Node.{World, Error, Node, submit_transaction}
use ddk.Node.Requests.{
  Response, Reply, push_transaction, transaction_accepted, transaction_rejected, peer_listen,
}

-- What the sender of a request sees.
pub data Answer : Type 0 where
  accepted rejected : Answer
  -- the stream ends without a response, so that reading the response fails
  closed : Answer
  -- no task listens, so that the sender waits
  silent : Answer

-- What the loop over the peers comes to: it ends at the first request that fails, and stays at the
-- first that is not answered, so that `blocked` stands for a call that does not return. `Returns`
-- is about when that cannot be.
pub data Pushed : Type 0 where
  delivered failed blocked : Pushed

-- what reading the response makes of it
unfoldable pub push_outcome : Answer → Pushed
push_outcome accepted = delivered
push_outcome rejected = delivered
push_outcome closed = failed
push_outcome silent = blocked

pub Pushed-cases : (o : Pushed) → (o ≡ delivered) ⊎ (o ≡ failed) ⊎ (o ≡ blocked)
Pushed-cases delivered = inl refl
Pushed-cases failed = inr (inl refl)
Pushed-cases blocked = inr (inr refl)

module _ {c : Chain} {A : Type 0} (w : World c A) where
  -- A node in a network: where its connections lead, as a node's number and the connection's id
  -- there, and the connections on which a task waits for a request.
  pub record Member : Type 0 where
    pub node : Node w
    pub ends : Table ℕ (ℕ × ℕ)
    pub listening : Table ℕ (Unit {0})

  abbrev pub Network : Type 0
  Network = Table ℕ Member

  -- the answer of a request that pushes a transaction, when all its own requests are answered
  unfoldable pub answer : Option (Response w) → Answer
  answer (some transaction_accepted) = accepted
  answer (some transaction_rejected) = rejected
  answer _ = closed

  -- the task of a connection waits for its next request
  unfoldable pub resume : ℕ → ℕ → Network → Network
  resume k id net = elim (get k net) [
    | none ↦ net
    | some m ↦ put k (record m { listening = put id tt m.listening }) net
  ]

  -- the task of a connection takes a request, and the node is what the handler makes of it
  abbrev pub busy : Member → ℕ → Node w → Member
  busy m id n = record { node = n; ends = m.ends; listening = delete id m.listening }

  -- the loop over the peers of `submit_transaction` and `peer_listen`, with the handling of a
  -- request at the other end
  unfoldable pub push_all :
      (Network → ℕ → ℕ → Option (Answer × Network))
      → Table ℕ (ℕ × ℕ)
      → List ℕ
      → Network
      → Option (Pushed × Network)
  unfolding push_outcome
  push_all send ends [] net = some (delivered, net)
  push_all send ends (p ∷ ps) net = elim (get p ends) [
    | none ↦ some (failed, net)
    | some (k, id) ↦ elim (send net k id) [
      | none ↦ none
      | some (a, net') ↦ elim (push_outcome a) [
        | delivered ↦ push_all send ends ps net'
        | failed ↦ some (failed, net')
        | blocked ↦ some (blocked, net')
      ]
    ]
  ]

  -- what the loop over the peers leaves of a request: its task goes on only after a response
  unfoldable pub finish : ℕ → ℕ → Answer → Pushed × Network → Answer × Network
  unfolding resume
  finish k id a (delivered, net) = (a, resume k id net)
  finish k id a (failed, net) = (closed, net)
  finish k id a (blocked, net) = (silent, net)

  -- A request at the connection `id` of the node `k`. It fails at a node that is not there, and
  -- waits where no task listens. On fuel: `Ends` shows how much is enough.
  unfoldable pub deliver :
      AuthorizedTransaction c A → ℕ → Network → ℕ → ℕ → Option (Answer × Network)
  unfolding answer push_all finish
  deliver t zero net k id = none
  deliver t (suc fuel) net k id = elim (get k net) [
    | none ↦ some (closed, net)
    | some m ↦ elim (is_some (get id m.listening)) [
      | false ↦ some (silent, net)
      | true ↦
          let reply = peer_listen w m.node id (push_transaction t) in
          let net' = put k (busy m id reply.node) net in
          elim reply.outcome [
            | err _ ↦ some (answer reply.response, net')
            | ok _ ↦ elim (push_all (deliver t fuel) m.ends reply.pushed net') [
              | none ↦ none
              | some pushed ↦ some (finish k id (answer reply.response) pushed)
            ]
          ]
    ]
  ]

  -- `submit_transaction` at the node `k`, which is `m`, with the requests that it sends
  -- `ok failed` is a call that returns the error of a request, and `ok blocked` one that never
  -- returns
  unfoldable pub submit :
      AuthorizedTransaction c A
      → ℕ
      → Network
      → ℕ
      → Member
      → Option (Result (Error w) Pushed × Network)
  unfolding push_all deliver
  submit t fuel net k m = elim (submit_transaction w m.node t) [
    | err e ↦ some (err e, net)
    | ok (n, ps) ↦ elim (push_all (deliver t fuel) m.ends ps (put k (record m { node = n }) net)) [
      | none ↦ none
      | some (pushed, net') ↦ some (ok pushed, net')
    ]
  ]

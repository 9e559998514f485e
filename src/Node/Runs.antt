-- ===== src/Node/Runs.antt =====
-- The life of a node: any sequence of submissions, requests of peers and block templates, in any
-- order, as the tasks of src/node.rs interleave them. Each runs in database transactions of its
-- own, so that an operation is one step; one that fails leaves the node as it was.
use ddk.Prelude.{ℕ, ◌+◌, List, [], ◌∷◌, ok, err}
use ddk.Types.{Chain, AuthorizedTransaction, Body, Header}
use ddk.Types.Withdrawals.{TwoWayPegData}
use ddk.State.Supply.{supply}
use ddk.Node.{World, Node, submit_transaction, apply_block, get_transactions}
use ddk.Node.Requests.{Request, peer_listen}

module _ {c : Chain} {A : Type 0} (w : World c A) where
  pub data Event : Type 0 where
    -- `submit_transaction`
    transaction : AuthorizedTransaction c A → Event
    -- `submit_block`, with what the mainchain answers at that time
    new_block : TwoWayPegData c → Header → Body c A → Event
    -- `get_transactions`
    template : ℕ → Event
    -- `peer_listen`, with the peer
    request : ℕ → Request w → Event

  unfoldable pub handle : Node w → Event → Node w
  handle n (transaction t) = elim (submit_transaction w n t) [ ok (n', _) ↦ n' | err _ ↦ n ]
  handle n (new_block data' header body) = elim (apply_block w n data' header body) [
    | ok n' ↦ n'
    | err _ ↦ n
  ]
  handle n (template number) = elim (get_transactions w n number) [ ok (n', _) ↦ n' | err _ ↦ n ]
  handle n (request peer message) = (peer_listen w n peer message).node

  unfoldable pub run : Node w → List Event → Node w
  unfolding handle
  run n [] = n
  run n (e ∷ es) = run (handle n e) es

  -- Whether a block is accepted, and the value of the deposits that come with it.
  unfoldable pub accepted_by : Node w → Event → ℕ
  accepted_by n (transaction t) = 0
  accepted_by n (new_block data' header body) = elim (apply_block w n data' header body) [
    | ok _ ↦ 1
    | err _ ↦ 0
  ]
  accepted_by n (template number) = 0
  accepted_by n (request peer message) = 0

  unfoldable pub deposited_by : Node w → Event → ℕ
  deposited_by n (transaction t) = 0
  deposited_by n (new_block data' header body) = elim (apply_block w n data' header body) [
    | ok _ ↦ supply data'.deposits
    | err _ ↦ 0
  ]
  deposited_by n (template number) = 0
  deposited_by n (request peer message) = 0

  -- The same over a run.
  unfoldable pub accepted : Node w → List Event → ℕ
  unfolding accepted_by handle
  accepted n [] = 0
  accepted n (e ∷ es) = accepted_by n e + accepted (handle n e) es

  unfoldable pub deposited : Node w → List Event → ℕ
  unfolding deposited_by handle
  deposited n [] = 0
  deposited n (e ∷ es) = deposited_by n e + deposited (handle n e) es

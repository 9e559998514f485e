-- ===== src/Node/Backed.antt =====
-- Over the life of a node, its coins are backed by the deposits from the mainchain.
use ddk.Prelude.{ℕ, ◌+◌, ◌≤◌, ◌<◌, ◌≡◌, ap, All, arith, u64_mod}
use ddk.Table.Unique.{UniqueKeys}
use ddk.Types.{Chain, Body, Header}
use ddk.Types.Withdrawals.{TwoWayPegData}
use ddk.State.{State, connect_body}
use ddk.State.Validate.{value_of}
use ddk.State.Supply.{supply, supply-connect_body}
use ddk.State.Backing.{held, backing, connect_two_way_peg_data-backing}
use ddk.State.Once.{connect_body-UniqueKeys, connect_body-pending}
use ddk.State.Bundle.Weight.{SortLaw}
use ddk.Node.{World, Node}
use ddk.Node.Blocks.{Applied}
use ddk.Node.Runs.{Event, transaction, new_block, template, request}

module _ {c : Chain} {A : Type 0} (w : World c A) where
  -- The outputs of a block fit 64 bits: those of its coinbase together, and those of each of its
  -- transactions together.
  abbrev pub Bounded : Event w → Type 0
  Bounded (transaction t) = Unit
  Bounded (new_block data' header body) =
      (value_of body.coinbase < u64_mod) × All (λ t. value_of t.outputs < u64_mod) body.transactions
  Bounded (template number) = Unit
  Bounded (request peer message) = Unit

  -- A step that gains at most `gain`, and keeps outpoints unique.
  abbrev pub Gains : ℕ → Node w → Node w → Type 0
  Gains gain n n' = (backing n'.state ≤ backing n.state + gain) × UniqueKeys n'.state.utxos

  pub Applied-Gains :
      (n n' : Node w) (data' : TwoWayPegData c) (header : Header) (body : Body c A)
      → SortLaw w.bitcoin
      → UniqueKeys n.state.utxos
      → backing n.state < u64_mod
      → Bounded (new_block data' header body)
      → Applied w n data' header body n'
      → Gains (supply data'.deposits) n n'
  Applied-Gains n n' data' header body sorts u fits b a =
      let s = connect_body w.codec n.state body in
      let (_, _, kept) =
        supply-connect_body w.codec w.verify n.state body a.accepted (omega arith) b.0 b.1 in
      let same_held : held s.pending_withdrawal_bundle ≡ held n.state.pending_withdrawal_bundle =
        ap held (connect_body-pending w.codec n.state body) in
      let (gained, u') =
        connect_two_way_peg_data-backing w.bitcoin sorts w.codec s n'.state data' _
          (connect_body-UniqueKeys w.codec n.state body u) a.pegged in
      (omega arith, u')

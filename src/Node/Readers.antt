-- ===== src/Node/Readers.antt =====
-- What the node of src/node.rs reads from its parts.
use ddk.Prelude.{ℕ, Option, List}
use ddk.Table.{Table}
use ddk.Types.{Chain, OutPoint, Output, Address, Header, Body, Hash}
use ddk.Types.Withdrawals.{WithdrawalBundle}
use ddk.State
use ddk.Archive
use ddk.Node.{World, Node}

module _ {c : Chain} {A : Type 0} (w : World c A) where
  unfoldable pub get_height : Node w → ℕ
  unfolding ddk.Archive.get_height
  get_height n = ddk.Archive.get_height n.archive

  unfoldable pub get_best_hash : Node w → Hash
  unfolding ddk.Archive.get_best_hash
  get_best_hash n = ddk.Archive.get_best_hash w.codec n.archive

  unfoldable pub get_utxos_by_addresses : Node w → List Address → Table OutPoint (Output c)
  unfolding ddk.State.get_utxos_by_addresses
  get_utxos_by_addresses n addresses = ddk.State.get_utxos_by_addresses n.state addresses

  unfoldable pub get_header : Node w → ℕ → Option Header
  unfolding ddk.Archive.get_header
  get_header n height = ddk.Archive.get_header n.archive height

  unfoldable pub get_body : Node w → ℕ → Option (Body c A)
  unfolding ddk.Archive.get_body
  get_body n height = ddk.Archive.get_body n.archive height

  unfoldable pub get_pending_withdrawal_bundle : Node w → Option (WithdrawalBundle c)
  unfolding ddk.State.get_pending_withdrawal_bundle
  get_pending_withdrawal_bundle n = ddk.State.get_pending_withdrawal_bundle n.state

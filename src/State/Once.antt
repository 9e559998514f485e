-- ===== src/State/Once.antt =====
-- Connecting a body keeps outpoints unique, and leaves the pending bundle.
use ddk.Prelude.{◌≡◌, refl, List, [], ◌∷◌}
use ddk.Table.{Table, delete_all}
use ddk.Table.Unique.{UniqueKeys, put_all-UniqueKeys, delete_all-UniqueKeys}
use ddk.Types.{Chain, Codec, OutPoint, Output, Transaction, Body, out_point_key}
use ddk.Types.Blocks.{transaction_entries, coinbase_entries}
use ddk.State.{State, connect_body, connect_transactions}

module _ {c : Chain} (codec : Codec c) where
  connect_transactions-UniqueKeys :
      (ts : List (Transaction c)) (utxos : Table OutPoint (Output c))
      → UniqueKeys utxos
      → UniqueKeys (connect_transactions codec ts utxos)
  unfolding connect_transactions
  connect_transactions-UniqueKeys [] utxos u = u
  connect_transactions-UniqueKeys (t ∷ ts) utxos u = connect_transactions-UniqueKeys ts _ (
      put_all-UniqueKeys (transaction_entries codec t) (delete_all t.inputs utxos)
        (delete_all-UniqueKeys t.inputs utxos u))

  pub connect_body-UniqueKeys :
      {A : Type 0} (s : State c) (b : Body c A)
      → UniqueKeys s.utxos
      → UniqueKeys (connect_body codec s b).utxos
  unfolding connect_body
  connect_body-UniqueKeys s b u =
      connect_transactions-UniqueKeys b.transactions _
        (put_all-UniqueKeys (coinbase_entries codec b) s.utxos u)

  pub connect_body-pending :
      {A : Type 0} (s : State c) (b : Body c A)
      → (connect_body codec s b).pending_withdrawal_bundle ≡ s.pending_withdrawal_bundle
  unfolding connect_body
  connect_body-pending s b = refl

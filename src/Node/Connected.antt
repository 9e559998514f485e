-- ===== src/Node/Connected.antt =====
-- The node on its connection to the mainchain: what a block that is accepted may add to its coins.
use ddk.Prelude.{◌+◌, ◌≤◌, ◌<◌, ◌≡◌, arith, All, List, Option, some, ok, u64_mod}
use ddk.Table.Unique.{UniqueKeys}
use ddk.Types.{Chain, Body, Header}
use ddk.Types.Withdrawals.{MainTransaction}
use ddk.State.Validate.{value_of}
use ddk.State.Backing.{backing}
use ddk.State.Bundle.Weight.{SortLaw}
use ddk.Drivechain
use ddk.Drivechain.Client
use ddk.Drivechain.Client.{Crates}
use ddk.Drivechain.Calls
use ddk.Drivechain.Credit.{rises}
use ddk.Drivechain.Decode.{decode_deposits, get_two_way_peg_data-supply}
use ddk.Node.{World, Node, submit_block}
use ddk.Node.Blocks.{submit_block-Applied}
use ddk.Node.Backed.{Applied-Gains}

module _ {c : Chain} {A : Type 0} (w : World c A) (x : Crates) (d : Calls.Drivechain x) where
  -- The node's surroundings, with the mainchain's data from the connection.
  abbrev pub connected : World c A
  connected = record {
    verify = w.verify;
    codec = w.codec;
    bitcoin = w.bitcoin;
    custom = w.custom;
    DrivechainError = Calls.Error x;
    get_two_way_peg_data = Calls.get_two_way_peg_data x d;
  }

  -- If sorting permutes, outpoints are unique, the value of all coins fits 64 bits, and so do the
  -- outputs of the block, then a block that `submit_block` accepts adds to the unspent outputs and
  -- the pending bundle together at most the increases of the total that the deposits which the
  -- mainchain lists held, without that at the last deposit block.
  pub submit_block-backing :
      (n n' : Node connected) (header : Header) (body : Body c A) {out : Option (MainTransaction c)}
      → SortLaw w.bitcoin
      → UniqueKeys n.state.utxos
      → backing n.state < u64_mod
      → value_of body.coinbase < u64_mod
      → All (λ t. value_of t.outputs < u64_mod) body.transactions
      → submit_block connected n header body ≡ ok (n', out)
      → (listed : List Client.Deposit) × (decoded : List ddk.Drivechain.Deposit)
        × (d.client.listsidechaindepositsbyblock d.sidechain_number
              (some header.prev_main_hash)
              n.state.last_deposit_block
            ≡ ok listed)
        × (decode_deposits x listed ≡ ok decoded)
        × (backing n'.state ≤ backing n.state + rises n.state.last_deposit_block 0 decoded)
  submit_block-backing n n' header body sorts unique fits coinbase outputs h =
      let (data', told, applied) = submit_block-Applied connected n n' header body h in
      let (listed, decoded, lists, decodes, bound) =
        get_two_way_peg_data-supply x d header.prev_main_hash n.state.last_deposit_block told in
      let (gained, unique') =
        Applied-Gains connected n n' data' header body sorts unique fits (coinbase, outputs)
          applied in
      (listed, decoded, lists, decodes, omega (arith, gained, bound))

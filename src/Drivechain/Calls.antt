-- ===== src/Drivechain/Calls.antt =====
-- The connection to the mainchain, src/drivechain/mod.rs: its calls of the JSON interface, with
-- the errors of each. A panic of the program is the failure `panicked`.
use ddk.Prelude.{
  ℕ, zero, suc, ◌-◌, ◌%◌, ltb, Option, none, some, List, [], ◌∷◌, if◌then◌else◌, u32_mod, Result,
  ok, err, ok_or, ◌>>=◌, map_err,
}
use ddk.Table.{Table, put}
use ddk.Types.{Chain, Codec, OutPoint, Output, value, Header, Hash, header_hash, out_point_key}
use ddk.Types.Text.{from_str}
use ddk.Types.Withdrawals.{WithdrawalBundleStatus, TwoWayPegData}
use ddk.Drivechain.{Deposits, is_start, get_withdrawal_bundle_statuses as merge_statuses}
use ddk.Drivechain.Client
use ddk.Drivechain.Client.{Crates, Main, Block}

-- `transaction.output[nburnindex].value`
unfoldable pub get_elem? : List ℕ → ℕ → Option ℕ
get_elem? [] i = none
get_elem? (v ∷ vs) zero = some v
get_elem? (v ∷ vs) (suc i) = get_elem? vs i

module _ (x : Crates) where
  -- `Error`, where a call may return it
  pub data Error : Type 0 where
    jsonrpsee : x.Jsonrpsee → Error
    bitcoin_consensus_encode : x.EncodeError → Error
    bitcoin_hex : x.HashError → Error
    hex : x.HexError → Error
    no_next_block : Hash → Error
    panicked : Error

  pub record Drivechain : Type 0 where
    pub sidechain_number : ℕ
    pub client : Main x

  -- `self.client.method().await?`
  unfoldable pub call : {B : Type 0} → Result x.Jsonrpsee B → Result Error B
  call answer = map_err Error.jsonrpsee answer

  -- `verify_bmm`
  unfoldable pub verify_bmm : {c : Chain} → Codec c → Drivechain → Header → Result Error (Unit {0})
  unfolding call header_hash
  verify_bmm codec d header = do
    main_block ← call (d.client.getblock header.prev_main_hash none)
    block_hash ← ok_or main_block.nextblockhash (Error.no_next_block header.prev_main_hash)
    answer ← call (d.client.verifybmm block_hash (header_hash codec header) d.sidechain_number)
    ok tt

  -- `get_mainchain_tip`
  unfoldable pub get_mainchain_tip : Drivechain → Result Error Hash
  unfolding call
  get_mainchain_tip d = call d.client.getbestblockhash

  -- `broadcast_withdrawal_bundle`
  unfoldable pub broadcast_withdrawal_bundle :
      Drivechain → x.MainTransaction → Result Error (Unit {0})
  unfolding call
  broadcast_withdrawal_bundle d transaction = do
    let rawtx = x.hex_encode (x.consensus_encode transaction)
    answer ← call (d.client.receivewithdrawalbundle d.sidechain_number rawtx)
    ok tt

  module _ {c : Chain} where
    -- `if let Ok(address) = deposit.strdest.parse()`, and what it inserts
    unfoldable pub insert_output :
        Client.Deposit → Hash → ℕ → Table OutPoint (Output c) → Table OutPoint (Output c)
    unfolding from_str
    insert_output d txid amount outputs = elim (from_str x.base58 d.strdest) [
      | err _ ↦ outputs
      | ok address ↦
          put (OutPoint.deposit (record { txid = txid; vout = d.nburnindex % u32_mod }))
            (record { address = address; content = value amount }) outputs
    ]

    -- the loop of `get_deposit_outputs`
    unfoldable pub walk : Option Hash → List Client.Deposit → Deposits c → Result Error (Deposits c)
    unfolding is_start insert_output get_elem?
    walk start [] found = ok found
    walk start (d ∷ ds) found = do
      bytes ← map_err Error.hex (x.hex_decode d.txhex)
      transaction ← map_err Error.bitcoin_consensus_encode (x.consensus_decode bytes)
      total ← ok_or (get_elem? (x.output_values transaction) d.nburnindex) Error.panicked
      let skipped = walk start ds (record found { last_total = total })
      let taken = walk start ds (record {
        last_block_hash = some d.hashblock;
        last_total = total;
        outputs = insert_output d (x.txid transaction) (total - found.last_total) found.outputs;
      })
      (if is_start start d.hashblock
          then skipped
          else (if ltb total found.last_total then skipped else taken))

    -- `get_deposit_outputs`
    unfoldable pub get_deposit_outputs : Drivechain → Hash → Option Hash → Result Error (Deposits c)
    unfolding call walk
    get_deposit_outputs d end start = do
      deposits ← call (d.client.listsidechaindepositsbyblock d.sidechain_number (some end) start)
      walk start deposits (record { last_block_hash = none; last_total = 0; outputs = [] })

  -- `get_withdrawal_bundle_statuses`
  unfoldable pub get_withdrawal_bundle_statuses :
      Drivechain → Result Error (Table Hash WithdrawalBundleStatus)
  unfolding call merge_statuses
  get_withdrawal_bundle_statuses d = do
    spent ← call d.client.listspentwithdrawals
    failures ← call d.client.listfailedwithdrawals
    ok (merge_statuses d.sidechain_number spent failures)

  -- `get_two_way_peg_data`
  unfoldable pub get_two_way_peg_data :
      {c : Chain} → Drivechain → Hash → Option Hash → Result Error (TwoWayPegData c)
  unfolding get_deposit_outputs get_withdrawal_bundle_statuses
  get_two_way_peg_data d end start = do
    found ← get_deposit_outputs d end start
    statuses ← get_withdrawal_bundle_statuses d
    ok (record {
      deposits = found.outputs;
      deposit_block_hash = found.last_block_hash;
      bundle_statuses = statuses;
    })

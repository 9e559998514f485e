-- ===== src/State/Bundle.antt =====
-- `collect_withdrawal_bundle` of src/state.rs: the withdrawals among the unspent outputs, by
-- destination, as a mainchain transaction. The order in which a `HashMap` or the database is
-- walked is that of the table; nothing below depends on it.
pub mod Weight
pub mod Sound
pub mod Payout
use ddk.Prelude.{
  ℕ, ◌+◌, ◌-◌, ◌/◌, Bool, true, false, Option, none, some, List, [], ◌∷◌, ◌++◌, map, length, ltb,
  if◌then◌else◌, add64, Result, ok, err, ◌>>=◌, ◌>>◌, fail_if, unwrap_or, le_bytes,
}
use ddk.Table.{Key, Table, get, put, put_all, keys}
use ddk.Types.{
  Chain, Codec, OutPoint, regular, Output, Content, custom, value, withdrawal, Hash, out_point_key,
}
use ddk.Types.Withdrawals.{
  TxOut, MainTransaction, WithdrawalBundle, AggregatedWithdrawal, Comparisons, cmp,
}
use ddk.State.{Error, bundle_too_heavy}
use Prim.Native.Nat.{Ordering}
use mathlib.Core.List.{reverse}

-- The `bitcoin` crate and `slice::sort_by_key`.
pub record Bitcoin (c : Chain) : Type 0 where
  pub address_key : Key c.MainAddress
  -- `payload.script_pubkey()`
  pub script_pubkey : c.MainAddress → c.Script
  -- the script of the one opcode OP_FALSE
  pub op_false : c.Script
  -- the script of OP_RETURN and a slice of bytes
  pub op_return : List ℕ → c.Script
  -- `transaction.weight().to_wu()`
  pub weight : MainTransaction c → ℕ
  pub max_standard_tx_weight : ℕ
  -- `transaction.txid()`
  pub main_txid : MainTransaction c → Hash
  pub comparisons : Comparisons c
  -- sorts by a comparison
  pub sort_by :
      (AggregatedWithdrawal c → AggregatedWithdrawal c → Ordering)
      → List (AggregatedWithdrawal c)
      → List (AggregatedWithdrawal c)

abbrev pub bundle_0_weight : ℕ
bundle_0_weight = 504

abbrev pub output_weight : ℕ
output_weight = 128

-- The 32 bytes of a hash, most significant first.
pub hash_bytes : Hash → List ℕ
hash_bytes h = reverse (le_bytes 32 h)

-- The variables of the loop over the destinations.
pub record Parts (c : Chain) : Type 0 where
  pub fee : ℕ
  pub spent_utxos : Table OutPoint (Output c)
  pub bundle_outputs : List (TxOut c)

module _ {c : Chain} (btc : Bitcoin c) where
  abbrev pub max_bundle_outputs : ℕ
  max_bundle_outputs = (btc.max_standard_tx_weight - bundle_0_weight) / output_weight

  abbrev pub Destinations : Type 0
  Destinations = Table c.MainAddress (AggregatedWithdrawal c)

  abbrev pub new_aggregate : c.MainAddress → AggregatedWithdrawal c
  new_aggregate a = record { spent_utxos = []; main_address = a; value = 0; main_fee = 0 }

  -- one withdrawal is added to that of its destination
  unfoldable pub add_withdrawal :
      OutPoint → Output c → ℕ → ℕ → AggregatedWithdrawal c → AggregatedWithdrawal c
  add_withdrawal p o v fee a = record a {
    value = add64 a.value v;
    main_fee = if ltb a.main_fee fee then fee else a.main_fee;
    spent_utxos = put p o a.spent_utxos;
  }

  unfoldable pub aggregate_content : OutPoint → Output c → Content c → Destinations → Destinations
  unfolding add_withdrawal
  aggregate_content p o (custom _) m = m
  aggregate_content p o (value _) m = m
  aggregate_content p o (withdrawal v fee address) m =
      put ⦃e = btc.address_key⦄ address
        (add_withdrawal p o v fee
          (unwrap_or (get ⦃e = btc.address_key⦄ address m) (new_aggregate address)))
        m

  -- the loop over the unspent outputs
  unfoldable pub aggregate : List (OutPoint × Output c) → Destinations → Destinations
  unfolding aggregate_content
  aggregate [] m = m
  aggregate ((p, o) ∷ rest) m = aggregate rest (aggregate_content p o o.content m)

  -- the loop over the destinations
  unfoldable pub fill_parts : List (AggregatedWithdrawal c) → Parts c → Parts c
  fill_parts [] parts = parts
  fill_parts (a ∷ rest) parts =
      let more = fill_parts rest (record {
        fee = add64 parts.fee a.main_fee;
        spent_utxos = put_all a.spent_utxos parts.spent_utxos;
        bundle_outputs =
            parts.bundle_outputs
            ++ record { value = a.value; script_pubkey = btc.script_pubkey a.main_address } ∷ [];
      }) in
      if ltb max_bundle_outputs (length parts.bundle_outputs) then parts else more

  abbrev pub no_parts : Parts c
  no_parts = record { fee = 0; spent_utxos = []; bundle_outputs = [] }

  -- the mainchain transaction of the bundle: a return destination, the fee, a commitment to the
  -- inputs and the height, and the payments
  unfoldable pub bundle_transaction : Codec c → Parts c → ℕ → MainTransaction c
  unfolding hash_bytes
  bundle_transaction codec parts block_height =
      let inputs = keys parts.spent_utxos ++ regular 0 block_height ∷ [] in
      let commitment = codec.blake3 (codec.serialize_out_points inputs) in
      record {
        version = 2;
        lock_time = 0;
        script_sig = btc.op_false;
        output =
            record { value = 0; script_pubkey = btc.op_return (68 ∷ []) }
            ∷ record { value = 0; script_pubkey = btc.op_return (le_bytes 8 parts.fee) }
            ∷ record { value = 0; script_pubkey = btc.op_return (hash_bytes commitment) }
            ∷ parts.bundle_outputs;
      }

  -- the destinations, in the order in which they are served
  unfoldable pub served : Destinations → List (AggregatedWithdrawal c)
  served m = btc.sort_by (λ a b. cmp btc.comparisons b a) (map (λ e. e.1) m)

  unfoldable pub bundle_of : Codec c → Destinations → ℕ → Result Error (Option (WithdrawalBundle c))
  unfolding fill_parts bundle_transaction served
  bundle_of codec [] block_height = ok none
  bundle_of codec (e ∷ m) block_height = do
    let parts = fill_parts (served (e ∷ m)) no_parts
    let transaction = bundle_transaction codec parts block_height
    let weight = btc.weight transaction
    fail_if (ltb btc.max_standard_tx_weight weight)
        (bundle_too_heavy weight btc.max_standard_tx_weight)
    ok (some (record { spent_utxos = parts.spent_utxos; transaction = transaction }))

  -- `State::collect_withdrawal_bundle`
  unfoldable pub collect_withdrawal_bundle :
      Codec c → Table OutPoint (Output c) → ℕ → Result Error (Option (WithdrawalBundle c))
  unfolding aggregate bundle_of
  collect_withdrawal_bundle codec utxos block_height =
      bundle_of codec (aggregate utxos []) block_height

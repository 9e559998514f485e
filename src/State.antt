-- ===== src/State.antt =====
-- The ledger of src/state.rs: validation of transactions and blocks, and the state transition of
-- a block's body. A single-row database (key 0) is an `Option`. What heed itself may fail with
-- (`Error::Heed`) is not modelled: every read and write of the databases succeeds.
pub mod Fill
pub mod Fresh
pub mod Validate
pub mod Supply
pub mod Overflow
pub mod Owners
pub mod Effect
pub mod Bundle
pub mod Peg
pub mod Backing
pub mod Once
use ddk.Prelude.{
  ℕ, Bool, true, false, Option, none, some, List, [], ◌∷◌, ◌++◌, map, not, if◌then◌else◌, ltb,
  add64, ◌-◌, Result, ok, err, ◌>>=◌, ◌>>◌, ok_or, fail_if, sum64_from,
}
use ddk.Table.{Key, Table, get, put, put_all, delete_all}
use ddk.Types.{
  Chain, Codec, Verify, OutPoint, Output, Transaction, FilledTransaction, Body, Hash, Address,
  out_point_key, number_key, get_value,
}
use ddk.Types.Blocks.{transaction_entries, coinbase_entries}
use ddk.Types.Withdrawals.{WithdrawalBundle}
use mathlib.Core.Logic.{ite}

pub data Error : Type 0 where
  authorization_error : Error
  no_utxo : OutPoint → Error
  not_enough_value_in : Error
  not_enough_fees : Error
  utxo_double_spent : Error
  wrong_pub_key_for_address : Error
  -- weight, max_weight
  bundle_too_heavy : ℕ → ℕ → Error

pub record State (c : Chain) : Type 0 where
  pub utxos : Table OutPoint (Output c)
  pub pending_withdrawal_bundle : Option (WithdrawalBundle c)
  pub last_withdrawal_bundle_failure_height : Option ℕ
  pub last_deposit_block : Option Hash

-- `HashSet::contains`
unfoldable pub contains : {K : Type 0} ⦃e : Key K⦄ → K → List K → Bool
contains k [] = false
contains ⦃e⦄ k (j ∷ js) = ite (e.discrete k j) true (contains k js)

-- A loop of `State::validate_body`: an input must not be among those that are spent already.
unfoldable pub check_inputs : List OutPoint → List OutPoint → Result Error (List OutPoint)
unfolding contains
check_inputs spent [] = ok spent
check_inputs spent (i ∷ is) =
    if contains i spent then err utxo_double_spent else check_inputs (i ∷ spent) is

module _ {c : Chain} where
  -- `State::get_utxos`: the entries, in a new map
  unfoldable pub get_utxos : State c → Table OutPoint (Output c)
  get_utxos s = put_all s.utxos []

  -- the loop of `State::get_utxos_by_addresses`
  unfoldable pub select_by_addresses :
      List Address
      → List (OutPoint × Output c)
      → Table OutPoint (Output c)
      → Table OutPoint (Output c)
  select_by_addresses addresses [] found = found
  select_by_addresses addresses ((p, o) ∷ rest) found =
      select_by_addresses addresses rest
        (if contains o.address addresses then put p o found else found)

  unfoldable pub get_utxos_by_addresses : State c → List Address → Table OutPoint (Output c)
  unfolding select_by_addresses
  get_utxos_by_addresses s addresses = select_by_addresses addresses s.utxos []

  unfoldable pub get_pending_withdrawal_bundle : State c → Option (WithdrawalBundle c)
  get_pending_withdrawal_bundle s = s.pending_withdrawal_bundle

  unfoldable pub get_last_deposit_block_hash : State c → Option Hash
  get_last_deposit_block_hash s = s.last_deposit_block

  -- the loop of `State::fill_transaction`
  unfoldable pub fill_inputs :
      Table OutPoint (Output c) → List OutPoint → Result Error (List (Output c))
  fill_inputs utxos [] = ok []
  fill_inputs utxos (i ∷ is) = do
    utxo ← ok_or (get i utxos) (no_utxo i)
    spent ← fill_inputs utxos is
    ok (utxo ∷ spent)

  -- `State::fill_transaction`
  unfoldable pub fill_transaction : State c → Transaction c → Result Error (FilledTransaction c)
  unfolding fill_inputs
  fill_transaction s t = do
    spent ← fill_inputs s.utxos t.inputs
    ok (record { transaction = t; spent_utxos = spent })

  -- `State::validate_filled_transaction`
  unfoldable pub validate_filled_transaction : FilledTransaction c → Result Error ℕ
  unfolding sum64_from
  validate_filled_transaction t =
      let value_in = sum64_from 0 (map get_value t.spent_utxos) in
      let value_out = sum64_from 0 (map get_value t.transaction.outputs) in
      if ltb value_in value_out then err not_enough_value_in else ok (value_in - value_out)

  -- The other loops of `State::validate_body`: the transactions are filled,
  unfoldable pub fill_transactions :
      State c → List (Transaction c) → Result Error (List (FilledTransaction c))
  fill_transactions s [] = ok []
  fill_transactions s (t ∷ ts) = do
    filled ← fill_transaction s t
    rest ← fill_transactions s ts
    ok (filled ∷ rest)

  -- their inputs are checked and their fees are added up,
  unfoldable pub check_transactions :
      List OutPoint → ℕ → List (FilledTransaction c) → Result Error ℕ
  unfolding check_inputs validate_filled_transaction
  check_transactions spent total_fees [] = ok total_fees
  check_transactions spent total_fees (t ∷ ts) = do
    spent' ← check_inputs spent t.transaction.inputs
    fee ← validate_filled_transaction t
    check_transactions spent' (add64 total_fees fee) ts

  unfoldable pub all_spent_utxos : List (FilledTransaction c) → List (Output c)
  all_spent_utxos [] = []
  all_spent_utxos (t ∷ ts) = t.spent_utxos ++ all_spent_utxos ts

module _ {c : Chain} {A : Type 0} (verify : Verify c A) where
  -- and the authorizations are compared with the spent outputs, as far as both lists go.
  unfoldable pub check_addresses : List A → List (Output c) → Result Error (Unit {0})
  check_addresses [] utxos = ok tt
  check_addresses (a ∷ rest) [] = ok tt
  check_addresses (a ∷ rest) (o ∷ os) =
      ite (number_key.discrete (verify.get_address a) o.address) (check_addresses rest os)
        (err wrong_pub_key_for_address)

  -- `State::validate_body`
  unfoldable pub validate_body : State c → Body c A → Result Error ℕ
  unfolding fill_transactions check_transactions all_spent_utxos check_addresses sum64_from
  validate_body s b = do
    let coinbase_value = sum64_from 0 (map get_value b.coinbase)
    filled ← fill_transactions s b.transactions
    total_fees ← check_transactions [] 0 filled
    fail_if (ltb total_fees coinbase_value) not_enough_fees
    check_addresses b.authorizations (all_spent_utxos filled)
    fail_if (not (verify.verify_body b)) authorization_error
    ok total_fees

module _ {c : Chain} (codec : Codec c) where
  -- the loop of `State::connect_body` over the transactions
  unfoldable pub connect_transactions :
      List (Transaction c) → Table OutPoint (Output c) → Table OutPoint (Output c)
  connect_transactions [] utxos = utxos
  connect_transactions (t ∷ ts) utxos =
      connect_transactions ts (put_all (transaction_entries codec t) (delete_all t.inputs utxos))

  -- `State::connect_body`
  unfoldable pub connect_body : {A : Type 0} → State c → Body c A → State c
  unfolding connect_transactions
  connect_body s b = record s {
    utxos = connect_transactions b.transactions (put_all (coinbase_entries codec b) s.utxos);
  }

-- ===== src/Drivechain.antt =====
-- What the connection to the mainchain, src/drivechain/mod.rs, makes of the reports on withdrawal
-- bundles, and of deposits that are decoded. Drivechain/Client.antt is the JSON interface,
-- Drivechain/Calls.antt the connection's calls of it, which decode as they go.
pub mod Credit
pub mod Client
pub mod Calls
pub mod Decode
use ddk.Prelude.{
  ℕ, ◌-◌, ◌==◌, ltb, Bool, true, false, Option, none, some, List, [], ◌∷◌, if◌then◌else◌, u32_mod,
  ◌%◌,
}
use ddk.Table.{Table, put}
use ddk.Types.{
  Chain, OutPoint, MainOutPoint, deposit, Output, value, Address, Hash, out_point_key, number_key,
}
use ddk.Types.Withdrawals.{WithdrawalBundleStatus, failed, confirmed}

-- A deposit with its transaction decoded: the transaction's id, and the value of its output
-- number `nburnindex`, the total held by the sidechain after the deposit.
pub record Deposit : Type 0 where
  pub hashblock : Hash
  pub nburnindex : ℕ
  pub txid : Hash
  pub total : ℕ
  -- `strdest.parse()`
  pub address : Option Address

pub record SpentWithdrawal : Type 0 where
  pub nsidechain : ℕ
  pub hash : Hash
  pub hashblock : Hash

pub record FailedWithdrawal : Type 0 where
  pub nsidechain : ℕ
  pub hash : Hash

-- The variables of the loop of `get_deposit_outputs`.
pub record Deposits (c : Chain) : Type 0 where
  pub last_block_hash : Option Hash
  pub last_total : ℕ
  pub outputs : Table OutPoint (Output c)

-- the test `start == Some(hashblock)`
unfoldable pub is_start : Option Hash → Hash → Bool
is_start none hash = false
is_start (some start) hash = hash == start

module _ {c : Chain} where
  unfoldable pub credit : Deposit → ℕ → Table OutPoint (Output c) → Table OutPoint (Output c)
  credit d amount outputs = elim d.address [
    | none ↦ outputs
    | some address ↦
        put (deposit (record { txid = d.txid; vout = d.nburnindex % u32_mod }))
          (record { address = address; content = value amount }) outputs
  ]

  -- the walk over deposits that are decoded
  unfoldable pub walk_deposits : Option Hash → List Deposit → Deposits c → Deposits c
  unfolding is_start credit
  walk_deposits start [] found = found
  walk_deposits start (d ∷ ds) found =
      let skipped = walk_deposits start ds (record found { last_total = d.total }) in
      let taken = walk_deposits start ds (record {
        last_block_hash = some d.hashblock;
        last_total = d.total;
        outputs = credit d (d.total - found.last_total) found.outputs;
      }) in
      if is_start start d.hashblock
      then skipped
      else (if ltb d.total found.last_total then skipped else taken)

  unfoldable pub get_deposit_outputs : Option Hash → List Deposit → Deposits c
  unfolding walk_deposits
  get_deposit_outputs start deposits =
      walk_deposits start deposits (record { last_block_hash = none; last_total = 0; outputs = [] })

-- the loops of `get_withdrawal_bundle_statuses`
unfoldable pub put_confirmed :
    ℕ → List SpentWithdrawal → Table Hash WithdrawalBundleStatus → Table Hash WithdrawalBundleStatus
put_confirmed sidechain_number [] statuses = statuses
put_confirmed sidechain_number (s ∷ rest) statuses =
    put_confirmed sidechain_number rest
      (if s.nsidechain == sidechain_number then put s.hash confirmed statuses else statuses)

unfoldable pub put_failed :
    List FailedWithdrawal → Table Hash WithdrawalBundleStatus → Table Hash WithdrawalBundleStatus
put_failed [] statuses = statuses
put_failed (f ∷ rest) statuses = put_failed rest (put f.hash failed statuses)

unfoldable pub get_withdrawal_bundle_statuses :
    ℕ → List SpentWithdrawal → List FailedWithdrawal → Table Hash WithdrawalBundleStatus
unfolding put_confirmed put_failed
get_withdrawal_bundle_statuses sidechain_number spent failures =
    put_failed failures (put_confirmed sidechain_number spent [])

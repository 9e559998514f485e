-- ===== src/Types/Withdrawals.antt =====
-- The withdrawal data of src/types/mod.rs: bundles, their statuses, the two-way peg data of a
-- block, and the order by which destinations are sorted.
use ddk.Prelude.{ℕ, Bool, Option, List, ltb, ◌==◌, ◌&&◌, ◌||◌, if◌then◌else◌}
use ddk.Table.{Table}
use ddk.Types.{Chain, OutPoint, Output, Hash}
use Prim.Native.Nat.{Ordering}

pub data WithdrawalBundleStatus : Type 0 where
  failed confirmed : WithdrawalBundleStatus

-- `bitcoin::TxOut`
pub record TxOut (c : Chain) : Type 0 where
  pub value : ℕ
  pub script_pubkey : c.Script

-- `bitcoin::Transaction`, as far as the bundle fills it in: one input, of which only the script
-- is not the default.
pub record MainTransaction (c : Chain) : Type 0 where
  pub version : ℕ
  pub lock_time : ℕ
  pub script_sig : c.Script
  pub output : List (TxOut c)

pub record WithdrawalBundle (c : Chain) : Type 0 where
  pub spent_utxos : Table OutPoint (Output c)
  pub transaction : MainTransaction c

pub record TwoWayPegData (c : Chain) : Type 0 where
  pub deposits : Table OutPoint (Output c)
  pub deposit_block_hash : Option Hash
  pub bundle_statuses : Table Hash WithdrawalBundleStatus

pub record AggregatedWithdrawal (c : Chain) : Type 0 where
  pub spent_utxos : Table OutPoint (Output c)
  pub main_address : c.MainAddress
  pub value : ℕ
  pub main_fee : ℕ

-- The comparisons of other crates: the derived `==` of a map of outputs, and the order of
-- mainchain addresses.
pub record Comparisons (c : Chain) : Type 0 where
  pub outputs_eq : Table OutPoint (Output c) → Table OutPoint (Output c) → Bool
  pub address_eq : c.MainAddress → c.MainAddress → Bool
  pub address_gt : c.MainAddress → c.MainAddress → Bool

module _ {c : Chain} (by : Comparisons c) where
  -- the derived `PartialEq`
  unfoldable pub aggregated_eq : AggregatedWithdrawal c → AggregatedWithdrawal c → Bool
  aggregated_eq a b =
      by.outputs_eq a.spent_utxos b.spent_utxos
      && by.address_eq a.main_address b.main_address
      && (a.value == b.value)
      && (a.main_fee == b.main_fee)

  -- `Ord::cmp`
  unfoldable pub cmp : AggregatedWithdrawal c → AggregatedWithdrawal c → Ordering
  unfolding aggregated_eq
  cmp a b =
      if aggregated_eq a b
      then Ordering.eq
      else (if ltb b.main_fee a.main_fee
            || ltb b.value a.value
            || by.address_gt a.main_address b.main_address
          then Ordering.gt
          else Ordering.lt)

-- ===== src/State/Peg.antt =====
-- `connect_two_way_peg_data` of src/state.rs: deposits, the creation of withdrawal bundles, and
-- the reports of the mainchain on them. Heights are `u32` and wrap round.
pub mod Refund
pub mod Gap
use ddk.Prelude.{
  ℕ, Bool, true, false, Option, none, some, List, [], ◌∷◌, ltb, ◌==◌, ◌&&◌, not, is_some,
  if◌then◌else◌, add32, sub32, Result, ok, err, ◌>>=◌, unwrap_or,
}
use ddk.Table.{Table, put_all, delete_all, keys}
use ddk.Types.{Chain, Codec, OutPoint, Output, Hash, out_point_key}
use ddk.Types.Withdrawals.{
  WithdrawalBundle, WithdrawalBundleStatus, failed, confirmed, TwoWayPegData,
}
use ddk.State.{State, Error}
use ddk.State.Bundle.{Bitcoin, collect_withdrawal_bundle}

abbrev pub withdrawal_bundle_failure_gap : ℕ
withdrawal_bundle_failure_gap = 4

module _ {c : Chain} where
  -- the deposits
  unfoldable pub connect_deposits : TwoWayPegData c → State c → State c
  connect_deposits data' s = record s {
    last_deposit_block = elim data'.deposit_block_hash [
      | none ↦ s.last_deposit_block
      | some hash ↦ some hash
    ];
    utxos = put_all data'.deposits s.utxos;
  }

  module _ (btc : Bitcoin c) where
    -- a new bundle, if there is none and the last failure is far enough back
    unfoldable pub adopt : State c → Option (WithdrawalBundle c) → State c
    adopt s none = s
    adopt s (some bundle) = record s {
      utxos = delete_all (keys bundle.spent_utxos) s.utxos;
      pending_withdrawal_bundle = some bundle;
    }

    unfoldable pub may_collect : State c → ℕ → Bool
    may_collect s block_height =
        ltb withdrawal_bundle_failure_gap
          (sub32 (add32 block_height 1) (unwrap_or s.last_withdrawal_bundle_failure_height 0))
        && not (is_some s.pending_withdrawal_bundle)

    unfoldable pub connect_withdrawals : Codec c → State c → ℕ → Result Error (State c)
    unfolding adopt may_collect
    connect_withdrawals codec s block_height =
        if may_collect s block_height
        then (do
          bundle ← collect_withdrawal_bundle btc codec s.utxos (add32 block_height 1)
          ok (adopt s bundle))
        else ok s

    -- the report on a bundle
    unfoldable pub settle : WithdrawalBundleStatus → WithdrawalBundle c → State c → ℕ → State c
    settle failed bundle s block_height = record s {
      last_withdrawal_bundle_failure_height = some (add32 block_height 1);
      pending_withdrawal_bundle = none;
      utxos = put_all bundle.spent_utxos s.utxos;
    }
    settle confirmed bundle s block_height = record s { pending_withdrawal_bundle = none }

    unfoldable pub connect_status : Hash → WithdrawalBundleStatus → State c → ℕ → State c
    unfolding settle
    connect_status txid status s block_height = elim s.pending_withdrawal_bundle [
      | none ↦ s
      | some bundle ↦
          if btc.main_txid bundle.transaction == txid
          then settle status bundle s block_height
          else s
    ]

    -- the loop over the reports
    unfoldable pub connect_statuses : List (Hash × WithdrawalBundleStatus) → State c → ℕ → State c
    unfolding connect_status
    connect_statuses [] s block_height = s
    connect_statuses ((txid, status) ∷ rest) s block_height =
        connect_statuses rest (connect_status txid status s block_height) block_height

    -- `State::connect_two_way_peg_data`
    unfoldable pub connect_two_way_peg_data :
        Codec c → State c → TwoWayPegData c → ℕ → Result Error (State c)
    unfolding connect_deposits connect_withdrawals connect_statuses
    connect_two_way_peg_data codec s data' block_height = do
      s' ← connect_withdrawals codec (connect_deposits data' s) block_height
      ok (connect_statuses data'.bundle_statuses s' block_height)

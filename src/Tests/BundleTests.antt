-- ===== src/Tests/BundleTests.antt =====
-- The theorems on withdrawal bundles and the two-way peg at a concrete state.
use ddk.Prelude.{◌+◌, ◌≡◌, refl, ok, none, some, [], ◌∷◌, arith, ℕ_discrete, add32}
use ddk.Table.{Table, get, put, delete, put_all, delete_all}
use ddk.Types.{
  OutPoint, regular, Output, is_withdrawal, out_point_key, OutPoint-discrete, MainOutPoint-discrete,
}
use ddk.Types.Withdrawals.{WithdrawalBundle, AggregatedWithdrawal, failed, confirmed, TwoWayPegData}
use ddk.State.{State, contains}
use ddk.Types.Withdrawals.{cmp}
use ddk.Tests.Data.{comparisons}
use Prim.Native.Nat.{Ordering}
use ddk.State.Bundle.{
  max_bundle_outputs, aggregate, fill_parts, bundle_transaction, served, collect_withdrawal_bundle,
}
use ddk.State.Bundle.Weight.{Weighed, collect_withdrawal_bundle-weight}
use ddk.State.Bundle.Payout.{withdrawn, total_withdrawn, total_paid, collect_withdrawal_bundle-paid}
use ddk.State.Peg.{adopt, settle, connect_status, connect_two_way_peg_data}
use ddk.State.Peg.Refund.{Reported, adopt-settle_failed, connect_status-Reported}
use ddk.State.Peg.Gap.{connect_two_way_peg_data-gap}
use ddk.Tests.Data.{chain, codec, coin, exit, bitcoin, sort_law}

runs : Unit {0}
unfolding get put delete put_all delete_all OutPoint-discrete MainOutPoint-discrete ℕ_discrete
    contains collect_withdrawal_bundle connect_two_way_peg_data is_withdrawal withdrawn
runs = tt

-- Two withdrawals to destination 1 and one to destination 2.
abbrev utxos : Table OutPoint (Output chain)
utxos =
    (regular 7 0, exit 5 10 1 1)
    ∷ (regular 7 1, coin 5 3)
    ∷ (regular 8 0, exit 6 20 2 2)
    ∷ (regular 9 0, exit 5 7 3 1)
    ∷ []

abbrev before : State chain
before = record {
  utxos = utxos;
  pending_withdrawal_bundle = none;
  last_withdrawal_bundle_failure_height = some 9;
  last_deposit_block = none;
}

abbrev bundle : WithdrawalBundle chain
bundle = record {
  spent_utxos =
      (regular 7 0, exit 5 10 1 1)
      ∷ (regular 9 0, exit 5 7 3 1)
      ∷ (regular 8 0, exit 6 20 2 2)
      ∷ [];
  transaction =
      unfold collect_withdrawal_bundle bundle_transaction in
      bundle_transaction bitcoin codec
        (fill_parts bitcoin (served bitcoin (aggregate bitcoin utxos []))
          (record { fee = 0; spent_utxos = []; bundle_outputs = [] }))
        30;
}

collected : collect_withdrawal_bundle bitcoin codec utxos 30 ≡ ok (some bundle)
unfolding runs
collected = refl

collect_withdrawal_bundle-weight_example :
    Weighed bitcoin
      (max_bundle_outputs bitcoin + 1)
      (aggregate bitcoin utxos [])
      (collect_withdrawal_bundle bitcoin codec utxos 30)
collect_withdrawal_bundle-weight_example =
    collect_withdrawal_bundle-weight bitcoin sort_law codec utxos 30

collect_withdrawal_bundle-paid_example :
    total_paid bundle.transaction.output ≡ total_withdrawn utxos
unfolding runs
collect_withdrawal_bundle-paid_example =
    collect_withdrawal_bundle-paid bitcoin sort_law codec utxos 30 (omega arith) (omega arith)
      collected

adopt-settle_failed_example :
    let s' = settle bitcoin failed bundle (adopt bitcoin before (some bundle)) 31 in
    (get (regular 7 0) s'.utxos ≡ get (regular 7 0) before.utxos)
    × (s'.pending_withdrawal_bundle ≡ none)
    × (s'.last_withdrawal_bundle_failure_height ≡ some (add32 31 1))
unfolding get OutPoint-discrete MainOutPoint-discrete ℕ_discrete
adopt-settle_failed_example =
    adopt-settle_failed bitcoin sort_law codec before 30 (refl, (refl, (refl, (refl, tt))))
      collected 31 (regular 7 0)

connect_status-Reported_example :
    Reported bitcoin 5 failed before 30 (connect_status bitcoin 5 failed before 30)
connect_status-Reported_example = connect_status-Reported bitcoin 5 failed before 30

abbrev no_news : TwoWayPegData chain
no_news = record {
  deposits = [];
  deposit_block_hash = some 77;
  bundle_statuses = (5, confirmed) ∷ [];
}

abbrev waiting : State chain
waiting = record before { pending_withdrawal_bundle = some bundle }

connect_two_way_peg_data-gap_example :
    let s' : State chain = record before { last_deposit_block = some 77 } in
    s'.pending_withdrawal_bundle ≡ none
unfolding runs
connect_two_way_peg_data-gap_example =
    connect_two_way_peg_data-gap bitcoin codec before
      (record before { last_deposit_block = some 77 }) no_news 12 9 refl refl (omega arith)
      (omega arith) (omega arith) refl

abbrev cheap : AggregatedWithdrawal chain
cheap = record { spent_utxos = []; main_address = 1; value = 9; main_fee = 2 }

abbrev dear : AggregatedWithdrawal chain
dear = record { spent_utxos = []; main_address = 2; value = 5; main_fee = 4 }

-- Each of the two compares as greater than the other.
both_greater :
    (cmp comparisons dear cheap ≡ Ordering.gt) × (cmp comparisons cheap dear ≡ Ordering.gt)
unfolding cmp
both_greater = (refl, refl)

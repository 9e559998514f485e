-- ===== src/Tests/MainTests.antt =====
-- The theorems on the mainchain's answers at concrete deposits and reports.
use ddk.Prelude.{◌≡◌, none, some, [], ◌∷◌, List, if◌then◌else◌}
use ddk.Table.{get}
use ddk.Types.{out_point_key, number_key}
use ddk.Types.Withdrawals.{failed, confirmed}
use ddk.Drivechain.{SpentWithdrawal, FailedWithdrawal, get_withdrawal_bundle_statuses}
use ddk.Drivechain.Credit.{was_spent, has_failed, get-get_withdrawal_bundle_statuses}

abbrev spent : List SpentWithdrawal
spent =
    record { nsidechain = 0; hash = 7; hashblock = 2 }
    ∷ record { nsidechain = 4; hash = 8; hashblock = 2 }
    ∷ []

abbrev failures : List FailedWithdrawal
failures = record { nsidechain = 4; hash = 9 } ∷ []

get-get_withdrawal_bundle_statuses_example :
    get 9 (get_withdrawal_bundle_statuses 0 spent failures) ≡ (
      if has_failed failures 9
      then some failed
      else (if was_spent 0 spent 9 then some confirmed else none))
get-get_withdrawal_bundle_statuses_example = get-get_withdrawal_bundle_statuses 0 spent failures 9

-- ===== src/Drivechain/Credit.antt =====
-- What the mainchain's answers credit: deposits up to the increases of the total, and the reports
-- on withdrawal bundles.
use ddk.Prelude.{
  ℕ, ◌+◌, ◌-◌, ◌≤◌, ◌≡◌, refl, Option, none, some, Bool, false, List, [], ◌∷◌, arith, if◌then◌else◌,
  ◌==◌, inl, inr, ◌||◌, ◌&&◌, Option-cases,
}
use ddk.Table.{Table, get, put}
use ddk.Table.Laws.{get-put}
use ddk.Table.Total.{total, total-put-le}
use ddk.Types.{Chain, OutPoint, Output, Hash, get_value, out_point_key, number_key}
use ddk.Types.Withdrawals.{WithdrawalBundleStatus, failed, confirmed}
use ddk.Drivechain.{
  Deposit, Deposits, SpentWithdrawal, FailedWithdrawal, is_start, credit, walk_deposits,
  get_deposit_outputs, put_confirmed, put_failed, get_withdrawal_bundle_statuses,
}

-- The increases of the total from `n` on, without that at the start.
abbrev pub rises : Option Hash → ℕ → List Deposit → ℕ
rises start n [] = 0
rises start n (d ∷ ds) =
    (if is_start start d.hashblock then 0 else d.total - n) + rises start d.total ds

module _ {c : Chain} where
  total-credit :
      (d : Deposit) (amount : ℕ) (t : Table OutPoint (Output c))
      → total get_value (credit d amount t) ≤ total get_value t + amount
  unfolding credit get_value
  total-credit d amount t = elim (Option-cases d.address) [
    | inl none' ↦ rw none' (omega arith)
    | inr (a, some') ↦ rw some' (total-put-le get_value _ _ t)
  ]

  total-walk_deposits :
      (start : Option Hash) (ds : List Deposit) (found : Deposits c)
      → total get_value (walk_deposits start ds found).outputs
        ≤ total get_value found.outputs + rises start found.last_total ds
  unfolding walk_deposits
  total-walk_deposits start [] found = omega arith
  total-walk_deposits start (d ∷ ds) found =
      let amount = d.total - found.last_total in
      let skip = total-walk_deposits start ds (record found { last_total = d.total }) in
      let take = total-walk_deposits start ds (record {
        last_block_hash = some d.hashblock;
        last_total = d.total;
        outputs = credit d amount found.outputs;
      }) in
      let more = total-credit d amount found.outputs in ground (arith, skip, take, more)

-- The deposits that are credited are worth at most the increases of the sidechain's total on
-- the mainchain, without the deposit that the walk starts at, however the totals rise and fall.
pub get_deposit_outputs-total :
    (c : Chain) (start : Option Hash) (ds : List Deposit)
    → total get_value (get_deposit_outputs {c = c} start ds).outputs ≤ rises start 0 ds
unfolding get_deposit_outputs total
get_deposit_outputs-total c start ds =
    let walked =
      total-walk_deposits {c = c} start ds
        (record { last_block_hash = none; last_total = 0; outputs = [] }) in
    omega (arith, walked)

-- Whether a bundle was spent by the sidechain, and whether one failed in any sidechain.
abbrev pub was_spent : ℕ → List SpentWithdrawal → Hash → Bool
was_spent number [] k = false
was_spent number (s ∷ rest) k =
    ((s.nsidechain == number) && (s.hash == k)) || was_spent number rest k

abbrev pub has_failed : List FailedWithdrawal → Hash → Bool
has_failed [] k = false
has_failed (f ∷ rest) k = (f.hash == k) || has_failed rest k

get-put_confirmed :
    (number : ℕ) (spent : List SpentWithdrawal) (t : Table Hash WithdrawalBundleStatus) (k : Hash)
    → get k (put_confirmed number spent t)
      ≡ (if was_spent number spent k then some confirmed else get k t)
unfolding put_confirmed
get-put_confirmed number [] t k = refl
get-put_confirmed number (s ∷ rest) t k = ground (
  arith,
  get-put_confirmed number rest (put s.hash confirmed t) k,
  get-put_confirmed number rest t k,
  get-put k s.hash confirmed t,
)

get-put_failed :
    (failures : List FailedWithdrawal) (t : Table Hash WithdrawalBundleStatus) (k : Hash)
    → get k (put_failed failures t) ≡ (if has_failed failures k then some failed else get k t)
unfolding put_failed
get-put_failed [] t k = refl
get-put_failed (f ∷ rest) t k =
    ground (arith, get-put_failed rest (put f.hash failed t) k, get-put k f.hash failed t)

-- A bundle is reported as failed if it failed in any sidechain, else as confirmed if this
-- sidechain's was spent, and else not at all.
pub get-get_withdrawal_bundle_statuses :
    (number : ℕ) (spent : List SpentWithdrawal) (failures : List FailedWithdrawal) (k : Hash)
    → get k (get_withdrawal_bundle_statuses number spent failures) ≡ (
        if has_failed failures k
        then some failed
        else (if was_spent number spent k then some confirmed else none))
unfolding get_withdrawal_bundle_statuses get
get-get_withdrawal_bundle_statuses number spent failures k = ground (
  arith,
  get-put_failed failures (put_confirmed number spent []) k,
  get-put_confirmed number spent [] k,
)

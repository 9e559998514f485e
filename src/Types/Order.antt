-- ===== src/Types/Order.antt =====
-- The order of `AggregatedWithdrawal`.
use ddk.Prelude.{◌<◌, ◌≡◌, arith}
use ddk.Types.{Chain}
use ddk.Types.Withdrawals.{AggregatedWithdrawal, Comparisons, aggregated_eq, cmp}
use Prim.Native.Nat.{Ordering}

-- `cmp` is no order: of two destinations, one with the greater fee and the other with the greater
-- value, each is greater than the other.
pub cmp-both_greater :
    {c : Chain} (by : Comparisons c) (a b : AggregatedWithdrawal c)
    → b.main_fee < a.main_fee
    → a.value < b.value
    → (cmp by a b ≡ Ordering.gt) × (cmp by b a ≡ Ordering.gt)
unfolding cmp aggregated_eq
cmp-both_greater by a b fee value = (ground arith, ground arith)

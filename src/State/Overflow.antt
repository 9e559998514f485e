-- ===== src/State/Overflow.antt =====
-- Sums of `validate_filled_transaction` that overflow 64 bits.
use ddk.Prelude.{ℕ, ◌+◌, ◌-◌, ◌≤◌, ◌<◌, ◌≡◌, arith, ok, map, sum64_from, sum64_from-mod, u64_mod}
use ddk.Types.{Chain, FilledTransaction, get_value}
use ddk.State.{validate_filled_transaction}
use ddk.State.Validate.{value_of}

-- If the outputs add up to 2^64 and `k` more, and the inputs cover `k`, then the transaction is
-- valid with the inputs less `k` as its fee, although its outputs are worth more than its inputs.
pub overflow_mints :
    {c : Chain} (t : FilledTransaction c) (k : ℕ)
    → value_of t.transaction.outputs ≡ u64_mod + k
    → value_of t.spent_utxos < u64_mod
    → k ≤ value_of t.spent_utxos
    → (validate_filled_transaction t ≡ ok (value_of t.spent_utxos - k))
      × (value_of t.spent_utxos < value_of t.transaction.outputs)
unfolding validate_filled_transaction
overflow_mints t k out fits covered =
    let sum_in : sum64_from 0 (map get_value t.spent_utxos) ≡ value_of t.spent_utxos =
      omega (arith, sum64_from-mod 0 (map get_value t.spent_utxos) (omega arith)) in
    let sum_out : sum64_from 0 (map get_value t.transaction.outputs) ≡ k =
      omega (arith, sum64_from-mod 0 (map get_value t.transaction.outputs) (omega arith)) in
    (ground arith, omega arith)

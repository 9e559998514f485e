-- ===== src/Types/Filled.antt =====
-- `FilledTransaction` of src/types/types.rs: the value that comes in, goes out and is left as fee.
use ddk.Prelude.{ℕ, ◌-◌, Option, none, some, map, ltb, if◌then◌else◌, sum64_from}
use ddk.Types.{Chain, FilledTransaction, get_value}

module _ {c : Chain} where
  unfoldable pub get_value_in : FilledTransaction c → ℕ
  get_value_in t = sum64_from 0 (map get_value t.spent_utxos)

  unfoldable pub get_value_out : FilledTransaction c → ℕ
  get_value_out t = sum64_from 0 (map get_value t.transaction.outputs)

  unfoldable pub get_fee : FilledTransaction c → Option ℕ
  unfolding get_value_in get_value_out
  get_fee t =
      let value_in = get_value_in t in
      let value_out = get_value_out t in
      if ltb value_in value_out then none else some (value_in - value_out)

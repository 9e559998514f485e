-- ===== src/Wallet/Balance.antt =====
-- What `get_balance` counts.
use ddk.Prelude.{
  ◌+◌, ◌<◌, ◌≡◌, refl, ◌∙◌, List, [], ◌∷◌, map, sum, sum64-eq-sum, u64_mod, arith, if◌then◌else◌,
}
use ddk.Types.{
  Chain, OutPoint, Output, Content, custom, value, withdrawal, get_value, content_value,
  is_withdrawal,
}
use ddk.State.Bundle.Payout.{withdrawn, total_withdrawn}
use ddk.Authorization.{Dalek}
use ddk.Wallet.{Backend, Wallet, get_balance}
use ddk.Wallet.Select.{spendable, spendable_value}

split_value :
    {c : Chain} (content : Content c)
    → content_value content
      ≡ (if is_withdrawal content then 0 else content_value content) + withdrawn content
unfolding content_value is_withdrawal withdrawn
split_value (custom x) = omega arith
split_value (value v) = omega arith
split_value (withdrawal v fee a) = omega arith

sum-split :
    {c : Chain} (l : List (OutPoint × Output c))
    → sum (map (λ e. get_value e.1) l) ≡ spendable l + total_withdrawn l
unfolding get_value spendable_value
sum-split [] = refl
sum-split (e ∷ l) = omega (arith, split_value e.1.content, sum-split l)

-- The balance is what can be spent and the withdrawals together, which `select_coins` passes
-- over, as long as it fits 64 bits.
pub get_balance-spendable :
    {c : Chain} {d : Dalek} (w : Backend c d) (s : Wallet w)
    → spendable s.utxos + total_withdrawn s.utxos < u64_mod
    → get_balance w s ≡ spendable s.utxos + total_withdrawn s.utxos
unfolding get_balance
get_balance-spendable w s fits =
    sum64-eq-sum (map (λ e. get_value e.1) s.utxos) (omega (arith, sum-split s.utxos))
    ∙ sum-split s.utxos

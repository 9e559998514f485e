-- ===== src/State/Bundle/Payout.antt =====
-- A bundle pays out exactly what the withdrawals among the unspent outputs are worth.
use ddk.Prelude.{
  ℕ, ◌+◌, ◌≤◌, ◌<◌, ◌≡◌, refl, sym, ap, ◌∙◌, some, List, [], ◌∷◌, ◌++◌, map, length, length-append,
  ltb, ltb→lt, Bool-cases, inl, inr, Option-cases, ok, arith, add64, u64_mod, sum, sum-perm,
}
use ddk.Table.{Table, get, put_all}
use ddk.Table.Total.{total, total-put_over, total-put_new, le-total}
use ddk.Types.{Chain, Codec, OutPoint, Output, Content, custom, value, withdrawal, out_point_key}
use ddk.Types.Withdrawals.{TxOut, MainTransaction, WithdrawalBundle, AggregatedWithdrawal, cmp}
use ddk.State.Bundle.{
  Bitcoin, max_bundle_outputs, Parts, no_parts, Destinations, new_aggregate, add_withdrawal,
  aggregate_content, aggregate, fill_parts, bundle_transaction, served, bundle_of,
  collect_withdrawal_bundle,
}
use ddk.State.Bundle.Weight.{SortLaw, length-served}

-- What an output withdraws from the sidechain.
unfoldable pub withdrawn : {c : Chain} → Content c → ℕ
withdrawn (custom _) = 0
withdrawn (value _) = 0
withdrawn (withdrawal v _ _) = v

abbrev pub total_withdrawn : {c : Chain} → List (OutPoint × Output c) → ℕ
total_withdrawn entries = sum (map (λ e. withdrawn e.1.content) entries)

abbrev pub total_paid : {c : Chain} → List (TxOut c) → ℕ
total_paid outs = sum (map (λ o. o.value) outs)

module _ {c : Chain} (btc : Bitcoin c) where
  -- The value that the destinations are to receive.
  abbrev owed : Destinations btc → ℕ
  owed = total ⦃e = btc.address_key⦄ (λ a. a.value)

  aggregate_content-owed :
      (p : OutPoint) (o : Output c) (content : Content c) (m : Destinations btc)
      → owed m + withdrawn content < u64_mod
      → owed (aggregate_content btc p o content m) ≡ owed m + withdrawn content
  unfolding aggregate_content withdrawn add_withdrawal
  aggregate_content-owed p o (custom _) m h = omega arith
  aggregate_content-owed p o (value _) m h = omega arith
  aggregate_content-owed p o (withdrawal v fee address) m h =
      elim (Option-cases (get ⦃e = btc.address_key⦄ address m)) [
        | inl new ↦ rw new (
            added (new_aggregate btc address)
              (total-put_new ⦃e = btc.address_key⦄ (λ a. a.value) address _ m new) refl)
        | inr (a, old) ↦
            let fits = le-total ⦃e = btc.address_key⦄ (λ a. a.value) address a m old in
            rw old
              (grown a fits (total-put_over ⦃e = btc.address_key⦄ (λ a. a.value) address _ a m old))
      ]
    where
      added :
          (a : AggregatedWithdrawal c) {t : ℕ}
          → t ≡ owed m + add64 a.value v
          → a.value ≡ 0
          → t ≡ owed m + v
      added a e z = omega arith

      grown :
          (a : AggregatedWithdrawal c) {t : ℕ}
          → a.value ≤ owed m
          → t + a.value ≡ owed m + add64 a.value v
          → t ≡ owed m + v
      grown a fits e = omega arith

  aggregate-owed :
      (entries : List (OutPoint × Output c)) (m : Destinations btc)
      → owed m + total_withdrawn entries < u64_mod
      → owed (aggregate btc entries m) ≡ owed m + total_withdrawn entries
  unfolding aggregate
  aggregate-owed [] m h = omega arith
  aggregate-owed ((p, o) ∷ rest) m h =
      let one = aggregate_content-owed p o o.content m (omega arith) in
      omega (arith, aggregate-owed rest (aggregate_content btc p o o.content m) (omega arith))

  -- As long as the limit is not passed, every destination is paid its value.
  fill_parts-paid :
      (list : List (AggregatedWithdrawal c)) (parts : Parts c)
      → length parts.bundle_outputs + length list ≤ max_bundle_outputs btc + 1
      → total_paid (fill_parts btc list parts).bundle_outputs
        ≡ total_paid parts.bundle_outputs + sum (map (λ a. a.value) list)
  unfolding fill_parts
  fill_parts-paid [] parts h = omega arith
  fill_parts-paid (a ∷ rest) parts h =
      let under : length parts.bundle_outputs ≤ max_bundle_outputs btc = omega arith in
      let out : TxOut c = record {
        value = a.value;
        script_pubkey = btc.script_pubkey a.main_address;
      } in
      let longer = length-append parts.bundle_outputs (out ∷ []) in
      let parts' : Parts c = record {
        fee = add64 parts.fee a.main_fee;
        spent_utxos = put_all a.spent_utxos parts.spent_utxos;
        bundle_outputs = parts.bundle_outputs ++ out ∷ [];
      } in
      let later = fill_parts-paid rest parts' (omega arith) in
      let more = paid-append parts.bundle_outputs (out ∷ []) in
      elim (Bool-cases (ltb (max_bundle_outputs btc) (length parts.bundle_outputs))) [
        | inl full ↦
            absurd
              (omega (arith, ltb→lt (max_bundle_outputs btc) (length parts.bundle_outputs) full))
        | inr room ↦ rw room (omega arith)
      ]
    where
      paid-append : (xs ys : List (TxOut c)) → total_paid (xs ++ ys) ≡ total_paid xs + total_paid ys
      paid-append [] ys = omega arith
      paid-append (x ∷ xs) ys = omega (arith, paid-append xs ys)

  sum-values : (m : Destinations btc) → sum (map (λ a. a.value) (map (λ e. e.1) m)) ≡ owed m
  unfolding total
  sum-values [] = refl
  sum-values (e ∷ m) = omega (arith, sum-values m)

  sum-served :
      SortLaw btc → (m : Destinations btc) → sum (map (λ a. a.value) (served btc m)) ≡ owed m
  unfolding served
  sum-served sorts m =
      sym (sum-perm (λ a. a.value) (sorts (λ a b. cmp btc.comparisons b a) (map (λ e. e.1) m)))
      ∙ sum-values m

  transaction-paid :
      (codec : Codec c) (parts : Parts c) (height : ℕ)
      → total_paid (bundle_transaction btc codec parts height).output
        ≡ total_paid parts.bundle_outputs
  unfolding bundle_transaction
  transaction-paid codec parts height = omega arith

  bundle_of-paid :
      SortLaw btc
      → (codec : Codec c) (m : Destinations btc) (height : ℕ) {bundle : WithdrawalBundle c}
      → length m ≤ max_bundle_outputs btc + 1
      → bundle_of btc codec m height ≡ ok (some bundle)
      → total_paid bundle.transaction.output ≡ owed m
  unfolding bundle_of
  bundle_of-paid sorts codec [] height {bundle} few h = absurd (ground arith)
  bundle_of-paid sorts codec (e ∷ m) height {bundle} few h =
      let list = served btc (e ∷ m) in
      let parts = fill_parts btc list (no_parts btc) in
      let same : bundle_transaction btc codec parts height ≡ bundle.transaction = ground arith in
      let paid =
        fill_parts-paid list (no_parts btc) (omega (arith, length-served btc sorts (e ∷ m))) in
      let all : total_paid (bundle_transaction btc codec parts height).output ≡ owed (e ∷ m) =
        omega (arith, sum-served sorts (e ∷ m), transaction-paid codec parts height) in
      ap (λ (t : MainTransaction c). total_paid t.output) (sym same) ∙ all

  -- If there is a bundle, all destinations are served and sorting permutes, then its outputs add
  -- up to the value of all withdrawals among the unspent outputs, as long as that fits 64 bits.
  pub collect_withdrawal_bundle-paid :
      SortLaw btc
      → (codec : Codec c) (utxos : Table OutPoint (Output c)) (height : ℕ)
        {bundle : WithdrawalBundle c}
      → length (aggregate btc utxos []) ≤ max_bundle_outputs btc + 1
      → total_withdrawn utxos < u64_mod
      → collect_withdrawal_bundle btc codec utxos height ≡ ok (some bundle)
      → total_paid bundle.transaction.output ≡ total_withdrawn utxos
  unfolding collect_withdrawal_bundle total
  collect_withdrawal_bundle-paid sorts codec utxos height few fits h =
      bundle_of-paid sorts codec (aggregate btc utxos []) height few h
      ∙ aggregate-owed utxos [] (omega arith)
      ∙ omega arith

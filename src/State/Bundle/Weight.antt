-- ===== src/State/Bundle/Weight.antt =====
-- How many destinations a bundle serves, and when it is too heavy.
use ddk.Prelude.{
  ℕ, ◌+◌, ◌-◌, ◌≤◌, ◌<◌, ◌≡◌, refl, ◌∙◌, Option, none, some, List, [], ◌∷◌, ◌++◌, map, length,
  length-append, take, drop, zero, suc, sym, ltb, ltb→lt, not-ltb→le, Bool-cases, inl, inr, ◌⊎◌,
  Result, ok, err, arith, length-perm, add64,
}
use ddk.Table.{Table, put_all}
use ddk.Types.{Chain, Codec, OutPoint, Output, out_point_key}
use ddk.Types.Withdrawals.{TxOut, MainTransaction, WithdrawalBundle, AggregatedWithdrawal}
use ddk.State.{Error, bundle_too_heavy}
use ddk.State.Bundle.{
  Bitcoin, max_bundle_outputs, Parts, no_parts, Destinations, fill_parts, bundle_transaction,
  served, bundle_of, collect_withdrawal_bundle, aggregate,
}
use Prim.Native.Nat.{Ordering, min}
use mathlib.Core.Path.{subst}
use mathlib.Core.List.{Permᴰ, append-nil, append_assoc}

module _ {c : Chain} (btc : Bitcoin c) where
  -- Sorting permutes, whatever the comparison.
  abbrev pub SortLaw : Type 0
  SortLaw =
      (f : AggregatedWithdrawal c → AggregatedWithdrawal c → Ordering)
      (xs : List (AggregatedWithdrawal c))
      → Permᴰ xs (btc.sort_by f xs)

  length-map : {A B : Type 0} (f : A → B) (xs : List A) → length (map f xs) ≡ length xs
  length-map f [] = refl
  length-map f (x ∷ xs) = omega (arith, length-map f xs)

  pub length-served : SortLaw → (m : Destinations btc) → length (served btc m) ≡ length m
  unfolding served
  length-served law m = omega (
    arith,
    length-perm (law _ (map (λ e. e.1) m)),
    length-map (λ (e : c.MainAddress × AggregatedWithdrawal c). e.1) m,
  )

  -- The loop serves destinations until there is one payment more than the limit.
  pub length-fill_parts :
      (list : List (AggregatedWithdrawal c)) (parts : Parts c)
      → length parts.bundle_outputs ≤ max_bundle_outputs btc + 1
      → length (fill_parts btc list parts).bundle_outputs
        ≡ min (length parts.bundle_outputs + length list) (max_bundle_outputs btc + 1)
  unfolding fill_parts
  length-fill_parts [] parts h = omega arith
  length-fill_parts (a ∷ rest) parts h =
      elim (Bool-cases (ltb (max_bundle_outputs btc) (length parts.bundle_outputs))) [
        | inl full ↦
            let over = ltb→lt (max_bundle_outputs btc) (length parts.bundle_outputs) full in
            rw full (omega arith)
        | inr room ↦
            let under = not-ltb→le (max_bundle_outputs btc) (length parts.bundle_outputs) room in
            let out : TxOut c = record {
              value = a.value;
              script_pubkey = btc.script_pubkey a.main_address;
            } in
            let longer = length-append parts.bundle_outputs (out ∷ []) in
            let later =
              length-fill_parts rest
                (record {
                  fee = add64 parts.fee a.main_fee;
                  spent_utxos = put_all a.spent_utxos parts.spent_utxos;
                  bundle_outputs = parts.bundle_outputs ++ out ∷ [];
                })
                (omega arith) in
            rw room (omega arith)
      ]

  -- The output that pays a destination.
  abbrev pub payment : AggregatedWithdrawal c → TxOut c
  payment a = record { value = a.value; script_pubkey = btc.script_pubkey a.main_address }

  take-nil : {B : Type 0} (n : ℕ) → take {A = B} n [] ≡ []
  take-nil zero = refl
  take-nil (suc n) = refl

  -- The loop pays destinations, the first ones, until there is one payment more than the limit.
  fill_parts-outputs :
      (list : List (AggregatedWithdrawal c)) (parts : Parts c)
      → (fill_parts btc list parts).bundle_outputs
        ≡ parts.bundle_outputs
          ++ map payment (take (max_bundle_outputs btc + 1 - length parts.bundle_outputs) list)
  unfolding fill_parts
  fill_parts-outputs [] parts =
      rw (take-nil (max_bundle_outputs btc + 1 - length parts.bundle_outputs))
        (sym (append-nil parts.bundle_outputs))
  fill_parts-outputs (a ∷ rest) parts =
      elim (Bool-cases (ltb (max_bundle_outputs btc) (length parts.bundle_outputs))) [
        | inl full ↦
            let over = ltb→lt (max_bundle_outputs btc) (length parts.bundle_outputs) full in
            let none_left : max_bundle_outputs btc + 1 - length parts.bundle_outputs ≡ 0 =
              omega arith in
            rw (full, none_left) (sym (append-nil parts.bundle_outputs))
        | inr room ↦
            let under = not-ltb→le (max_bundle_outputs btc) (length parts.bundle_outputs) room in
            let parts' : Parts c = record {
              fee = add64 parts.fee a.main_fee;
              spent_utxos = put_all a.spent_utxos parts.spent_utxos;
              bundle_outputs = parts.bundle_outputs ++ payment a ∷ [];
            } in
            let longer : length parts'.bundle_outputs ≡ length parts.bundle_outputs + 1 =
              length-append parts.bundle_outputs (payment a ∷ []) in
            let one_less : max_bundle_outputs btc + 1 - length parts.bundle_outputs
                ≡ suc (max_bundle_outputs btc + 1 - length parts'.bundle_outputs) =
              omega arith in
            rw (room, one_less)
              (fill_parts-outputs rest parts'
                ∙ append_assoc parts.bundle_outputs (payment a ∷ []) _)
      ]

  -- What becomes of destinations: the bundle of a transaction with three outputs and then a
  -- payment of each of the destinations that are served first, or the error that this transaction
  -- is too heavy.
  abbrev pub Weighed : ℕ → Destinations btc → Result Error (Option (WithdrawalBundle c)) → Type 0
  Weighed limit [] result = result ≡ ok none
  Weighed limit (e ∷ m) result =
      (t : MainTransaction c) × (drop 3 t.output ≡ map payment (take limit (served btc (e ∷ m))))
      × (length t.output ≡ 3 + min (length (e ∷ m)) limit)
      × (((btc.weight t ≤ btc.max_standard_tx_weight)
            × (b : WithdrawalBundle c) × (b.transaction ≡ t)
            × (result ≡ ok (some b)))
          ⊎ ((btc.max_standard_tx_weight < btc.weight t)
              × (result ≡ err (bundle_too_heavy (btc.weight t) btc.max_standard_tx_weight))))

  bundle_of-Weighed :
      SortLaw
      → (codec : Codec c) (m : Destinations btc) (height : ℕ)
      → Weighed (max_bundle_outputs btc + 1) m (bundle_of btc codec m height)
  unfolding bundle_of bundle_transaction
  bundle_of-Weighed sorts codec [] height = refl
  bundle_of-Weighed sorts codec (e ∷ m) height =
      let parts = fill_parts btc (served btc (e ∷ m)) (no_parts btc) in
      let t : MainTransaction c = bundle_transaction btc codec parts height in
      let whole : max_bundle_outputs btc + 1 - 0 ≡ max_bundle_outputs btc + 1 = omega arith in
      let pays : drop 3 t.output
          ≡ map payment (take (max_bundle_outputs btc + 1) (served btc (e ∷ m))) =
        subst (λ (n : ℕ). parts.bundle_outputs ≡ map payment (take n (served btc (e ∷ m)))) whole
          (fill_parts-outputs (served btc (e ∷ m)) (no_parts btc)) in
      let outputs : length t.output ≡ 3 + min (length (e ∷ m)) (max_bundle_outputs btc + 1) =
        omega (
          arith,
          length-fill_parts (served btc (e ∷ m)) (no_parts btc),
          length-served sorts (e ∷ m),
        ) in
      elim (Bool-cases (ltb btc.max_standard_tx_weight (btc.weight t))) [
        | inl heavy ↦
            let over = ltb→lt btc.max_standard_tx_weight (btc.weight t) heavy in
            (t, pays, outputs, inr (over, rw (heavy, bundle_of) refl))
        | inr light ↦
            let under = not-ltb→le btc.max_standard_tx_weight (btc.weight t) light in
            let bundle : WithdrawalBundle c = record {
              spent_utxos = parts.spent_utxos;
              transaction = t;
            } in
            (t, pays, outputs, inl (under, bundle, refl, rw (light, bundle_of) refl))
      ]

  -- If sorting permutes, then no destination gives no bundle. Otherwise there is one transaction,
  -- with three outputs and then a payment of each of the destinations that are served first, up
  -- to one more than `max_bundle_outputs`: it is the bundle's, if its weight is within the limit,
  -- and else the error is that it is too heavy, with its weight and the limit.
  pub collect_withdrawal_bundle-weight :
      SortLaw
      → (codec : Codec c) (utxos : Table OutPoint (Output c)) (height : ℕ)
      → Weighed
          (max_bundle_outputs btc + 1)
          (aggregate btc utxos [])
          (collect_withdrawal_bundle btc codec utxos height)
  unfolding collect_withdrawal_bundle
  collect_withdrawal_bundle-weight sorts codec utxos height =
      bundle_of-Weighed sorts codec (aggregate btc utxos []) height

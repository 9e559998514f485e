-- ===== src/State/Bundle/Sound.antt =====
-- A bundle spends only withdrawals that are among the unspent outputs.
use ddk.Prelude.{
  ℕ, ◌≡◌, refl, true, Option, none, some, List, [], ◌∷◌, map, length, ltb, Bool-cases, inl, inr, ok,
  arith, All, All-perm, unwrap_or,
}
use ddk.Table.{Table, get}
use ddk.Table.Every.{put-All, put_all-All, All-get}
use ddk.Types.{
  Chain, Codec, OutPoint, Output, Content, custom, value, withdrawal, is_withdrawal, out_point_key,
}
use ddk.Types.Withdrawals.{cmp, WithdrawalBundle, AggregatedWithdrawal}
use ddk.State.Bundle.{
  Bitcoin, max_bundle_outputs, Parts, no_parts, Destinations, new_aggregate, aggregate_content,
  aggregate, fill_parts, served, bundle_of, collect_withdrawal_bundle,
}
use ddk.State.Bundle.Weight.{SortLaw}

-- Every entry that the walk over a table meets is the one under its key.
abbrev pub IsTable : {c : Chain} → Table OutPoint (Output c) → Type 0
IsTable utxos = All (λ e. get e.0 utxos ≡ some e.1) utxos

module _ {c : Chain} (btc : Bitcoin c) (Q : OutPoint × Output c → Type 0) where
  abbrev Holds : AggregatedWithdrawal c → Type 0
  Holds a = All Q a.spent_utxos

  abbrev AllHold : Destinations btc → Type 0
  AllHold m = All (λ e. Holds e.1) m

  aggregate_content-AllHold :
      (p : OutPoint) (o : Output c) (content : Content c) (m : Destinations btc)
      → (is_withdrawal content ≡ true → Q (p, o))
      → AllHold m
      → AllHold (aggregate_content btc p o content m)
  unfolding aggregate_content is_withdrawal
  aggregate_content-AllHold p o (custom _) m q h = h
  aggregate_content-AllHold p o (value _) m q h = h
  aggregate_content-AllHold p o (withdrawal v fee address) m q h =
      put-All ⦃e = btc.address_key⦄ (λ e. Holds e.1) address _ m
        (put-All Q p o _ (q refl) (old (get ⦃e = btc.address_key⦄ address m) refl)) h
    where
      old :
          (found : Option (AggregatedWithdrawal c))
          → get ⦃e = btc.address_key⦄ address m ≡ found
          → Holds (unwrap_or found (new_aggregate btc address))
      old none e = tt
      old (some a) e = All-get ⦃e = btc.address_key⦄ Holds address a m h e

  aggregate-AllHold :
      (entries : List (OutPoint × Output c)) (m : Destinations btc)
      → All (λ e. is_withdrawal e.1.content ≡ true → Q e) entries
      → AllHold m
      → AllHold (aggregate btc entries m)
  unfolding aggregate
  aggregate-AllHold [] m q h = h
  aggregate-AllHold ((p, o) ∷ rest) m q h =
      aggregate-AllHold rest (aggregate_content btc p o o.content m) q.1
        (aggregate_content-AllHold p o o.content m q.0 h)

  All-values : (m : Destinations btc) → AllHold m → All Holds (map (λ e. e.1) m)
  All-values [] h = tt
  All-values (e ∷ m) h = (h.0, All-values m h.1)

  fill_parts-Holds :
      (list : List (AggregatedWithdrawal c)) (parts : Parts c)
      → All Holds list
      → All Q parts.spent_utxos
      → All Q (fill_parts btc list parts).spent_utxos
  unfolding fill_parts
  fill_parts-Holds [] parts h q = q
  fill_parts-Holds (a ∷ rest) parts h q =
      elim (Bool-cases (ltb (max_bundle_outputs btc) (length parts.bundle_outputs))) [
        | inl full ↦ rw full q
        | inr room ↦
            rw room
              (fill_parts-Holds rest _ h.1 (put_all-All Q a.spent_utxos parts.spent_utxos h.0 q))
      ]

  served-Holds : SortLaw btc → (m : Destinations btc) → AllHold m → All Holds (served btc m)
  unfolding served
  served-Holds sorts m q =
      All-perm Holds (sorts (λ a b. cmp btc.comparisons b a) (map (λ e. e.1) m)) (All-values m q)

  bundle_of-Holds :
      SortLaw btc
      → (codec : Codec c) (m : Destinations btc) (height : ℕ) {bundle : WithdrawalBundle c}
      → bundle_of btc codec m height ≡ ok (some bundle)
      → AllHold m
      → All Q bundle.spent_utxos
  unfolding bundle_of
  bundle_of-Holds sorts codec [] height {bundle} h q = absurd (ground arith)
  bundle_of-Holds sorts codec (e ∷ m) height {bundle} h q =
      let parts = fill_parts btc (served btc (e ∷ m)) (no_parts btc) in
      let same : parts.spent_utxos ≡ bundle.spent_utxos = ground arith in
      let holds : All Q parts.spent_utxos =
        fill_parts-Holds (served btc (e ∷ m)) (no_parts btc) (served-Holds sorts (e ∷ m) q) tt in
      rw same at holds

-- If the unspent outputs are a table and sorting permutes, each entry of the bundle is a
-- withdrawal, and is the unspent output under its outpoint.
pub collect_withdrawal_bundle-spends :
    {c : Chain} (btc : Bitcoin c)
    → SortLaw btc
    → (codec : Codec c) (utxos : Table OutPoint (Output c)) (height : ℕ)
      {bundle : WithdrawalBundle c}
    → IsTable utxos
    → collect_withdrawal_bundle btc codec utxos height ≡ ok (some bundle)
    → All (λ e. (get e.0 utxos ≡ some e.1) × (is_withdrawal e.1.content ≡ true)) bundle.spent_utxos
unfolding collect_withdrawal_bundle
collect_withdrawal_bundle-spends {c} btc sorts codec utxos height table h =
    bundle_of-Holds btc (λ e. (get e.0 utxos ≡ some e.1) × (is_withdrawal e.1.content ≡ true)) sorts
      codec (aggregate btc utxos []) height h
      (aggregate-AllHold btc (λ e. (get e.0 utxos ≡ some e.1) × (is_withdrawal e.1.content ≡ true))
        utxos [] (both utxos table) tt)
  where
    both :
        (l : List (OutPoint × Output c))
        → All (λ e. get e.0 utxos ≡ some e.1) l
        → All
            (λ e.
              is_withdrawal e.1.content ≡ true
              → (get e.0 utxos ≡ some e.1) × (is_withdrawal e.1.content ≡ true))
            l
    both [] h = tt
    both (e ∷ l) h = (λ w. (h.0, w), both l h.1)

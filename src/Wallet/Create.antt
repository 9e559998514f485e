-- ===== src/Wallet/Create.antt =====
-- The transactions that the wallet makes: they spend coins of the wallet and pay the fee asked
-- for.
use ddk.Prelude.{
  ℕ, ◌+◌, ◌-◌, ◌≤◌, ◌<◌, ◌≡◌, refl, some, List, [], ◌∷◌, map, arith, All, add64, sub64, u64_mod, ok,
  inl, inr, ◌∙◌, sum64-eq-sum,
}
use mathlib.Core.Path.{subst}
use ddk.Table.{Table, get, keys}
use ddk.Table.Total.{total}
use ddk.Table.Unique.{UniqueKeys}
use ddk.Types.{
  Chain, OutPoint, Output, Transaction, Address, value, withdrawal, get_value, content_value,
  out_point_key,
}
use ddk.Types.Filled.{get_fee}
use ddk.State.Fill.{Spends}
use ddk.State.Validate.{value_of}
use ddk.Authorization.{Dalek}
use ddk.Wallet
use ddk.Wallet.{
  Backend, Wallet, reads, finish_transaction, finish_withdrawal, Error, Selection, select_coins,
  get_new_address, create_transaction, create_withdrawal,
}
use ddk.Wallet.Select.{SortLaw, spendable, select_coins-total, select_coins-selected}

module _ {c : Chain} {d : Dalek} (w : Backend c d) where
  -- the outputs of a table's entries
  abbrev outputs_of : Table OutPoint (Output c) → List (Output c)
  outputs_of = map (λ e. e.1)

  Spends-entries :
      (utxos : Table OutPoint (Output c)) (l : Table OutPoint (Output c))
      (Q : OutPoint × Output c → Type 0)
      → All (λ e. (get e.0 utxos ≡ some e.1) × Q e) l
      → Spends utxos (keys l) (outputs_of l)
  Spends-entries utxos [] Q h = tt
  Spends-entries utxos (e ∷ l) Q h = (h.0.0, Spends-entries utxos l Q h.1)

  value_of-outputs_of :
      (l : Table OutPoint (Output c)) → value_of (outputs_of l) ≡ total get_value l
  unfolding total
  value_of-outputs_of [] = refl
  value_of-outputs_of (e ∷ l) = omega (arith, value_of-outputs_of l)

  -- The transaction makes the given output and gives change, it spends outputs of the wallet, and
  -- its fee is the one given.
  abbrev pub Pays : Wallet w → Output c → Transaction c → ℕ → Type 0
  Pays s x t fee =
      (y : Output c) × (t.outputs ≡ x ∷ y ∷ [])
      × ((os : List (Output c)) × Spends s.utxos t.inputs os
          × (get_fee (record { transaction = t; spent_utxos = os }) ≡ some fee)
          × (value_of t.outputs + fee ≡ value_of os))

  coins-le :
      SortLaw w
      → (s : Wallet w) (wanted : ℕ) (coins : Selection w) → spendable s.utxos < u64_mod
      → select_coins w s wanted ≡ ok coins
      → coins.total ≤ spendable s.utxos
  coins-le sorts s wanted coins fits h = elim (select_coins-total w sorts s wanted fits) [
    | inl (found, is_found, covered, below) ↦ let same : found ≡ coins = cc in rw same at below
    | inr (refused, short) ↦ absurd (cc)
  ]

  -- Two outputs that leave the fee of the coins.
  Pays-fee :
      (s : Wallet w) (wanted amount fee : ℕ) (coins : Selection w) (x y : Output c)
      → SortLaw w
      → UniqueKeys s.utxos
      → spendable s.utxos < u64_mod
      → select_coins w s wanted ≡ ok coins
      → amount + fee ≤ wanted
      → get_value x ≡ amount
      → get_value y ≡ sub64 (sub64 coins.total amount) fee
      → Pays s x (record { inputs = keys coins.selected; outputs = x ∷ y ∷ [] }) fee
  unfolding get_fee
  Pays-fee s wanted amount fee coins x y sorts unique fits h covers vx vy =
      let small = coins-le sorts s wanted coins fits h in
      let (chosen, worth, reached) = select_coins-selected w sorts s wanted coins unique fits h in
      let os = outputs_of coins.selected in
      let value_in : value_of os ≡ coins.total = value_of-outputs_of coins.selected ∙ worth in
      let change : sub64 (sub64 coins.total amount) fee ≡ coins.total - amount - fee =
        omega arith in
      let out : value_of (x ∷ y ∷ []) + fee ≡ coins.total = omega arith in
      let sum_in = sum64-eq-sum (map get_value os) (omega arith) in
      let sum_out = sum64-eq-sum (map get_value (x ∷ y ∷ [])) (omega arith) in
      (y, refl, (os, Spends-entries s.utxos coins.selected _ chosen, ground arith, omega arith))

  -- A transaction that the wallet creates pays the amount to the address and the rest to a second
  -- output; it spends unspent outputs of the wallet, and what its outputs leave of them is exactly
  -- the fee asked for, as long as the sums fit 64 bits and sorting permutes.
  pub create_transaction-Pays :
      SortLaw w
      → (s s' : Wallet w) (address : Address) (amount fee : ℕ) (t : Transaction c)
      → UniqueKeys s.utxos
      → spendable s.utxos < u64_mod
      → amount + fee < u64_mod
      → create_transaction w address amount fee s ≡ (ok t, s')
      → Pays s (record { address = address; content = value amount }) t fee
  unfolding create_transaction get_value content_value
  create_transaction-Pays sorts s s' address amount fee t unique fits small h =
      let (coins, s1, selected, rest) =
        Wallet.>>=-eq-ok w (reads w (λ s. select_coins w s (add64 amount fee)))
          (λ coins.
            Wallet.◌>>=◌ w (get_new_address w) (finish_transaction w address amount fee coins))
          s s' h in
      let (b, s2, fresh, built) =
        Wallet.>>=-eq-ok w (get_new_address w) (finish_transaction w address amount fee coins) s1 s'
          rest in
      let x : Output c = record { address = address; content = value amount } in
      let y : Output c = record {
        address = b;
        content = value (sub64 (sub64 coins.total amount) fee);
      } in
      let chosen : select_coins w s (add64 amount fee) ≡ ok coins = ground arith in
      let paid =
        Pays-fee s (add64 amount fee) amount fee coins x y sorts unique fits chosen (omega arith)
          refl refl in
      let same : record { inputs = keys coins.selected; outputs = x ∷ y ∷ [] } ≡ t = ground arith in
      subst (λ (u : Transaction c). Pays s x u fee) same paid

  -- A withdrawal that the wallet creates makes the withdrawal output asked for and a second output
  -- for the rest; it spends unspent outputs of the wallet, and what its outputs leave of them is
  -- the fee alone, without the mainchain fee, as long as the sums fit 64 bits and sorting
  -- permutes.
  pub create_withdrawal-Pays :
      SortLaw w
      → (s s' : Wallet w) (main_address : c.MainAddress) (amount main_fee fee : ℕ)
        (t : Transaction c)
      → UniqueKeys s.utxos
      → spendable s.utxos < u64_mod
      → amount + fee + main_fee < u64_mod
      → create_withdrawal w main_address amount main_fee fee s ≡ (ok t, s')
      → (a : Address) × Pays s
          (record { address = a; content = withdrawal amount main_fee main_address })
          t
          fee
  unfolding create_withdrawal get_value content_value
  create_withdrawal-Pays sorts s s' main_address amount main_fee fee t unique fits small h =
      let wanted = add64 (add64 amount fee) main_fee in
      let (coins, s1, selected, rest) =
        Wallet.>>=-eq-ok w (reads w (λ s. select_coins w s wanted))
          (λ coins. Wallet.◌>>=◌ w (get_new_address w) (λ a.
            Wallet.◌>>=◌ w (get_new_address w)
              (finish_withdrawal w main_address amount main_fee fee coins a)))
          s s' h in
      let (a, s2, fresh, rest') =
        Wallet.>>=-eq-ok w (get_new_address w)
          (λ a.
            Wallet.◌>>=◌ w (get_new_address w)
              (finish_withdrawal w main_address amount main_fee fee coins a))
          s1 s' rest in
      let (b, s3, fresh', built) =
        Wallet.>>=-eq-ok w (get_new_address w)
          (finish_withdrawal w main_address amount main_fee fee coins a) s2 s' rest' in
      let x : Output c = record {
        address = a;
        content = withdrawal amount main_fee main_address;
      } in
      let y : Output c = record {
        address = b;
        content = value (sub64 (sub64 coins.total amount) fee);
      } in
      let chosen : select_coins w s wanted ≡ ok coins = ground arith in
      let paid =
        Pays-fee s wanted amount fee coins x y sorts unique fits chosen (omega arith) refl refl in
      let same : record { inputs = keys coins.selected; outputs = x ∷ y ∷ [] } ≡ t = ground arith in
      (a, subst (λ (u : Transaction c). Pays s x u fee) same paid)

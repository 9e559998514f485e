-- ===== src/State/Validate.antt =====
-- What a successful `validate_body` has checked: fees, double spends, the coinbase.
use ddk.Prelude.{
  ℕ, ◌+◌, ◌≤◌, ◌<◌, ◌≡◌, List, [], ◌∷◌, arith, Result, ok, err, All, true, map, sum, sum64_from,
  sum64-eq-sum, u64_mod, ltb, add64, not, none, some, >>=-eq-ok, fail_if,
}
use ddk.Types.{Chain, Verify, OutPoint, Output, Transaction, FilledTransaction, Body, get_value}
use ddk.Types.Blocks.{inputs_of, get_inputs}
use ddk.Types.Filled.{get_fee}
use ddk.State.{
  State, Error, fill_transaction, fill_transactions, check_inputs, check_transactions,
  check_addresses, validate_filled_transaction, validate_body, not_enough_value_in, not_enough_fees,
  authorization_error, all_spent_utxos,
}
use ddk.State.Fill.{Spends, fill_transaction-ok}
use ddk.State.Fresh.{Distinct, Fresh-Distinct, Fresh, Fresh-append, check_inputs-Fresh}

-- The sum of the values of outputs.
abbrev pub value_of : {c : Chain} → List (Output c) → ℕ
value_of os = sum (map get_value os)

abbrev pub values_in : {c : Chain} → List (FilledTransaction c) → ℕ
values_in [] = 0
values_in (t ∷ ts) = value_of t.spent_utxos + values_in ts

abbrev pub values_out : {c : Chain} → List (Transaction c) → ℕ
values_out [] = 0
values_out (t ∷ ts) = value_of t.outputs + values_out ts

module _ {c : Chain} where
  -- The validation of a filled transaction agrees with `FilledTransaction::get_fee`: it returns
  -- that fee where there is one, and the error where there is none.
  pub validate_filled_transaction-get_fee :
      (t : FilledTransaction c)
      → validate_filled_transaction t
        ≡ elim (get_fee t) [ none ↦ err not_enough_value_in | some fee ↦ ok fee ]
  unfolding validate_filled_transaction get_fee
  validate_filled_transaction-get_fee t = ground arith

  -- With sums that fit 64 bits, the fee is what the outputs leave of the inputs.
  pub validate_filled_transaction-ok :
      (t : FilledTransaction c) {fee : ℕ}
      → validate_filled_transaction t ≡ ok fee
      → value_of t.spent_utxos < u64_mod
      → value_of t.transaction.outputs < u64_mod
      → fee + value_of t.transaction.outputs ≡ value_of t.spent_utxos
  unfolding validate_filled_transaction
  validate_filled_transaction-ok t h p q = ground (
    arith,
    sum64-eq-sum (map get_value t.spent_utxos) p,
    sum64-eq-sum (map get_value t.transaction.outputs) q,
  )

  -- The transactions of the filled ones are those of the block, and what they spend is there.
  abbrev pub FilledFrom : State c → List (Transaction c) → List (FilledTransaction c) → Type 0
  FilledFrom s [] [] = Unit
  FilledFrom s [] (f ∷ fs) = ⊥
  FilledFrom s (t ∷ ts) [] = ⊥
  FilledFrom s (t ∷ ts) (f ∷ fs) =
      (f.transaction ≡ t) × Spends s.utxos t.inputs f.spent_utxos × FilledFrom s ts fs

  pub fill_transactions-FilledFrom :
      (s : State c) (ts : List (Transaction c)) (fs : List (FilledTransaction c))
      → fill_transactions s ts ≡ ok fs
      → FilledFrom s ts fs
  unfolding fill_transactions
  fill_transactions-FilledFrom s [] [] h = tt
  fill_transactions-FilledFrom s [] (f ∷ fs) h = cc
  fill_transactions-FilledFrom s (t ∷ ts) fs h =
      let (f, filled, later) = >>=-eq-ok (fill_transaction s t) _ h in
      let (gs, rest, same) = >>=-eq-ok (fill_transactions s ts) _ later in
      let (first, spends) = fill_transaction-ok s t f filled in
      let built : FilledFrom s (t ∷ ts) (f ∷ gs) =
        (first, spends, fill_transactions-FilledFrom s ts gs rest) in
      subst_ok s (t ∷ ts) (f ∷ gs) fs same built
    where
      subst_ok :
          (s : State c) (ts : List (Transaction c)) (fs gs : List (FilledTransaction c))
          → ◌≡◌ {A = Result Error (List (FilledTransaction c))} (ok fs) (ok gs)
          → FilledFrom s ts fs
          → FilledFrom s ts gs
      subst_ok s ts fs gs e h = let same : fs ≡ gs = cc in rw same at h

  -- No input is spent twice, in one transaction or by two of them.
  pub check_transactions-Fresh :
      (s : State c) (spent : List OutPoint) (fees : ℕ) (ts : List (Transaction c))
      (fs : List (FilledTransaction c)) {total : ℕ}
      → FilledFrom s ts fs
      → check_transactions spent fees fs ≡ ok total
      → Fresh spent (inputs_of ts)
  unfolding check_transactions inputs_of
  check_transactions-Fresh s spent fees [] fs filled h = tt
  check_transactions-Fresh s spent fees (t ∷ ts) [] filled h = absurd filled
  check_transactions-Fresh s spent fees (t ∷ ts) (f ∷ fs) filled h =
      let (after, checked, later) = >>=-eq-ok (check_inputs spent f.transaction.inputs) _ h in
      let (fee, valid, rest) = >>=-eq-ok (validate_filled_transaction f) _ later in
      let (fresh, marked) = check_inputs-Fresh spent f.transaction.inputs checked in
      let first : Fresh spent t.inputs = rw filled.0 at fresh in
      let others : Fresh after (inputs_of ts) =
        check_transactions-Fresh s after (add64 fees fee) ts fs filled.2 rest in
      Fresh-append spent t.inputs (inputs_of ts) first (rw (← filled.0, ← marked) others)

  -- The fees are what the outputs of all transactions leave of their inputs.
  pub check_transactions-fees :
      (s : State c) (spent : List OutPoint) (fees : ℕ) (ts : List (Transaction c))
      (fs : List (FilledTransaction c)) {total : ℕ}
      → FilledFrom s ts fs
      → check_transactions spent fees fs ≡ ok total
      → fees + values_in fs < u64_mod
      → All (λ t. value_of t.outputs < u64_mod) ts
      → total + values_out ts ≡ fees + values_in fs
  unfolding check_transactions
  check_transactions-fees s spent fees [] [] filled h p q = ground arith
  check_transactions-fees s spent fees [] (f ∷ fs) filled h p q = absurd filled
  check_transactions-fees s spent fees (t ∷ ts) [] filled h p q = absurd filled
  check_transactions-fees s spent fees (t ∷ ts) (f ∷ fs) {total} filled h p q =
      let (after, checked, later) = >>=-eq-ok (check_inputs spent f.transaction.inputs) _ h in
      let (fee, valid, rest) = >>=-eq-ok (validate_filled_transaction f) _ later in
      let out : value_of f.transaction.outputs < u64_mod = rw filled.0 q.0 in
      let one : fee + value_of f.transaction.outputs ≡ value_of f.spent_utxos =
        validate_filled_transaction-ok f valid (omega arith) out in
      let one' : fee + value_of t.outputs ≡ value_of f.spent_utxos = rw (filled.0) at one in
      let sum_fits : add64 fees fee ≡ fees + fee = omega arith in
      let others : total + values_out ts ≡ add64 fees fee + values_in fs =
        check_transactions-fees s after (add64 fees fee) ts fs filled.2 rest (omega arith) q.1 in
      omega arith

-- The parts of a successful `validate_body`.
pub record Accepted {c : Chain} {A : Type 0} (verify : Verify c A) (s : State c) (b : Body c A)
    (fees : ℕ) : Type 0 where
  pub filled : List (FilledTransaction c)
  pub from : FilledFrom s b.transactions filled
  pub checked : check_transactions [] 0 filled ≡ ok fees
  pub covered : sum64_from 0 (map get_value b.coinbase) ≤ fees
  pub owned : check_addresses verify b.authorizations (all_spent_utxos filled) ≡ ok tt
  pub verified : verify.verify_body b ≡ true

pub validate_body-Accepted :
    {c : Chain} {A : Type 0} (verify : Verify c A) (s : State c) (b : Body c A) {fees : ℕ}
    → validate_body verify s b ≡ ok fees
    → Accepted verify s b fees
unfolding validate_body
validate_body-Accepted verify s b h =
    let (fs, filling, h1) = >>=-eq-ok (fill_transactions s b.transactions) _ h in
    let (total, checking, h2) = >>=-eq-ok (check_transactions [] 0 fs) _ h1 in
    let (u, enough, h3) =
      >>=-eq-ok (fail_if (ltb total (sum64_from 0 (map get_value b.coinbase))) not_enough_fees) _
        h2 in
    let (v, owning, h4) =
      >>=-eq-ok (check_addresses verify b.authorizations (all_spent_utxos fs)) _ h3 in
    let (w, verifying, h5) =
      >>=-eq-ok (fail_if (not (verify.verify_body b)) authorization_error) _ h4 in
    record {
      filled = fs;
      from = fill_transactions-FilledFrom s b.transactions fs filling;
      checked = ground arith;
      covered = ground arith;
      owned = ground arith;
      verified = ground arith;
    }

-- In an accepted block no outpoint is spent twice, neither by one transaction nor by two.
pub validate_body-Distinct :
    {c : Chain} {A : Type 0} (verify : Verify c A) (s : State c) (b : Body c A) {fees : ℕ}
    → validate_body verify s b ≡ ok fees
    → Distinct (get_inputs b)
unfolding get_inputs
validate_body-Distinct verify s b h =
    let a = validate_body-Accepted verify s b h in
    Fresh-Distinct (inputs_of b.transactions)
      (check_transactions-Fresh s [] 0 b.transactions a.filled a.from a.checked)

-- ===== src/Node/Accepted.antt =====
-- A block made of the transactions that the node gives out is accepted by the ledger.
use ddk.Prelude.{
  ℕ, ◌≤◌, ◌≡◌, ◌≢◌, refl, sym, ap, ◌∙◌, true, false, ◌||◌, inl, inr, List, [], ◌∷◌, ◌++◌, map,
  length, All, arith, ok, ltb, add64, sum64_from,
}
use mathlib.Core.Path.{subst}
use ddk.Types.{
  Chain, OutPoint, Output, Transaction, FilledTransaction, AuthorizedTransaction, Body, get_value,
  out_point_key, number_key,
}
use ddk.Types.Blocks.{new}
use ddk.Types.Gather.{authorizations_of, transactions_of, new_lem}
use ddk.State.{
  contains, fill_transactions, check_inputs, check_transactions, check_addresses, all_spent_utxos,
  validate_body,
}
use ddk.State.Fill.{Spends, fill_transaction_lem}
use ddk.State.Fresh.{Distinct, Avoids, mark, Avoids-Fresh, Fresh-check_inputs}
use ddk.State.Owners.{Spends-length}
use ddk.Node.{World, Node, overlaps}
use ddk.Node.Submit.{Validated, validate_transaction-Validated}
use ddk.Node.Template.{Collected}

contains-append :
    (k : OutPoint) (is js : List OutPoint) → contains k (is ++ js) ≡ contains k is || contains k js
unfolding contains
contains-append k [] js = refl
contains-append k (i ∷ is) js = ground (arith, contains-append k is js)

-- Every outpoint of the first list is in the second.
abbrev Sub : List OutPoint → List OutPoint → Type 0
Sub ms spent = All (λ j. contains j spent ≡ true) ms

Sub-append : (ms is js : List OutPoint) → Sub ms is → Sub ms (is ++ js)
Sub-append [] is js h = tt
Sub-append (m ∷ ms) is js h =
    (ground (arith, h.0, contains-append m is js), Sub-append ms is js h.1)

Sub-append_right : (ms is js : List OutPoint) → Sub ms js → Sub ms (is ++ js)
Sub-append_right [] is js h = tt
Sub-append_right (m ∷ ms) is js h =
    (ground (arith, h.0, contains-append m is js), Sub-append_right ms is js h.1)

Sub-cons : (k : OutPoint) (ms is : List OutPoint) → Sub ms is → Sub ms (k ∷ is)
unfolding contains
Sub-cons k [] is h = tt
Sub-cons k (m ∷ ms) is h = (ground (arith, h.0), Sub-cons k ms is h.1)

Sub-self : (is : List OutPoint) → Sub is is
unfolding contains
Sub-self [] = tt
Sub-self (i ∷ is) = (ground arith, Sub-cons i is is (Sub-self is))

Sub-mark : (ms is spent : List OutPoint) → Sub ms spent → Sub is spent → Sub (mark ms is) spent
Sub-mark ms [] spent h k = h
Sub-mark ms (i ∷ is) spent h k = Sub-mark (i ∷ ms) is spent (k.0, h) k.1

Sub-apart :
    (i : OutPoint) (ms spent : List OutPoint)
    → Sub ms spent
    → contains i spent ≡ false
    → All (λ j. i ≢ j) ms
Sub-apart i [] spent h k = tt
Sub-apart i (m ∷ ms) spent h k =
    ((λ e. absurd (ground (arith, h.0, k, e))), Sub-apart i ms spent h.1 k)

module _ {c : Chain} {A : Type 0} (w : World c A) where
  overlaps-Avoids :
      (ms spent is : List OutPoint) → Sub ms spent → overlaps w spent is ≡ false → Avoids ms is
  unfolding overlaps
  overlaps-Avoids ms spent [] h k = tt
  overlaps-Avoids ms spent (i ∷ is) h k =
      (Sub-apart i ms spent h (ground arith), overlaps-Avoids ms spent is h (ground arith))

  check_addresses-append :
      (auths bs : List A) (os ps : List (Output c))
      → length auths ≡ length os
      → check_addresses w.verify auths os ≡ ok tt
      → check_addresses w.verify bs ps ≡ ok tt
      → check_addresses w.verify (auths ++ bs) (os ++ ps) ≡ ok tt
  unfolding check_addresses
  check_addresses-append [] bs [] ps n h k = k
  check_addresses-append [] bs (o ∷ os) ps n h k = absurd (omega arith)
  check_addresses-append (a ∷ auths) bs [] ps n h k = absurd (omega arith)
  check_addresses-append (a ∷ auths) bs (o ∷ os) ps n h k =
      elim (number_key.discrete (w.verify.get_address a) o.address) [
        | yes p ↦
            ground (arith, check_addresses-append auths bs os ps (omega arith) (ground arith) k)
        | no p ↦ absurd (ground arith)
      ]

  -- A transaction with distinct inputs and one authorization for each.
  abbrev pub IsFit : AuthorizedTransaction c A → Type 0
  IsFit t = Distinct t.transaction.inputs × (length t.authorizations ≡ length t.transaction.inputs)

  -- What the checks of a block find in the transactions.
  abbrev Checked : Node w → List OutPoint → ℕ → List (AuthorizedTransaction c A) → ℕ → Type 0
  Checked n ms fee ts total =
      (fs : List (FilledTransaction c)) × (fill_transactions n.state (transactions_of ts) ≡ ok fs)
      × (check_transactions ms fee fs ≡ ok total)
      × (check_addresses w.verify (authorizations_of ts) (all_spent_utxos fs) ≡ ok tt)

  Validated-whole :
      (n : Node w) (t : AuthorizedTransaction c A) (f : ℕ) (v : Validated w n t f)
      → (v.filled.transaction ≡ t.transaction)
        × Spends n.state.utxos t.transaction.inputs v.filled.spent_utxos
  Validated-whole n t f v = elim (fill_transaction_lem n.state t.transaction) [
    | inl (g, e, whole, present, spends) ↦
        let same : g ≡ v.filled = ground (arith, v.is_filled, e) in
        subst
          (λ (x : FilledTransaction c).
            (x.transaction ≡ t.transaction)
            × Spends n.state.utxos t.transaction.inputs x.spent_utxos)
          same (whole, spends)
    | inr (i, e, missing) ↦ absurd (ground (arith, v.is_filled, e))
  ]

  Collected-Checked :
      (n : Node w) (ms spent : List OutPoint) (fee total : ℕ)
      (ts : List (AuthorizedTransaction c A))
      → Sub ms spent
      → All IsFit ts
      → Collected w n spent fee ts total
      → Checked n ms fee ts total
  unfolding fill_transactions check_transactions check_addresses all_spent_utxos
  Collected-Checked n ms spent fee total [] sub fit h = ([], refl, ap ok h, refl)
  Collected-Checked n ms spent fee total (t ∷ ts) sub fit (apart, (f, valid, rest)) =
      let v = validate_transaction-Validated w n t valid in
      let (whole, spends) = Validated-whole n t f v in
      let is = t.transaction.inputs in
      let fresh = Avoids-Fresh ms is (overlaps-Avoids ms spent is sub apart) fit.0.0 in
      let marked : check_inputs ms v.filled.transaction.inputs ≡ ok (mark ms is) =
        ap (λ (x : Transaction c). check_inputs ms x.inputs) whole
        ∙ Fresh-check_inputs ms is fresh in
      let (fs, filled, checked, owned) =
        Collected-Checked n (mark ms is) (spent ++ is) (add64 fee f) total ts
          (Sub-mark ms is (spent ++ is) (Sub-append ms spent is sub)
            (Sub-append_right is spent is (Sub-self is)))
          fit.1 rest in
      (
        v.filled ∷ fs,
        rw v.is_filled (rw filled refl),
        rw marked (rw v.paid checked),
        check_addresses-append t.authorizations (authorizations_of ts) v.filled.spent_utxos
            (all_spent_utxos fs)
            (fit.0.1 ∙ Spends-length w.verify n.state is v.filled.spent_utxos spends) v.owned owned,
      )

  -- If the node gives out transactions with distinct inputs and one authorization for each input,
  -- the coinbase is worth at most their fees and their authorizations are verified together, then
  -- the ledger accepts the block that `new` makes of them, with these fees.
  pub validate_body-new :
      (n : Node w) (ts : List (AuthorizedTransaction c A)) (fee : ℕ) (coinbase : List (Output c))
      → Collected w n [] 0 ts fee
      → All IsFit ts
      → sum64_from 0 (map get_value coinbase) ≤ fee
      → w.verify.verify_body (new ts coinbase) ≡ true
      → validate_body w.verify n.state (new ts coinbase) ≡ ok fee
  unfolding validate_body
  validate_body-new n ts fee coinbase h fit covered verified =
      let (fs, filled, checked, owned) = Collected-Checked n [] [] 0 fee ts tt fit h in
      let b : Body c A = record {
        coinbase = coinbase;
        transactions = transactions_of ts;
        authorizations = authorizations_of ts;
      } in
      let verified' : w.verify.verify_body b ≡ true =
        ap w.verify.verify_body (sym (new_lem ts coinbase)) ∙ verified in
      let enough : ltb fee (sum64_from 0 (map get_value coinbase)) ≡ false = ground arith in
      let accepted : validate_body w.verify n.state b ≡ ok fee =
        rw (filled, checked, enough, owned, verified') refl in
      ap (validate_body w.verify n.state) (new_lem ts coinbase) ∙ accepted

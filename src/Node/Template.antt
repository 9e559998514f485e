-- ===== src/Node/Template.antt =====
-- The transactions that the node gives out for a block (`get_transactions` of src/node.rs).
use ddk.Prelude.{
  All, Result-cases, ℕ, ◌≡◌, ◌<◌, refl, sym, ◌∙◌, arith, false, Bool-cases, List, [], ◌∷◌, ◌++◌,
  map, Result, ok, err, map_err, u64_mod, add64, sub64, sum64_from, sum64_from-mod, inl, inr,
  >>=-eq-ok,
}
use mathlib.Core.Path.{subst}
use ddk.Types.{Chain, OutPoint, FilledTransaction, AuthorizedTransaction, txid, get_value}
use ddk.State.{fill_transaction, validate_filled_transaction}
use ddk.Mempool.{remove, take_some}
use ddk.Mempool.Consistent.{IsConsistent, remove-IsConsistent}
use ddk.Node.{
  World, Error, Node, Picked, validate_transaction, pick_transactions, overlaps, get_transactions,
}
use ddk.Node.Submit.{validate_transaction-Validated}
use mathlib.Core.List.{append_assoc, append-nil}

-- The fee of a valid transaction is the wrapping difference of its sums.
pub validate_filled_transaction-sub64 :
    {c : Chain} (t : FilledTransaction c) {fee : ℕ}
    → validate_filled_transaction t ≡ ok fee
    → sub64
        (sum64_from 0 (map get_value t.spent_utxos))
        (sum64_from 0 (map get_value t.transaction.outputs))
      ≡ fee
unfolding validate_filled_transaction
validate_filled_transaction-sub64 t h =
    let value_in = map get_value t.spent_utxos in
    let value_out = map get_value t.transaction.outputs in
    let low_in : sum64_from 0 value_in < u64_mod =
      omega (arith, sum64_from-mod 0 value_in (omega arith)) in
    let low_out : sum64_from 0 value_out < u64_mod =
      omega (arith, sum64_from-mod 0 value_out (omega arith)) in
    ground arith

All-Unit : {T : Type 0} (ts : List T) → All (λ t. Unit {0}) ts
All-Unit [] = tt
All-Unit (t ∷ ts) = (tt, All-Unit ts)

module _ {c : Chain} {A : Type 0} (w : World c A) where
  -- Transactions that are valid in turn, each spending nothing that one before it spends, with
  -- the sum of their fees from a first sum on.
  abbrev pub Collected : Node w → List OutPoint → ℕ → List (AuthorizedTransaction c A) → ℕ → Type 0
  Collected n spent fee [] total = fee ≡ total
  Collected n spent fee (t ∷ ts) total =
      (overlaps w spent t.transaction.inputs ≡ false)
      × ((f : ℕ) × (validate_transaction w n t ≡ ok f)
          × Collected n (spent ++ t.transaction.inputs) (add64 fee f) ts total)

  -- What a run of the loop from `p` gives.
  abbrev Run : Node w → List (AuthorizedTransaction c A) → Picked w → Type 0
  Run n ts p =
      (p' : Picked w) × (more : List (AuthorizedTransaction c A)) × (pick_transactions w n ts p
        ≡ ok p')
      × (p'.returned ≡ p.returned ++ more)
      × Collected n p.spent p.fee more p'.fee

  pick_transactions-Run :
      (n : Node w) (ts : List (AuthorizedTransaction c A)) (p : Picked w) → Run n ts p
  unfolding pick_transactions
  pick_transactions-Run n [] p = (p, [], refl, sym (append-nil p.returned), refl)
  pick_transactions-Run n (t ∷ ts) p =
      let (q, more, run, returned, collected) =
        pick_transactions-Run n ts
          (record p { pool = remove p.pool (txid w.codec t.transaction) }) in
      elim (Bool-cases (overlaps w p.spent t.transaction.inputs)) [
        | inl clash ↦ (q, more, rw clash run, returned, collected)
        | inr apart ↦ go (λ k. pick_transactions-Run n ts k) (validate_transaction w n t) refl apart
      ]
    where
      go :
          (later : (k : Picked w) → Run n ts k) (r : Result (Error w) ℕ)
          → validate_transaction w n t ≡ r
          → overlaps w p.spent t.transaction.inputs ≡ false
          → Run n (t ∷ ts) p
      go later (err e) h apart =
          let (q, more, run, returned, collected) =
            later (record p { pool = remove p.pool (txid w.codec t.transaction) }) in
          (q, more, rw apart (rw h run), returned, collected)
      go later (ok f) h apart =
          let v = validate_transaction-Validated w n t h in
          let value_in = sum64_from 0 (map get_value v.filled.spent_utxos) in
          let value_out = sum64_from 0 (map get_value v.filled.transaction.outputs) in
          let fee = validate_filled_transaction-sub64 v.filled v.paid in
          let (q, more, run, returned, collected) = later (record p {
            fee = add64 p.fee (sub64 value_in value_out);
            returned = p.returned ++ t ∷ [];
            spent = p.spent ++ t.transaction.inputs;
          }) in
          (
            q,
            t ∷ more,
            rw apart (rw h (rw v.is_filled run)),
            returned ∙ append_assoc p.returned (t ∷ []) more,
            (
              apart,
              (
                f,
                h,
                subst
                    (λ (x : ℕ).
                      Collected n (p.spent ++ t.transaction.inputs) (add64 p.fee x) more q.fee)
                    fee collected,
              ),
            ),
          )

  -- For every node and number, the node gives out transactions: each is valid, none spends what
  -- one before it spends, and the fee is the sum of their fees, modulo 2^64.
  pub get_transactions-Collected :
      (n : Node w) (number : ℕ)
      → (n' : Node w) × (ts : List (AuthorizedTransaction c A)) × (fee : ℕ) × (get_transactions w n
            number
          ≡ ok (n', (ts, fee)))
        × Collected n [] 0 ts fee
  unfolding get_transactions
  get_transactions-Collected n number =
      let (p, more, run, returned, collected) =
        pick_transactions-Run n (take_some n.mempool number)
          (record { pool = n.mempool; fee = 0; returned = []; spent = [] }) in
      (
        record n { mempool = p.pool },
        p.returned,
        p.fee,
        rw run refl,
        rw (sym returned) at collected,
      )

  -- What the loop keeps: it holds after a transaction is evicted, and after one is taken.
  pub pick_transactions-keeps :
      (n : Node w) (P : Picked w → Type 0) (Q : AuthorizedTransaction c A → Type 0)
      → ((p : Picked w) (t : AuthorizedTransaction c A)
          → P p
          → P (record p { pool = remove p.pool (txid w.codec t.transaction) }))
      → ((p : Picked w) (t : AuthorizedTransaction c A) (fee : ℕ)
          → Q t
          → P p
          → P (record p {
            fee = fee;
            returned = p.returned ++ t ∷ [];
            spent = p.spent ++ t.transaction.inputs;
          }))
      → (ts : List (AuthorizedTransaction c A)) (p q : Picked w) → All Q ts
      → P p
      → pick_transactions w n ts p ≡ ok q
      → P q
  unfolding pick_transactions
  pick_transactions-keeps n P Q evict keep [] p q good old h =
      let same : p ≡ q = ground arith in subst P same old
  pick_transactions-keeps n P Q evict keep (t ∷ ts) p q good old h =
      let gone = record p { pool = remove p.pool (txid w.codec t.transaction) } in
      let evicted : pick_transactions w n ts gone ≡ ok q → P q =
        pick_transactions-keeps n P Q evict keep ts gone q good.1 (evict p t old) in
      elim (Bool-cases (overlaps w p.spent t.transaction.inputs)) [
        | inl clash ↦ evicted (rw clash at h)
        | inr apart ↦
            let h1 = rw apart at h in
            elim (Result-cases (validate_transaction w n t)) [
              | inr (e, rejected) ↦ evicted (rw rejected at h1)
              | inl (f, valid) ↦
                  let h2 = rw valid at h1 in
                  let (filled, e2, h3) =
                    >>=-eq-ok (map_err Error.state (fill_transaction n.state t.transaction)) _ h2 in
                  pick_transactions-keeps n P Q evict keep ts _ q good.1 (keep p t _ good.0 old) h3
            ]
      ]

  pick_transactions-IsConsistent :
      (n : Node w) (ts : List (AuthorizedTransaction c A)) (p q : Picked w)
      → IsConsistent p.pool
      → pick_transactions w n ts p ≡ ok q
      → IsConsistent q.pool
  pick_transactions-IsConsistent n ts p q =
      pick_transactions-keeps n (λ k. IsConsistent k.pool) (λ t. Unit {0})
        (λ k t old. remove-IsConsistent w.codec k.pool (txid w.codec t.transaction) old)
        (λ k t fee u old. old) ts p q (All-Unit ts)

  -- Giving out transactions for a block keeps the pool consistent: the inputs of each transaction
  -- left are distinct and marked, and no two of them spend the same output.
  pub get_transactions-IsConsistent :
      (n n' : Node w) (number : ℕ) {out : List (AuthorizedTransaction c A) × ℕ}
      → IsConsistent n.mempool
      → get_transactions w n number ≡ ok (n', out)
      → IsConsistent n'.mempool
  unfolding get_transactions
  get_transactions-IsConsistent n n' number old h =
      let start : Picked w = record { pool = n.mempool; fee = 0; returned = []; spent = [] } in
      let (p, e, k) = >>=-eq-ok (pick_transactions w n (take_some n.mempool number) start) _ h in
      let same : p.pool ≡ n'.mempool = ground arith in
      subst (λ (x : _). IsConsistent x) same
        (pick_transactions-IsConsistent n (take_some n.mempool number) start p old e)

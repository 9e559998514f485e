-- ===== src/Mempool/Marks.antt =====
-- The marking of inputs as spent.
use ddk.Prelude.{
  ◌≡◌, ◌≢◌, ◌↔◌, refl, none, some, List, [], ◌∷◌, arith, All, true, inl, inr, is_some, ok, err,
  if◌then◌else◌, Option-cases, >>=-eq-ok,
}
use ddk.Table.{Table, get, put}
use ddk.Table.Laws.{get-put}
use ddk.Types.{Chain, Codec, OutPoint, AuthorizedTransaction, txid, out_point_key, number_key}
use ddk.State.{contains}
use ddk.State.Fresh.{Distinct}
use ddk.Mempool.{Mempool, utxo_double_spent, mark_inputs, insert, remove}

abbrev pub Marks : Type 0
Marks = Table OutPoint (Unit {0})

-- None of the outpoints is marked.
abbrev pub Unmarked : Marks → List OutPoint → Type 0
Unmarked spent is = All (λ i. get i spent ≡ none) is

Unmarked-put :
    (i : OutPoint) (spent : Marks) (is : List OutPoint)
    → Unmarked (put i tt spent) is
    → All (λ j. i ≢ j) is × Unmarked spent is
Unmarked-put i spent [] h = (tt, tt)
Unmarked-put i spent (j ∷ is) h =
    let (apart, rest) = Unmarked-put i spent is h.1 in
    (
      (ground (arith, get-put j i tt spent, h.0), apart),
      (ground (arith, get-put j i tt spent, h.0), rest),
    )

put-Unmarked :
    (i : OutPoint) (spent : Marks) (is : List OutPoint)
    → All (λ j. i ≢ j) is
    → Unmarked spent is
    → Unmarked (put i tt spent) is
put-Unmarked i spent [] p h = tt
put-Unmarked i spent (j ∷ is) p h =
    (ground (arith, get-put j i tt spent, h.0, p.0), put-Unmarked i spent is p.1 h.1)

-- The loop succeeds only on distinct inputs that are not marked, and marks these and no others.
pub mark_inputs-ok :
    (spent spent' : Marks) (is : List OutPoint)
    → mark_inputs spent is ≡ ok spent'
    → Distinct is
      × Unmarked spent is
      × ((k : OutPoint) → get k spent' ≡ (if contains k is then some tt else get k spent))
unfolding mark_inputs contains
mark_inputs-ok spent spent' [] h = (tt, tt, λ k. ground arith)
mark_inputs-ok spent spent' (i ∷ is) h = elim (Option-cases (get i spent)) [
  | inl free ↦
      let (distinct, unmarked, marks) = mark_inputs-ok (put i tt spent) spent' is (ground arith) in
      let (apart, rest) = Unmarked-put i spent is unmarked in
      ((apart, distinct), (free, rest), λ k. ground (arith, marks k, get-put k i tt spent))
  | inr (u, marked) ↦ absurd (ground arith)
]

pub mark_inputs-succeeds :
    (spent : Marks) (is : List OutPoint)
    → Distinct is
    → Unmarked spent is
    → (spent' : Marks) × (mark_inputs spent is ≡ ok spent')
unfolding mark_inputs
mark_inputs-succeeds spent [] d h = (spent, refl)
mark_inputs-succeeds spent (i ∷ is) d h =
    let (after, done) =
      mark_inputs-succeeds (put i tt spent) is d.1 (put-Unmarked i spent is d.0 h.1) in
    (after, ground (arith, h.0))

-- The loop fails as soon as one of the inputs is marked.
pub mark_inputs-marked :
    (spent : Marks) (i : OutPoint) (is : List OutPoint)
    → contains i is ≡ true
    → is_some (get i spent) ≡ true
    → mark_inputs spent is ≡ err utxo_double_spent
unfolding mark_inputs contains
mark_inputs-marked spent i [] h m = absurd (ground arith)
mark_inputs-marked spent i (j ∷ is) h m = elim (out_point_key.discrete i j) [
  | yes p ↦ ground arith
  | no p ↦ ground (arith, mark_inputs-marked (put j tt spent) i is, get-put i j tt spent)
]

module _ {c : Chain} {A : Type 0} (codec : Codec c) where
  -- A transaction is added exactly when its inputs are distinct and none of them is marked.
  pub insert_iff :
      (m : Mempool c A) (t : AuthorizedTransaction c A)
      → ((m' : Mempool c A) × (insert codec m t ≡ ok m'))
        ↔ (Distinct t.transaction.inputs × Unmarked m.spent_utxos t.transaction.inputs)
  unfolding insert
  insert_iff m t = (forth, back)
    where
      forth :
          (m' : Mempool c A) × (insert codec m t ≡ ok m')
          → Distinct t.transaction.inputs × Unmarked m.spent_utxos t.transaction.inputs
      forth (m', h) =
          let (spent, marking, rest) =
            >>=-eq-ok (mark_inputs m.spent_utxos t.transaction.inputs) _ h in
          let (distinct, unmarked, marks) =
            mark_inputs-ok m.spent_utxos spent t.transaction.inputs marking in
          (distinct, unmarked)

      back :
          Distinct t.transaction.inputs × Unmarked m.spent_utxos t.transaction.inputs
          → (m' : Mempool c A) × (insert codec m t ≡ ok m')
      back (distinct, unmarked) =
          let (spent, marking) =
            mark_inputs-succeeds m.spent_utxos t.transaction.inputs distinct unmarked in
          (
            record m {
              spent_utxos = spent;
              transactions = put (txid codec t.transaction) t m.transactions;
            },
            rw marking refl,
          )

  -- Once a transaction is in the pool, none that spends one of its inputs is added.
  pub insert-again :
      (m m' : Mempool c A) (t u : AuthorizedTransaction c A) (i : OutPoint)
      → insert codec m t ≡ ok m'
      → contains i t.transaction.inputs ≡ true
      → contains i u.transaction.inputs ≡ true
      → insert codec m' u ≡ err utxo_double_spent
  unfolding insert
  insert-again m m' t u i h spends again =
      let (spent, marking, rest) = >>=-eq-ok (mark_inputs m.spent_utxos t.transaction.inputs) _ h in
      let (distinct, unmarked, marks) =
        mark_inputs-ok m.spent_utxos spent t.transaction.inputs marking in
      let marked : is_some (get i spent) ≡ true = ground (arith, marks i) in
      let same : m'.spent_utxos ≡ spent = ground arith in
      ground (arith, mark_inputs-marked spent i u.transaction.inputs again marked)

  -- A transaction that was deleted from the pool leaves its inputs marked: no transaction that
  -- spends one of them can be added any more, the deleted one included.
  pub remove_keeps_marks :
      (m m' : Mempool c A) (t u : AuthorizedTransaction c A) (i : OutPoint)
      → insert codec m t ≡ ok m'
      → contains i t.transaction.inputs ≡ true
      → contains i u.transaction.inputs ≡ true
      → insert codec (remove m' (txid codec t.transaction)) u ≡ err utxo_double_spent
  unfolding insert remove
  remove_keeps_marks m m' t u i h spends again =
      let refused = insert-again m m' t u i h spends again in ground (arith, refused)

-- ===== src/Mempool/Consistent.antt =====
-- The pool's invariant: its transactions spend different outpoints, and all of these are marked.
use ddk.Prelude.{
  ◌≡◌, ◌≢◌, sym, none, some, Option, List, [], ◌∷◌, arith, All, true, is_some, ok, if◌then◌else◌,
  >>=-eq-ok, ◌∙◌, ◌⊎◌, inl, inr,
}
use ddk.Table.{Table, get, put}
use ddk.Table.Laws.{get-put, get-delete}
use ddk.Types.{Chain, Codec, OutPoint, AuthorizedTransaction, Hash, txid, out_point_key, number_key}
use ddk.State.{contains}
use ddk.State.Fresh.{Distinct}
use ddk.Mempool.{Mempool, mark_inputs, insert, remove}
use ddk.Mempool.Marks.{Marks, Unmarked, mark_inputs-ok}

-- Every one of the outpoints is marked.
abbrev pub Marked : Marks → List OutPoint → Type 0
Marked spent is = All (λ i. is_some (get i spent) ≡ true) is

-- The two lists share no outpoint.
abbrev pub Disjoint : List OutPoint → List OutPoint → Type 0
Disjoint is js = All (λ i. All (λ j. i ≢ j) js) is

pub record IsConsistent {c : Chain} {A : Type 0} (m : Mempool c A) : Type 0 where
  pub marked :
      (k : Hash) (t : AuthorizedTransaction c A)
      → get k m.transactions ≡ some t
      → Marked m.spent_utxos t.transaction.inputs
  pub distinct :
      (k : Hash) (t : AuthorizedTransaction c A)
      → get k m.transactions ≡ some t
      → Distinct t.transaction.inputs
  pub disjoint :
      (j k : Hash) (s t : AuthorizedTransaction c A)
      → j ≢ k
      → get j m.transactions ≡ some s
      → get k m.transactions ≡ some t
      → Disjoint s.transaction.inputs t.transaction.inputs

Marked-apart :
    (spent : Marks) (i : OutPoint) (js : List OutPoint)
    → get i spent ≡ none
    → Marked spent js
    → All (λ j. i ≢ j) js
Marked-apart spent i [] h m = tt
Marked-apart spent i (j ∷ js) h m = (λ e. clash (rw e at h) m.0, Marked-apart spent i js h m.1)
  where
    clash : {o : Option (Unit {0})} → o ≡ none → is_some o ≡ true → ⊥
    clash p q = ground arith

Unmarked-Disjoint :
    (spent : Marks) (is js : List OutPoint) → Unmarked spent is → Marked spent js → Disjoint is js
Unmarked-Disjoint spent [] js h m = tt
Unmarked-Disjoint spent (i ∷ is) js h m =
    (Marked-apart spent i js h.0 m, Unmarked-Disjoint spent is js h.1 m)

Disjoint-cons :
    (i : OutPoint) (is js : List OutPoint)
    → All (λ j. i ≢ j) js
    → Disjoint js is
    → Disjoint js (i ∷ is)
Disjoint-cons i is [] p h = tt
Disjoint-cons i is (j ∷ js) p h = ((λ e. p.0 (sym e), h.0), Disjoint-cons i is js p.1 h.1)

Disjoint-nil : (is : List OutPoint) → Disjoint is []
Disjoint-nil [] = tt
Disjoint-nil (i ∷ is) = (tt, Disjoint-nil is)

Disjoint-sym : (is js : List OutPoint) → Disjoint is js → Disjoint js is
Disjoint-sym [] js h = Disjoint-nil js
Disjoint-sym (i ∷ is) js h = Disjoint-cons i is js h.0 (Disjoint-sym is js h.1)

-- Marks only grow, and the inputs of the new transaction are among them.
Marked-grows :
    (spent spent' : Marks) (is js : List OutPoint)
    → ((k : OutPoint) → get k spent' ≡ (if contains k is then some tt else get k spent))
    → Marked spent js
    → Marked spent' js
Marked-grows spent spent' is [] grow m = tt
Marked-grows spent spent' is (j ∷ js) grow m =
    (ground (arith, grow j, m.0), Marked-grows spent spent' is js grow m.1)

Marked-self :
    (spent : Marks) (is js : List OutPoint)
    → ((k : OutPoint) → contains k js ≡ true → is_some (get k spent) ≡ true)
    → (k : (i : OutPoint) → contains i is ≡ true → contains i js ≡ true) → Marked spent is
unfolding contains
Marked-self spent [] js h k = tt
Marked-self spent (i ∷ is) js h k =
    (h i (k i (ground arith)), Marked-self spent is js h (λ j p. k j (ground arith)))

-- Where an entry of a table comes from after a write.
get-put_origin :
    {V : Type 0} (k j : Hash) (v w : V) (t : Table Hash V)
    → get k (put j v t) ≡ some w
    → ((k ≡ j) × (w ≡ v)) ⊎ ((k ≢ j) × (get k t ≡ some w))
get-put_origin k j v w t h = elim (number_key.discrete k j) [
  | yes p ↦ inl (p, ground (arith, get-put k j v t))
  | no p ↦ inr (p, ground (arith, get-put k j v t))
]

module _ {c : Chain} {A : Type 0} (codec : Codec c) where
  -- Adding a transaction to the pool keeps it consistent: each transaction's inputs are distinct
  -- and marked, and no two transactions of the pool spend the same output.
  pub insert-IsConsistent :
      (m m' : Mempool c A) (t : AuthorizedTransaction c A)
      → IsConsistent m
      → insert codec m t ≡ ok m'
      → IsConsistent m'
  unfolding insert
  insert-IsConsistent m m' t old h =
      let (spent, marking, rest) = >>=-eq-ok (mark_inputs m.spent_utxos t.transaction.inputs) _ h in
      rebuilt spent (mark_inputs-ok m.spent_utxos spent t.transaction.inputs marking) (ground arith)
        (ground arith)
    where
      rebuilt :
          (spent : Marks)
          → Distinct t.transaction.inputs
            × Unmarked m.spent_utxos t.transaction.inputs
            × ((k : OutPoint)
                → get k spent
                  ≡ (if contains k t.transaction.inputs then some tt else get k m.spent_utxos))
          → m'.spent_utxos ≡ spent
          → m'.transactions ≡ put (txid codec t.transaction) t m.transactions
          → IsConsistent m'
      rebuilt spent (distinct, unmarked, marks) same stored = record {
        marked = λ k u g. elim (get-put_origin k _ t u m.transactions (rw stored at g)) [
          | inl (_, e) ↦
              rw (same, e)
                (Marked-self spent t.transaction.inputs t.transaction.inputs
                  (λ i p. ground (arith, marks i)) (λ i p. p))
          | inr (_, e) ↦ rw same (
              Marked-grows m.spent_utxos spent t.transaction.inputs u.transaction.inputs marks
                (old.marked k u e))
        ];
        distinct = λ k u g. elim (get-put_origin k _ t u m.transactions (rw stored at g)) [
          | inl (_, e) ↦ rw e distinct
          | inr (_, e) ↦ old.distinct k u e
        ];
        disjoint = λ j k u v ne gu gv.
            elim (get-put_origin j _ t u m.transactions (rw stored at gu)) [
              | inl (ju, eu) ↦ elim (get-put_origin k _ t v m.transactions (rw stored at gv)) [
                | inl (kv, ev) ↦ absurd (ne (ju ∙ sym kv))
                | inr (_, ev) ↦ rw eu (
                    Unmarked-Disjoint m.spent_utxos t.transaction.inputs v.transaction.inputs
                      unmarked (old.marked k v ev))
              ]
              | inr (_, eu) ↦ elim (get-put_origin k _ t v m.transactions (rw stored at gv)) [
                | inl (kv, ev) ↦ rw ev (
                    Disjoint-sym t.transaction.inputs u.transaction.inputs (
                      Unmarked-Disjoint m.spent_utxos t.transaction.inputs u.transaction.inputs
                        unmarked (old.marked j u eu)))
                | inr (_, ev) ↦ old.disjoint j k u v ne eu ev
              ]
            ];
      }

  -- Deleting a transaction from the pool keeps it consistent: the inputs of each transaction left
  -- are distinct and marked, and no two of them spend the same output.
  pub remove-IsConsistent :
      (m : Mempool c A) (id : Hash) → IsConsistent m → IsConsistent (remove m id)
  unfolding remove
  remove-IsConsistent m id old = record {
    marked = λ k u g. old.marked k u (ground (arith, get-delete k id m.transactions));
    distinct = λ k u g. old.distinct k u (ground (arith, get-delete k id m.transactions));
    disjoint = λ j k u v ne gu gv.
        old.disjoint j k u v ne (ground (arith, get-delete j id m.transactions))
          (ground (arith, get-delete k id m.transactions));
  }

-- ===== src/State/Effect.antt =====
-- What `connect_body` leaves under each outpoint.
use ddk.Prelude.{
  ◌≡◌, refl, Option, none, some, List, [], ◌∷◌, ◌++◌, arith, All, true, if◌then◌else◌, ◌||◌,
}
use ddk.Table.{Key, Table, get, put, put_all, delete, delete_all}
use ddk.Table.Laws.{get-put, get-delete}
use ddk.Types.{Chain, Codec, OutPoint, Output, Transaction, Body, out_point_key}
use ddk.Types.Blocks.{
  inputs_of, get_inputs, insert_outputs, get_outputs, transaction_entries, coinbase_entries,
}
use ddk.State.{State, contains, connect_transactions, connect_body}

-- The new value where there is one, and else the old.
abbrev pub overlay : {V : Type 0} → Option V → Option V → Option V
overlay (some v) old = some v
overlay none old = old

module _ {K V : Type 0} ⦃e : Key K⦄ where
  pub get-put_all :
      (k : K) (l : List (K × V)) (t : Table K V)
      → get k (put_all l t) ≡ overlay (get k (put_all l [])) (get k t)
  unfolding put_all get
  get-put_all k [] t = refl
  get-put_all k ((j, v) ∷ l) t = ground (
    arith,
    get-put_all k l (put j v t),
    get-put_all k l (put j v []),
    get-put k j v t,
    get-put k j v [],
  )

  pub get-delete_all :
      (k : K) (ks : List K) (t : Table K V)
      → get k (delete_all ks t) ≡ (if contains k ks then none else get k t)
  unfolding delete_all contains
  get-delete_all k [] t = refl
  get-delete_all k (j ∷ ks) t = ground (arith, get-delete_all k ks (delete j t), get-delete k j t)

module _ {K : Type 0} ⦃e : Key K⦄ where
  contains-append :
      (k : K) (is js : List K) → contains k (is ++ js) ≡ (contains k is || contains k js)
  unfolding contains
  contains-append k [] js = refl
  contains-append k (i ∷ is) js = ground (arith, contains-append k is js)

  contains-All : (P : K → Type 0) (k : K) (ks : List K) → All P ks → contains k ks ≡ true → P k
  unfolding contains
  contains-All P k [] a h = absurd (ground arith)
  contains-All P k (j ∷ ks) a h = elim (e.discrete k j) [
    | yes p ↦ rw p a.0
    | no p ↦ contains-All P k ks a.1 (ground arith)
  ]

module _ {c : Chain} (codec : Codec c) where
  get-insert_outputs :
      (k : OutPoint) (ts : List (Transaction c)) (outputs : Table OutPoint (Output c))
      → get k (insert_outputs codec ts outputs)
        ≡ overlay (get k (insert_outputs codec ts [])) (get k outputs)
  unfolding insert_outputs get
  get-insert_outputs k [] outputs = refl
  get-insert_outputs k (t ∷ ts) outputs =
      let entries = transaction_entries codec t in
      ground (
        arith,
        get-insert_outputs k ts (put_all entries outputs),
        get-insert_outputs k ts (put_all entries []),
        get-put_all k entries outputs,
      )

  -- None of the outpoints is an output of the transactions.
  abbrev Apart : List OutPoint → List (Transaction c) → Type 0
  Apart is ts = All (λ i. get i (insert_outputs codec ts []) ≡ none) is

  Apart-outputs :
      (ts : List (Transaction c)) (outputs : Table OutPoint (Output c)) (is : List OutPoint)
      → All (λ i. get i (insert_outputs codec ts outputs) ≡ none) is
      → Apart is ts
  Apart-outputs ts outputs [] h = tt
  Apart-outputs ts outputs (i ∷ is) h =
      (ground (arith, get-insert_outputs i ts outputs, h.0), Apart-outputs ts outputs is h.1)

  Apart-append :
      (ts : List (Transaction c)) (is js : List OutPoint) → Apart (is ++ js) ts → Apart js ts
  Apart-append ts [] js h = h
  Apart-append ts (i ∷ is) js h = Apart-append ts is js h.1

  get-connect_transactions :
      (k : OutPoint) (ts : List (Transaction c)) (utxos : Table OutPoint (Output c))
      → Apart (inputs_of ts) ts
      → get k (connect_transactions codec ts utxos)
        ≡ overlay
            (get k (insert_outputs codec ts []))
            (if contains k (inputs_of ts) then none else get k utxos)
  unfolding connect_transactions insert_outputs inputs_of contains get
  get-connect_transactions k [] utxos h = refl
  get-connect_transactions k (t ∷ ts) utxos h =
      let entries = transaction_entries codec t in
      let left = delete_all t.inputs utxos in
      let later : Apart (inputs_of ts) (t ∷ ts) = Apart-append (t ∷ ts) t.inputs (inputs_of ts) h in
      let missing =
        contains-All (λ i. get i (insert_outputs codec (t ∷ ts) []) ≡ none) k (inputs_of ts)
          later in
      ground (
        arith,
        get-connect_transactions k ts (put_all entries left)
            (Apart-outputs ts (put_all entries []) (inputs_of ts) later),
        get-insert_outputs k ts (put_all entries []),
        get-put_all k entries left,
        get-delete_all k t.inputs utxos,
        contains-append k t.inputs (inputs_of ts),
        missing,
      )

  -- If no input of the block is one of its own outputs, connecting the block puts every output
  -- of `get_outputs` under its outpoint, removes all other inputs, and keeps the rest.
  pub get-connect_body :
      {A : Type 0} (s : State c) (b : Body c A) (k : OutPoint)
      → All (λ i. get i (get_outputs codec b) ≡ none) (get_inputs b)
      → get k (connect_body codec s b).utxos
        ≡ overlay
            (get k (get_outputs codec b))
            (if contains k (get_inputs b) then none else get k s.utxos)
  unfolding connect_body get_outputs get_inputs
  get-connect_body s b k h =
      let ts = b.transactions in
      let entries = coinbase_entries codec b in
      let missing =
        contains-All (λ i. get i (insert_outputs codec ts (put_all entries [])) ≡ none) k
          (inputs_of ts) h in
      ground (
        arith,
        get-connect_transactions k ts (put_all entries s.utxos)
            (Apart-outputs ts (put_all entries []) (inputs_of ts) h),
        get-insert_outputs k ts (put_all entries []),
        get-put_all k entries s.utxos,
        missing,
      )

-- ===== src/Authorization/Combined.antt =====
-- The authorizations of several transactions, verified together as those of a block.
use ddk.Prelude.{
  length-replicate, ℕ, ◌≤◌, ◌≡◌, refl, sym, ap, ◌∙◌, Bool, true, false, List, [], ◌∷◌, ◌++◌, length,
  length-append, replicate, All, arith, ok, ltb,
}
use ddk.Types.{Chain, Codec, Output, AuthorizedTransaction, Body}
use ddk.Types.Blocks.{new, get_inputs, inputs_of}
use ddk.Types.Gather.{authorizations_of, transactions_of, new_lem}
use ddk.Authorization.{
  Dalek, Authorization, Signed, zip, messages_of, verify_authorized_transaction,
  verify_authorizations,
}
use ddk.Authorization.Packages.{all_valid, all_valid-append, BatchLaw}
use ddk.Authorization.Batch.{verify_authorizations_lem}
use ddk.Authorization.Sign.{verify_authorized_transaction-valid}

zip-append :
    {S T : Type 0} (as1 as2 : List S) (bs1 bs2 : List T)
    → length as1 ≡ length bs1
    → zip (as1 ++ as2) (bs1 ++ bs2) ≡ zip as1 bs1 ++ zip as2 bs2
zip-append [] as2 [] bs2 h = refl
zip-append [] as2 (b ∷ bs1) bs2 h = absurd (omega arith)
zip-append (a ∷ as1) as2 [] bs2 h = absurd (omega arith)
zip-append (a ∷ as1) as2 (b ∷ bs1) bs2 h =
    ap (◌∷◌ (a, b)) (zip-append as1 as2 bs1 bs2 (omega arith))

module _ (d : Dalek) {c : Chain} (codec : Codec c) where
  -- A transaction that verifies, with one authorization for each input.
  abbrev pub IsSigned : AuthorizedTransaction c (Authorization d) → Type 0
  IsSigned t =
      (length t.authorizations ≡ length t.transaction.inputs)
      × (verify_authorized_transaction d codec t ≡ ok tt)

  length-authorizations_of :
      (ts : List (AuthorizedTransaction c (Authorization d)))
      → All IsSigned ts
      → length (authorizations_of ts) ≡ length (inputs_of (transactions_of ts))
  unfolding inputs_of
  length-authorizations_of [] h = refl
  length-authorizations_of (t ∷ ts) h = omega (
    arith,
    length-append t.authorizations (authorizations_of ts),
    length-append t.transaction.inputs (inputs_of (transactions_of ts)),
    length-authorizations_of ts h.1,
    h.0.0,
  )

  all_valid-authorizations_of :
      (valid : Signed d → Bool)
      → BatchLaw d valid
      → (ts : List (AuthorizedTransaction c (Authorization d))) → All IsSigned ts
      → all_valid d valid (zip (authorizations_of ts) (messages_of d codec (transactions_of ts)))
        ≡ true
  unfolding messages_of
  all_valid-authorizations_of valid law [] h = refl
  all_valid-authorizations_of valid law (t ∷ ts) h =
      let message = codec.serialize_transaction t.transaction in
      let rest = all_valid-authorizations_of valid law ts h.1 in
      let one = verify_authorized_transaction-valid d valid law codec t h.0.1 in
      let one' = rw h.0.0 at one in
      let split =
        zip-append t.authorizations (authorizations_of ts)
          (replicate (length t.transaction.inputs) message)
          (messages_of d codec (transactions_of ts))
          (h.0.0 ∙ sym (length-replicate (length t.transaction.inputs) message)) in
      ap (all_valid d valid) split
      ∙ all_valid-append d valid
          (zip t.authorizations (replicate (length t.transaction.inputs) message))
          (zip (authorizations_of ts) (messages_of d codec (transactions_of ts)))
      ∙ rw (one', rest) refl

  -- If batches are verified signature by signature, then transactions that each verify, with one
  -- authorization for each input, verify together in the block that `new` makes of them, for any
  -- number of threads.
  pub verify_authorizations-new :
      (valid : Signed d → Bool)
      → BatchLaw d valid
      → (threads : ℕ) (ts : List (AuthorizedTransaction c (Authorization d)))
        (coinbase : List (Output c))
      → 1 ≤ threads
      → All IsSigned ts
      → verify_authorizations d codec threads (new ts coinbase) ≡ ok tt
  unfolding get_inputs
  verify_authorizations-new valid law threads ts coinbase some_thread h =
      let b : Body c (Authorization d) = record {
        coinbase = coinbase;
        transactions = transactions_of ts;
        authorizations = authorizations_of ts;
      } in
      let counts = length-authorizations_of ts h in
      let fits : ltb (length (inputs_of b.transactions)) (length b.authorizations) ≡ false =
        ground arith in
      let verified = all_valid-authorizations_of valid law ts h in
      ap (verify_authorizations d codec threads) (new_lem ts coinbase)
      ∙ verify_authorizations_lem d codec valid law threads b some_thread
      ∙ rw (fits, verified) refl

-- ===== src/Authorization/Batch.antt =====
-- What `verify_authorizations` decides, on every branch.
use ddk.Prelude.{
  length-replicate, ℕ, zero, suc, ◌*◌, ◌/◌, ◌≤◌, ◌<◌, ◌≡◌, refl, ◌∙◌, ap, Bool, not, ◌==◌, List, [],
  ◌∷◌, map, length, take, drop, replicate, length-append, ltb, ok, err, ◌>>=◌, ◌>>◌, arith,
  if◌then◌else◌, Bool-cases, inl, inr, ltb→lt, not-ltb→le, fail_if,
}
use ddk.Types.{Chain, Codec, Transaction, Body}
use ddk.Types.Blocks.{get_inputs, inputs_of}
use ddk.Authorization.{
  Dalek, Authorization, panicked, dalek_error, Signed, slice_from, zip, split_packages, extend_last,
  verify_packages, package_sizes, messages_of, verify_authorizations,
}
use ddk.Authorization.Packages.{
  pack, concat, chunks, concat-chunks, split_packages-ok, split_packages-panicked, extend_last-ok,
  package_sizes-pack, all_valid, BatchLaw, verify_packages-pack,
}

length-zip-le :
    {S T : Type 0} (ss : List S) (ts : List T)
    → length ss ≤ length ts
    → length (zip ss ts) ≡ length ss
length-zip-le [] ts h = refl
length-zip-le (s ∷ ss) [] h = absurd (omega arith)
length-zip-le (s ∷ ss) (t ∷ ts) h = ap suc (length-zip-le ss ts (omega arith))

length-zip-ge :
    {S T : Type 0} (ss : List S) (ts : List T)
    → length ts ≤ length ss
    → length (zip ss ts) ≡ length ts
length-zip-ge [] [] h = refl
length-zip-ge [] (t ∷ ts) h = absurd (omega arith)
length-zip-ge (s ∷ ss) [] h = refl
length-zip-ge (s ∷ ss) (t ∷ ts) h = ap suc (length-zip-ge ss ts (omega arith))

slice_from-ok :
    {T : Type 0} (xs : List T) (n : ℕ) → n ≤ length xs → slice_from xs n ≡ ok (drop n xs)
unfolding slice_from
slice_from-ok xs n h = ground arith

module _ (d : Dalek) {c : Chain} (codec : Codec c) where
  -- There is a message for each input.
  pub length-messages_of :
      (ts : List (Transaction c)) → length (messages_of d codec ts) ≡ length (inputs_of ts)
  unfolding messages_of inputs_of
  length-messages_of [] = refl
  length-messages_of (t ∷ ts) = omega (
    arith,
    length-append (replicate (length t.inputs) (codec.serialize_transaction t))
        (messages_of d codec ts),
    length-append t.inputs (inputs_of ts),
    length-replicate (length t.inputs) (codec.serialize_transaction t),
    length-messages_of ts,
  )

  -- The authorizations with the message that each has to sign.
  abbrev pub signed_pairs : Body c (Authorization d) → List (Signed d)
  signed_pairs b = zip b.authorizations (messages_of d codec b.transactions)

  -- Whatever the pairs and the size, if the packages fit, the outcome depends on the pairs alone.
  verify_pairs :
      (valid : Signed d → Bool)
      → BatchLaw d valid
      → (pairs : List (Signed d)) (n size threads : ℕ) → suc threads * size ≤ length pairs
      → (do
        packages ← split_packages d pairs size 0 (suc threads)
        rest ← slice_from pairs (suc threads * size)
        packages' ← extend_last d rest packages
        fail_if (not (package_sizes d packages' == n)) panicked
        fail_if (not (verify_packages d packages')) dalek_error)
        ≡ (if length pairs == n
            then (if all_valid d valid pairs then ok tt else err dalek_error)
            else err panicked)
  verify_pairs valid law pairs n size threads fits =
      let rest = drop (suc threads * size) pairs in
      let zero_size : 0 * size ≡ 0 = omega arith in
      let split : split_packages d pairs size 0 (suc threads)
          ≡ ok (map (pack d) (chunks pairs size (suc threads))) =
        split_packages-ok d pairs size 0 (suc threads) (omega arith) ∙ rw zero_size in
      let (parts, extended, joined) =
        extend_last-ok d rest (take size pairs) (chunks (drop size pairs) size threads) in
      let whole : concat parts ≡ pairs = joined ∙ concat-chunks pairs size (suc threads) in
      let sizes : package_sizes d (map (pack d) parts) ≡ length pairs =
        package_sizes-pack d parts ∙ ap length whole in
      let verified : verify_packages d (map (pack d) parts) ≡ all_valid d valid pairs =
        verify_packages-pack d valid law parts ∙ ap (all_valid d valid) whole in
      rw (split, slice_from-ok pairs (suc threads * size) fits, extended, sizes, verified)
        (ground arith)

  div-mul-le : (n t : ℕ) → suc t * (n / suc t) ≤ n
  div-mul-le n t = grind arith

  -- If batches are verified signature by signature, then with at most as many authorizations as
  -- inputs the outcome is whether every authorization signs the transaction of the input in its
  -- place, for any number of threads; with more authorizations than inputs the program panics.
  pub verify_authorizations_lem :
      (valid : Signed d → Bool)
      → BatchLaw d valid
      → (threads : ℕ) (b : Body c (Authorization d)) → 1 ≤ threads
      → verify_authorizations d codec threads b ≡ (
          if ltb (length (get_inputs b)) (length b.authorizations)
          then err panicked
          else (if all_valid d valid (signed_pairs b) then ok tt else err dalek_error))
  unfolding verify_authorizations get_inputs
  verify_authorizations_lem valid law zero b h = absurd (omega arith)
  verify_authorizations_lem valid law (suc threads) b h =
      elim (Bool-cases (ltb (length (inputs_of b.transactions)) (length b.authorizations))) [
        | inl more ↦ rw more (too_many (ltb→lt _ _ more))
        | inr fewer ↦ rw fewer (enough (not-ltb→le _ _ fewer))
      ]
    where
      n : ℕ
      n = length b.authorizations

      ms : List (List ℕ)
      ms = messages_of d codec b.transactions

      enough :
          length b.authorizations ≤ length (inputs_of b.transactions)
          → verify_authorizations d codec (suc threads) b
            ≡ (if all_valid d valid (signed_pairs b) then ok tt else err dalek_error)
      enough k =
          let len =
            length-zip-le b.authorizations ms (omega (arith, length-messages_of b.transactions)) in
          let fits = div-mul-le (length b.authorizations) threads in
          verify_pairs valid law (signed_pairs b) (length b.authorizations)
            (length b.authorizations / suc threads) threads (omega arith)
          ∙ ground arith

      too_many :
          length (inputs_of b.transactions) < length b.authorizations
          → verify_authorizations d codec (suc threads) b ≡ err panicked
      too_many k =
          let len =
            length-zip-ge b.authorizations ms (omega (arith, length-messages_of b.transactions)) in
          let count = length-messages_of b.transactions in
          let size = length b.authorizations / suc threads in
          elim (Bool-cases (ltb (length (signed_pairs b)) (suc threads * size))) [
            | inl short ↦ rw (
                split_packages-panicked d (signed_pairs b) size 0 (suc threads) (omega arith)
                  (omega (arith, ltb→lt _ _ short)))
            | inr fits ↦
                verify_pairs valid law (signed_pairs b) (length b.authorizations) size threads
                  (not-ltb→le _ _ fits)
                ∙ ground arith
          ]

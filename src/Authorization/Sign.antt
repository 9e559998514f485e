-- ===== src/Authorization/Sign.antt =====
-- `authorize`: what it signs, and that its result verifies.
use ddk.Prelude.{
  ℕ, ◌≡◌, refl, ap, sym, Bool, true, not, ◌==◌, List, [], ◌∷◌, map, length, replicate, ok, arith,
  >>=-eq-ok, ◌∙◌, fail_if,
}
use mathlib.Core.Path.{subst}
use ddk.Types.{Chain, Codec, Address, Transaction, AuthorizedTransaction}
use ddk.Authorization.{
  Dalek, Authorization, wrong_keypair_for_address, Signed, get_address, sign_all, authorize,
  verify_authorized_transaction, zip,
}
use ddk.Authorization.Packages.{all_valid, BatchLaw}

module _ (d : Dalek) where
  -- The authorizations are by the key pairs, in order, and each key pair has its address.
  abbrev pub SignedBy : List (Address × d.Keypair) → List ℕ → List (Authorization d) → Type 0
  SignedBy [] message [] = Unit
  SignedBy [] message (a ∷ rest) = ⊥
  SignedBy (k ∷ ks) message [] = ⊥
  SignedBy ((address, keypair) ∷ ks) message (a ∷ rest) =
      (get_address d (d.public keypair) ≡ address)
      × (a.public_key ≡ d.public keypair)
      × (a.signature ≡ d.sign keypair message)
      × SignedBy ks message rest

  sign_all-SignedBy :
      {c : Chain} (codec : Codec c) (ks : List (Address × d.Keypair)) (message : List ℕ)
      (auths : List (Authorization d))
      → sign_all d codec ks message ≡ ok auths
      → SignedBy ks message auths
  unfolding sign_all
  sign_all-SignedBy codec [] message [] h = tt
  sign_all-SignedBy codec [] message (a ∷ rest) h = cc
  sign_all-SignedBy codec ((address, keypair) ∷ ks) message [] h = ground arith
  sign_all-SignedBy codec ((address, keypair) ∷ ks) message (a ∷ rest) h =
      let (u, right, later) =
        >>=-eq-ok
          (fail_if (not (address == get_address d (d.public keypair)))
            (wrong_keypair_for_address address (get_address d (d.public keypair))))
          _ h in
      let (others, signing, same) = >>=-eq-ok (sign_all d codec ks message) _ later in
      let tail : others ≡ rest = cc in
      (
        ground arith,
        ground arith,
        ground arith,
        sign_all-SignedBy codec ks message rest (signing ∙ ap ok tail),
      )

  module _ (valid : Signed d → Bool) where
    -- A signature by a key pair is valid under its public key.
    abbrev pub SignLaw : Type 0
    SignLaw =
        (k : d.Keypair) (message : List ℕ)
        → valid (record { public_key = d.public k; signature = d.sign k message }, message) ≡ true

    -- The authorizations paired with one message.
    pairs : List (Authorization d) → List ℕ → List (Signed d)
    pairs [] message = []
    pairs (a ∷ rest) message = (a, message) ∷ pairs rest message

    pairs-messages :
        (auths : List (Authorization d)) (message : List ℕ)
        → map (λ (x : Signed d). x.1) (pairs auths message) ≡ replicate (length auths) message
    unfolding pairs
    pairs-messages [] message = refl
    pairs-messages (a ∷ rest) message = ap (◌∷◌ message) (pairs-messages rest message)

    pairs-signatures :
        (auths : List (Authorization d)) (message : List ℕ)
        → map (λ (x : Signed d). x.0.signature) (pairs auths message)
          ≡ map (λ (a : Authorization d). a.signature) auths
    unfolding pairs
    pairs-signatures [] message = refl
    pairs-signatures (a ∷ rest) message = ap (◌∷◌ a.signature) (pairs-signatures rest message)

    pairs-keys :
        (auths : List (Authorization d)) (message : List ℕ)
        → map (λ (x : Signed d). x.0.public_key) (pairs auths message)
          ≡ map (λ (a : Authorization d). a.public_key) auths
    unfolding pairs
    pairs-keys [] message = refl
    pairs-keys (a ∷ rest) message = ap (◌∷◌ a.public_key) (pairs-keys rest message)

    SignedBy-valid :
        SignLaw
        → (ks : List (Address × d.Keypair)) (message : List ℕ) (auths : List (Authorization d))
        → SignedBy ks message auths
        → all_valid d valid (pairs auths message) ≡ true
    unfolding pairs
    SignedBy-valid law [] message [] h = refl
    SignedBy-valid law [] message (a ∷ rest) h = absurd h
    SignedBy-valid law (k ∷ ks) message [] h = absurd h
    SignedBy-valid law ((address, keypair) ∷ ks) message (a ∷ rest) h =
        ground (arith, law keypair message, SignedBy-valid law ks message rest h.3)

    -- Signatures by key pairs verify.
    pub SignedBy-verifies :
        BatchLaw d valid
        → SignLaw
        → {c : Chain} (codec : Codec c) (ks : List (Address × d.Keypair)) (t : Transaction c)
          (auths : List (Authorization d))
        → SignedBy ks (codec.serialize_transaction t) auths
        → verify_authorized_transaction d codec (record { transaction = t; authorizations = auths })
          ≡ ok tt
    unfolding verify_authorized_transaction
    SignedBy-verifies batch law codec ks t auths by =
        let message = codec.serialize_transaction t in
        let all = SignedBy-valid law ks message auths by in
        let verified = batch (pairs auths message) in
        rw (
          ← pairs-messages auths message,
          ← pairs-signatures auths message,
          ← pairs-keys auths message,
          verified,
          all,
        )

    -- If batches are verified signature by signature and a key pair's signature is valid, then
    -- what `authorize` returns holds the transaction with one signature by each key pair in
    -- order, each key pair belongs to its address, and the result verifies.
    pub authorize-verifies :
        BatchLaw d valid
        → SignLaw
        → {c : Chain} (codec : Codec c) (ks : List (Address × d.Keypair)) (t : Transaction c)
          (r : AuthorizedTransaction c (Authorization d))
        → authorize d codec ks t ≡ ok r
        → (r.transaction ≡ t)
          × SignedBy ks (codec.serialize_transaction t) r.authorizations
          × (verify_authorized_transaction d codec r ≡ ok tt)
    unfolding authorize
    authorize-verifies batch law {c} codec ks t r h =
        let message = codec.serialize_transaction t in
        let (auths, signing, same) = >>=-eq-ok (sign_all d codec ks message) _ h in
        let same_t : r.transaction ≡ t = ground arith in
        let same_a : auths ≡ r.authorizations = ground arith in
        let by = sign_all-SignedBy codec ks message r.authorizations (signing ∙ ap ok same_a) in
        let verified = SignedBy-verifies batch law codec ks t r.authorizations by in
        (
          same_t,
          by,
          subst
              (λ (u : Transaction c).
                verify_authorized_transaction d codec
                  (record { transaction = u; authorizations = r.authorizations })
                ≡ ok tt)
              (sym same_t) verified,
        )

    pairs-zip :
        (auths : List (Authorization d)) (message : List ℕ)
        → pairs auths message ≡ zip auths (replicate (length auths) message)
    unfolding pairs
    pairs-zip [] message = refl
    pairs-zip (a ∷ rest) message = ap (◌∷◌ (a, message)) (pairs-zip rest message)

    -- Every signature of a transaction that verifies is valid.
    pub verify_authorized_transaction-valid :
        BatchLaw d valid
        → {c : Chain} (codec : Codec c) (t : AuthorizedTransaction c (Authorization d))
        → verify_authorized_transaction d codec t ≡ ok tt
        → all_valid d valid (
            zip t.authorizations
              (replicate (length t.authorizations) (codec.serialize_transaction t.transaction)))
          ≡ true
    unfolding verify_authorized_transaction
    verify_authorized_transaction-valid batch codec t h =
        let auths = t.authorizations in
        let message = codec.serialize_transaction t.transaction in
        let law = batch (pairs auths message) in
        let law' =
          rw
            (pairs-messages auths message, pairs-signatures auths message, pairs-keys auths message)
            at law in
        ap (all_valid d valid) (sym (pairs-zip auths message)) ∙ ground (arith, law')

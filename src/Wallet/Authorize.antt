-- ===== src/Wallet/Authorize.antt =====
-- The authorizations that the wallet makes with the keys of its addresses.
use ddk.Prelude.{
  ℕ, ◌≡◌, refl, some, List, [], ◌∷◌, Result, ok, err, arith, inl, inr, Option-cases, Bool,
}
use mathlib.Core.Path.{subst}
use ddk.Table.{get}
use ddk.Types.{
  Chain, Codec, OutPoint, Output, Transaction, AuthorizedTransaction, Address, out_point_key,
  number_key,
}
use ddk.State.Fill.{Spends}
use ddk.State.Owners.{OwnedBy}
use ddk.Authorization.{
  Dalek, Authorization, get_address, sign, verify_trait, Signed, verify_authorized_transaction,
}
use ddk.Authorization.Packages.{BatchLaw}
use ddk.Authorization.Sign.{SignedBy, SignLaw, SignedBy-verifies}
use ddk.Wallet.{Backend, Wallet, Error, authorize_input, authorize_inputs, authorize}
use ddk.Wallet.Addresses.{HasKeys}

module _ {c : Chain} {d : Dalek} (w : Backend c d) (codec : Codec c) where
  -- What the wallet signs, input by input: the owners' key pairs, and the outputs that they own.
  abbrev Authorized : Wallet w → Transaction c → List OutPoint → List (Authorization d) → ℕ → Type 0
  Authorized s t is auths threads =
      (os : List (Output c)) × Spends s.utxos is os
      × OwnedBy (verify_trait d codec threads) auths os
      × ((ks : List (Address × d.Keypair)) × SignedBy d ks (codec.serialize_transaction t) auths)

  authorize_input-ok :
      (s : Wallet w) (t : Transaction c) (i : OutPoint) (a : Authorization d)
      → HasKeys w s
      → authorize_input w codec s t i ≡ ok a
      → (o : Output c) × (get i s.utxos ≡ some o)
        × ((k : d.Keypair) × (get_address d (d.public k) ≡ o.address)
            × (a.public_key ≡ d.public k)
            × (a.signature ≡ d.sign k (codec.serialize_transaction t)))
  unfolding authorize_input sign
  authorize_input-ok s t i a keys h = elim (Option-cases (get i s.utxos)) [
    | inl missing ↦ absurd (ground arith)
    | inr (o, found) ↦ elim (Option-cases (get o.address s.address_to_index)) [
      | inl unknown ↦ absurd (ground arith)
      | inr (index, known) ↦
          let (seed, k, set, derived, owner) = keys o.address index known in
          (o, found, (k, owner, ground arith, ground arith))
    ]
  ]

  authorize_inputs-Authorized :
      (s : Wallet w) (t : Transaction c) (threads : ℕ) (is : List OutPoint)
      (auths : List (Authorization d))
      → HasKeys w s
      → authorize_inputs w codec s t is ≡ ok auths
      → Authorized s t is auths threads
  unfolding authorize_inputs
  authorize_inputs-Authorized s t threads [] [] keys h = ([], tt, tt, ([], tt))
  authorize_inputs-Authorized s t threads [] (a ∷ auths) keys h = cc
  authorize_inputs-Authorized s t threads (i ∷ is) [] keys h = absurd (ground arith)
  authorize_inputs-Authorized s t threads (i ∷ is) (a ∷ auths) keys h =
      let first : authorize_input w codec s t i ≡ ok a = ground arith in
      let others : authorize_inputs w codec s t is ≡ ok auths = ground arith in
      let (o, found, (k, owner, key, signature)) = authorize_input-ok s t i a keys first in
      let (os, spends, owned, (ks, signed)) =
        authorize_inputs-Authorized s t threads is auths keys others in
      (
        o ∷ os,
        (found, spends),
        (rw key owner, owned),
        ((o.address, k) ∷ ks, (owner, key, signature, signed)),
      )

  -- If the wallet's addresses have their keys, batches are verified signature by signature and
  -- signatures by key pairs are valid, then what the wallet authorizes is the transaction with
  -- one authorization for each input by the owner of the output that it spends, and it verifies.
  pub authorize-OwnedBy :
      (valid : Signed d → Bool)
      → BatchLaw d valid
      → SignLaw d valid
      → (threads : ℕ) (s : Wallet w) (t : Transaction c)
        (r : AuthorizedTransaction c (Authorization d))
      → HasKeys w s
      → authorize w codec s t ≡ ok r
      → (r.transaction ≡ t)
        × ((os : List (Output c)) × Spends s.utxos t.inputs os
            × OwnedBy (verify_trait d codec threads) r.authorizations os)
        × (verify_authorized_transaction d codec r ≡ ok tt)
  unfolding authorize
  authorize-OwnedBy valid batch law threads s t r keys h =
      go (authorize_inputs w codec s t t.inputs) refl
    where
      go :
          (q : Result Error (List (Authorization d)))
          → authorize_inputs w codec s t t.inputs ≡ q
          → (r.transaction ≡ t)
            × ((os : List (Output c)) × Spends s.utxos t.inputs os
                × OwnedBy (verify_trait d codec threads) r.authorizations os)
            × (verify_authorized_transaction d codec r ≡ ok tt)
      go (err e) g = absurd (ground arith)
      go (ok auths) g =
          let made : record { transaction = t; authorizations = auths } ≡ r = ground arith in
          let (os, spends, owned, (ks, signed)) =
            authorize_inputs-Authorized s t threads t.inputs auths keys g in
          let verified = SignedBy-verifies d valid batch law codec ks t auths signed in
          subst
            (λ (u : AuthorizedTransaction c (Authorization d)).
              (u.transaction ≡ t)
              × ((os : List (Output c)) × Spends s.utxos t.inputs os
                  × OwnedBy (verify_trait d codec threads) u.authorizations os)
              × (verify_authorized_transaction d codec u ≡ ok tt))
            made (refl, (os, spends, owned), verified)

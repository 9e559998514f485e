-- ===== src/State/Owners.antt =====
-- Which spends the address check of `validate_body` covers.
use ddk.Prelude.{
  ℕ, ◌<◌, ◌≡◌, refl, List, [], ◌∷◌, ◌++◌, arith, ok, some, length, true, u64_mod, sum64_from,
}
use ddk.Table.{get}
use ddk.Types.{
  Chain, Verify, OutPoint, Output, Transaction, FilledTransaction, Body, Address, get_value,
  out_point_key, number_key,
}
use ddk.Types.Blocks.{get_inputs, inputs_of}
use ddk.State.{
  State, validate_body, check_addresses, all_spent_utxos, fill_inputs, fill_transaction,
  fill_transactions, check_transactions, check_inputs, validate_filled_transaction, contains,
}
use ddk.State.Fill.{Spends}
use ddk.State.Validate.{FilledFrom, validate_body-Accepted}

module _ {c : Chain} {A : Type 0} (verify : Verify c A) where
  -- Each authorization is by the owner of the output in its place, one for one.
  abbrev pub OwnedBy : List A → List (Output c) → Type 0
  OwnedBy [] [] = Unit
  OwnedBy [] (o ∷ os) = ⊥
  OwnedBy (a ∷ rest) [] = ⊥
  OwnedBy (a ∷ rest) (o ∷ os) = (verify.get_address a ≡ o.address) × OwnedBy rest os

  pub check_addresses-OwnedBy :
      (auths : List A) (os : List (Output c))
      → length auths ≡ length os
      → check_addresses verify auths os ≡ ok tt
      → OwnedBy auths os
  unfolding check_addresses
  check_addresses-OwnedBy [] [] n h = tt
  check_addresses-OwnedBy [] (o ∷ os) n h = absurd (omega arith)
  check_addresses-OwnedBy (a ∷ rest) [] n h = absurd (omega arith)
  check_addresses-OwnedBy (a ∷ rest) (o ∷ os) n h =
      elim (number_key.discrete (verify.get_address a) o.address) [
        | yes p ↦ (p, check_addresses-OwnedBy rest os (omega arith) (ground arith))
        | no p ↦ absurd (ground arith)
      ]

  Spends-append :
      (s : State c) (is js : List OutPoint) (os ps : List (Output c))
      → Spends s.utxos is os
      → Spends s.utxos js ps
      → Spends s.utxos (is ++ js) (os ++ ps)
  Spends-append s [] js [] ps h k = k
  Spends-append s [] js (o ∷ os) ps h k = absurd h
  Spends-append s (i ∷ is) js [] ps h k = absurd h
  Spends-append s (i ∷ is) js (o ∷ os) ps h k = (h.0, Spends-append s is js os ps h.1 k)

  FilledFrom-Spends :
      (s : State c) (ts : List (Transaction c)) (fs : List (FilledTransaction c))
      → FilledFrom s ts fs
      → Spends s.utxos (inputs_of ts) (all_spent_utxos fs)
  unfolding inputs_of all_spent_utxos
  FilledFrom-Spends s [] [] h = tt
  FilledFrom-Spends s [] (f ∷ fs) h = absurd h
  FilledFrom-Spends s (t ∷ ts) [] h = absurd h
  FilledFrom-Spends s (t ∷ ts) (f ∷ fs) h =
      Spends-append s t.inputs (inputs_of ts) f.spent_utxos (all_spent_utxos fs) h.1
        (FilledFrom-Spends s ts fs h.2)

  pub Spends-length :
      (s : State c) (is : List OutPoint) (os : List (Output c))
      → Spends s.utxos is os
      → length is ≡ length os
  Spends-length s [] [] h = refl
  Spends-length s [] (o ∷ os) h = absurd h
  Spends-length s (i ∷ is) [] h = absurd h
  Spends-length s (i ∷ is) (o ∷ os) h = omega (arith, Spends-length s is os h.1)

  -- In an accepted block with as many authorizations as inputs, every input is an unspent output
  -- whose owner gave the authorization in its place, and the authorizations are verified.
  pub validate_body-OwnedBy :
      (s : State c) (b : Body c A) {fees : ℕ}
      → validate_body verify s b ≡ ok fees
      → length b.authorizations ≡ length (get_inputs b)
      → (os : List (Output c)) × Spends s.utxos (get_inputs b) os
        × OwnedBy b.authorizations os
        × (verify.verify_body b ≡ true)
  unfolding get_inputs
  validate_body-OwnedBy s b h n =
      let a = validate_body-Accepted verify s b h in
      let os = all_spent_utxos a.filled in
      let spends = FilledFrom-Spends s b.transactions a.filled a.from in
      let same = Spends-length s (inputs_of b.transactions) os spends in
      (os, spends, check_addresses-OwnedBy b.authorizations os (omega arith) a.owned, a.verified)

  -- The block that moves an output to another address, with no authorization at all.
  abbrev pub theft : OutPoint → Output c → Body c A
  theft i o = record {
    coinbase = [];
    transactions = record { inputs = i ∷ []; outputs = o ∷ [] } ∷ [];
    authorizations = [];
  }

  -- Whoever owns an unspent output, a block that moves its value to any address with an empty
  -- list of authorizations is accepted, if the signature check accepts that block.
  pub validate_body-theft :
      (s : State c) (i : OutPoint) (o : Output c) (thief : Address)
      → get i s.utxos ≡ some o
      → get_value o < u64_mod
      → verify.verify_body (theft i (record o { address = thief })) ≡ true
      → validate_body verify s (theft i (record o { address = thief })) ≡ ok 0
  unfolding validate_body fill_transactions fill_transaction fill_inputs check_transactions
      check_inputs validate_filled_transaction contains sum64_from get_value
  validate_body-theft s i o thief h fits sig = ground arith

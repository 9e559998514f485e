-- ===== src/Authorization.antt =====
-- Signatures of transactions: src/authorization.rs. The ed25519 crate is the record `Dalek`, and
-- the number of threads of rayon a parameter. Serializing a transaction does not fail
-- (`Error::BincodeError` is not modelled). A panic of the program is the error `panicked`.
pub mod Packages
pub mod Batch
pub mod Sign
pub mod Unsigned
pub mod Combined
use ddk.Prelude.{
  ℕ, zero, suc, ◌+◌, ◌-◌, ◌*◌, ◌/◌, Bool, true, false, not, ◌==◌, List, [], ◌∷◌, ◌++◌, map, length,
  take, drop, replicate, ltb, ◌&&◌, Result, ok, err, ◌>>=◌, ◌>>◌, fail_if, if◌then◌else◌, sum,
}
use ddk.Types.{Chain, Codec, Address, Transaction, AuthorizedTransaction, Body, Verify, number_key}
use mathlib.Core.Logic.{ite}

-- `ed25519_dalek`, and the part of `blake3` that makes an address of a public key.
pub record Dalek : Type 1 where
  pub PublicKey : Type 0
  pub Signature : Type 0
  pub Keypair : Type 0
  pub public : Keypair → PublicKey
  pub sign : Keypair → List ℕ → Signature
  -- `verify_batch(messages, signatures, public_keys)`, as whether it is `Ok`
  pub verify_batch : List (List ℕ) → List Signature → List PublicKey → Bool
  -- 20 bytes of `finalize_xof` on the bytes of a key
  pub hash_public_key : PublicKey → Address

pub data Error : Type 0 where
  -- address, hash_public_key
  wrong_keypair_for_address : Address → Address → Error
  dalek_error : Error
  panicked : Error

pub record Authorization (d : Dalek) : Type 0 where
  pub public_key : d.PublicKey
  pub signature : d.Signature

pub record Package (d : Dalek) : Type 0 where
  pub messages : List (List ℕ)
  pub signatures : List d.Signature
  pub public_keys : List d.PublicKey

-- `&xs[from..to]`
unfoldable pub slice : {T : Type 0} → List T → ℕ → ℕ → Result Error (List T)
slice xs from to =
    if ltb to from
    then err panicked
    else (if ltb (length xs) to then err panicked else ok (take (to - from) (drop from xs)))

-- `&xs[from..]`
unfoldable pub slice_from : {T : Type 0} → List T → ℕ → Result Error (List T)
slice_from xs from = if ltb (length xs) from then err panicked else ok (drop from xs)

-- `a.zip(b)`
abbrev pub zip : {S T : Type 0} → List S → List T → List (S × T)
zip [] ts = []
zip (s ∷ ss) [] = []
zip (s ∷ ss) (t ∷ ts) = (s, t) ∷ zip ss ts

module _ (d : Dalek) where
  -- `get_address`
  unfoldable pub get_address : d.PublicKey → Address
  get_address k = d.hash_public_key k

  abbrev pub Signed : Type 0
  Signed = Authorization d × List ℕ

  -- the loops that push the parts of `pairs` on a package
  unfoldable pub push_all : Package d → List Signed → Package d
  push_all p [] = p
  push_all p ((a, m) ∷ rest) =
      push_all
        (record {
          messages = p.messages ++ m ∷ [];
          signatures = p.signatures ++ a.signature ∷ [];
          public_keys = p.public_keys ++ a.public_key ∷ [];
        })
        rest

  abbrev pub empty_package : Package d
  empty_package = record { messages = []; signatures = []; public_keys = [] }

  -- the loop over `i in 0..num_threads`, from `i` with `count` rounds left
  unfoldable pub split_packages : List Signed → ℕ → ℕ → ℕ → Result Error (List (Package d))
  unfolding push_all slice
  split_packages pairs size i zero = ok []
  split_packages pairs size i (suc count) = do
    part ← slice pairs (i * size) ((i + 1) * size)
    rest ← split_packages pairs size (i + 1) count
    ok (push_all empty_package part ∷ rest)

  -- `packages[num_threads - 1]` takes the rest, `pairs[num_threads * package_size..]`
  unfoldable pub extend_last : List Signed → List (Package d) → Result Error (List (Package d))
  unfolding push_all
  extend_last [] ps = ok ps
  extend_last (x ∷ xs) [] = err panicked
  extend_last (x ∷ xs) (p ∷ []) = ok (push_all p (x ∷ xs) ∷ [])
  extend_last (x ∷ xs) (p ∷ q ∷ ps) = do rest ← extend_last (x ∷ xs) (q ∷ ps); ok (p ∷ rest)

  unfoldable pub verify_packages : List (Package d) → Bool
  verify_packages [] = true
  verify_packages (p ∷ ps) =
      d.verify_batch p.messages p.signatures p.public_keys && verify_packages ps

  abbrev pub package_sizes : List (Package d) → ℕ
  package_sizes ps = sum (map (λ p. length p.signatures) ps)

  module _ {c : Chain} (codec : Codec c) where
    -- each transaction's bytes, once for each of its inputs
    unfoldable pub messages_of : List (Transaction c) → List (List ℕ)
    messages_of [] = []
    messages_of (t ∷ ts) =
        replicate (length t.inputs) (codec.serialize_transaction t) ++ messages_of ts

    -- `verify_authorized_transaction`
    unfoldable pub verify_authorized_transaction :
        AuthorizedTransaction c (Authorization d) → Result Error (Unit {0})
    verify_authorized_transaction t =
        let message = codec.serialize_transaction t.transaction in
        let messages = replicate (length t.authorizations) message in
        let public_keys = map (λ (a : Authorization d). a.public_key) t.authorizations in
        let signatures = map (λ (a : Authorization d). a.signature) t.authorizations in
        if d.verify_batch messages signatures public_keys then ok tt else err dalek_error

    -- `verify_authorizations`
    unfoldable pub verify_authorizations : ℕ → Body c (Authorization d) → Result Error (Unit {0})
    unfolding messages_of split_packages extend_last verify_packages slice_from
    verify_authorizations num_threads b = do
      let pairs = zip b.authorizations (messages_of b.transactions)
      let package_size = length b.authorizations / num_threads
      packages ← split_packages pairs package_size 0 num_threads
      rest ← slice_from pairs (num_threads * package_size)
      packages' ← extend_last rest packages
      fail_if (not (package_sizes packages' == length b.authorizations)) panicked
      fail_if (not (verify_packages packages')) dalek_error

    -- `sign`
    unfoldable pub sign : d.Keypair → Transaction c → d.Signature
    sign k t = d.sign k (codec.serialize_transaction t)

    -- the loop of `authorize`
    unfoldable pub sign_all :
        List (Address × d.Keypair) → List ℕ → Result Error (List (Authorization d))
    unfolding get_address
    sign_all [] message = ok []
    sign_all ((address, keypair) ∷ rest) message = do
      let hash_public_key = get_address (d.public keypair)
      fail_if (not (address == hash_public_key)) (wrong_keypair_for_address address hash_public_key)
      authorizations ← sign_all rest message
      ok (
          record { public_key = d.public keypair; signature = d.sign keypair message }
          ∷ authorizations)

    -- `authorize`
    unfoldable pub authorize :
        List (Address × d.Keypair)
        → Transaction c
        → Result Error (AuthorizedTransaction c (Authorization d))
    unfolding sign_all
    authorize keypairs t = do
      authorizations ← sign_all keypairs (codec.serialize_transaction t)
      ok (record { transaction = t; authorizations = authorizations })

    abbrev is_ok : Result Error (Unit {0}) → Bool
    is_ok (ok _) = true
    is_ok (err _) = false

    -- The trait `Verify` for `Authorization`. A panic, which ends the program, reads as a failure.
    abbrev pub verify_trait : ℕ → Verify c (Authorization d)
    verify_trait num_threads = record {
      get_address = λ a. get_address a.public_key;
      verify_transaction = λ t. is_ok (verify_authorized_transaction t);
      verify_body = λ b. is_ok (verify_authorizations num_threads b);
    }

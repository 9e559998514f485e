-- ===== src/Tests/Data.antt =====
-- A concrete sidechain: no custom content, numbers for addresses and keys, and a toy hash.
use ddk.Prelude.{
  ℕ, ◌+◌, ◌*◌, ◌-◌, refl, Bool, true, ◌&&◌, some, List, [], ◌∷◌, map, length, sum, arith, ◌==◌, ltb,
}
use ddk.Types.{Chain, Codec, Verify, Output, value, withdrawal, Hash, number_key, out_point_key}
use ddk.Types.Withdrawals.{Comparisons}
use ddk.State.Bundle.{Bitcoin, bundle_0_weight, output_weight}
use ddk.State.Bundle.Weight.{SortLaw}
use ddk.Authorization.{Dalek, Signed}
use ddk.Authorization.Packages.{BatchLaw}
use ddk.Authorization.Sign.{SignLaw}
use ddk.Wallet.{Backend}
use ddk.Wallet.Select
use mathlib.Core.List.Permᴰ

abbrev pub chain : Chain
chain = record { Custom = Unit {0}; custom_value = λ x. 0; MainAddress = ℕ; Script = List ℕ }

abbrev pub toy_hash : List ℕ → Hash
toy_hash [] = 1
toy_hash (b ∷ bs) = b + 100 * toy_hash bs

abbrev pub values : List (Output chain) → List ℕ
values os = map (λ o. o.address) os

abbrev pub codec : Codec chain
codec = record {
  blake3 = toy_hash;
  serialize_transaction = λ t. values t.outputs;
  serialize_header = λ h. h.merkle_root ∷ h.prev_side_hash ∷ [];
  serialize_contents = λ os ts. length ts ∷ values os;
  serialize_out_points = λ ps. length ps ∷ [];
}

-- An authorization is the address itself.
abbrev pub trusting : Verify chain ℕ
trusting = record { get_address = λ a. a; verify_transaction = λ t. true; verify_body = λ b. true }

abbrev pub verify_all : List (List ℕ) → List ℕ → List ℕ → Bool
verify_all (m ∷ ms) (s ∷ ss) (k ∷ ks) = (s == k + sum m) && verify_all ms ss ks
verify_all _ _ _ = true

-- A signature is the key plus the message's bytes.
abbrev pub dalek : Dalek
dalek = record {
  PublicKey = ℕ;
  Signature = ℕ;
  Keypair = ℕ;
  public = λ k. k;
  sign = λ k m. k + sum m;
  verify_batch = verify_all;
  hash_public_key = λ k. k + 500;
}

abbrev pub valid : Signed dalek → Bool
valid (a, m) = a.signature == a.public_key + sum m

pub batch_law : BatchLaw dalek valid
batch_law [] = refl
batch_law (x ∷ xs) = ground (arith, batch_law xs)

pub sign_law : SignLaw dalek valid
sign_law k m = ground arith

abbrev pub comparisons : Comparisons chain
comparisons = record {
  outputs_eq = λ a b. length a == length b;
  address_eq = ◌==◌;
  address_gt = λ a b. ltb b a;
}

abbrev pub bitcoin : Bitcoin chain
bitcoin = record {
  address_key = number_key;
  script_pubkey = λ a. a ∷ [];
  op_false = 0 ∷ [];
  op_return = λ bs. 106 ∷ bs;
  weight = λ t. bundle_0_weight + output_weight * (length t.output - 3);
  max_standard_tx_weight = 400000;
  main_txid = λ t. length t.output;
  comparisons = comparisons;
  sort_by = λ f xs. xs;
}

pub sort_law : SortLaw bitcoin
sort_law f xs = Permᴰ.refl xs

abbrev pub backend : Backend chain dalek
backend = record { Seed = ℕ; derive = λ seed i. some (seed + i); sort_by_value = λ l. l }

pub coin_sort_law : Select.SortLaw backend
coin_sort_law l = Permᴰ.refl l

abbrev pub coin : ℕ → ℕ → Output chain
coin address amount = record { address = address; content = value amount }

-- address, value, main fee, mainchain address
abbrev pub exit : ℕ → ℕ → ℕ → ℕ → Output chain
exit address amount fee main_address = record {
  address = address;
  content = withdrawal amount fee main_address;
}

-- ===== src/Types/Text.antt =====
-- Texts, and the text form of an address: src/types/address.rs, and `format_deposit_address` of
-- src/lib.rs. A text is the list of its bytes. The Base58Check coding of the `bs58` crate and the
-- digest of the `sha256` crate are parameters.
use ddk.Prelude.{
  ℕ, zero, suc, ◌+◌, ◌*◌, ◌/◌, ◌%◌, ◌==◌, ltb, if◌then◌else◌, List, [], ◌∷◌, ◌++◌, length, take,
  Result, ok, err, ◌>>=◌, map_err, Option, none, some,
}
use ddk.Types.{Address}

abbrev pub Text : Type 0
Text = List ℕ

-- The number that a fixed array of bytes reads as, most significant byte first, and back.
unfoldable pub from_bytes : ℕ → List ℕ → ℕ
from_bytes high [] = high
from_bytes high (b ∷ bs) = from_bytes (high * 256 + b) bs

unfoldable pub to_bytes : ℕ → ℕ → List ℕ
to_bytes zero x = []
to_bytes (suc n) x = to_bytes n (x / 256) ++ (x % 256) ∷ []

-- What the builders of `bs58` are told of a checksum: `with_check`, to write one or to expect it,
-- the version byte with it being optional.
pub data Check : Type 0 where
  unchecked : Check
  with_check : Option ℕ → Check

-- `bs58::encode(..).with_alphabet(..)..into_string()` and
-- `bs58::decode(..).with_alphabet(..)..into_vec()`, with the option for the checksum
pub record Base58 : Type 1 where
  pub Error : Type 0
  pub Alphabet : Type 0
  -- `bs58::Alphabet::BITCOIN`
  pub bitcoin : Alphabet
  pub encode : Alphabet → Check → List ℕ → Text
  pub decode : Alphabet → Check → Text → Result Error (List ℕ)

abbrev pub address_length : ℕ
address_length = 20

module _ (b : Base58) where
  pub data AddressParseError : Type 0 where
    bs58 : b.Error → AddressParseError
    wrong_length : ℕ → AddressParseError

  -- `Address::to_base58`, and `Display`
  unfoldable pub to_base58 : Address → Text
  unfolding to_bytes
  to_base58 a = b.encode b.bitcoin (with_check none) (to_bytes address_length a)

  -- `Address::from_str`
  unfoldable pub from_str : Text → Result AddressParseError Address
  unfolding from_bytes
  from_str s = do
    address ← map_err AddressParseError.bs58 (b.decode b.bitcoin (with_check none) s)
    (if length address == address_length
        then ok (from_bytes 0 address)
        else err (AddressParseError.wrong_length (length address)))

-- A `u8` in decimal.
unfoldable pub decimal : ℕ → Text
decimal n =
    if ltb n 10
    then (48 + n) ∷ []
    else (if ltb n 100
        then (48 + n / 10) ∷ (48 + n % 10) ∷ []
        else (48 + n / 100) ∷ (48 + n / 10 % 10) ∷ (48 + n % 10) ∷ [])

-- `format!("s{}_{}_", this_sidechain, str_dest)`
unfoldable pub deposit_prefix : ℕ → Text → Text
unfolding decimal
deposit_prefix this_sidechain str_dest = 115 ∷ decimal this_sidechain ++ 95 ∷ str_dest ++ 95 ∷ []

-- With none the program panics: the digest is shorter than the slice.
unfoldable pub format_deposit_address : (List ℕ → Text) → ℕ → Text → Option Text
unfolding deposit_prefix
format_deposit_address sha256 this_sidechain str_dest =
    let deposit_address = deposit_prefix this_sidechain str_dest in
    let hash = sha256 deposit_address in
    if ltb (length hash) 6 then none else some (deposit_address ++ take 6 hash)

-- ===== src/Types/Base58.antt =====
-- An address survives its text form, and what its text form refuses.
use ddk.Prelude.{
  ℕ, zero, suc, ◌+◌, ◌*◌, ◌/◌, ◌%◌, ◌^◌, ◌<◌, ◌≡◌, ◌≢◌, refl, sym, none, err, ◌⊎◌, inl, inr,
  ℕ_discrete, ◌∙◌, List, [], ◌∷◌, ◌++◌, length, length-append, All, ok, arith,
}
use mathlib.Core.Path.{subst}
use mathlib.Core.List.{append-nil, append_assoc}
use ddk.Types.{Address}
use ddk.Types.Text.{
  Text, unchecked, with_check, Base58, wrong_length, from_bytes, to_bytes, address_length,
  to_base58, from_str,
}

abbrev pub IsBytes : List ℕ → Type 0
IsBytes = All (λ x. x < 256)

-- What `bs58` documents, for each alphabet: bytes survive the coding without a checksum; with one,
-- the code is that of the bytes and their checksum; and who expects one gets the bytes before it,
-- if there is one, whatever their version byte.
pub record Base58Law (b : Base58) : Type 0 where
  pub checksum : List ℕ → List ℕ
  pub checksum-IsBytes : (bytes : List ℕ) → IsBytes (checksum bytes)
  pub decode-encode :
      (alphabet : b.Alphabet) (bytes : List ℕ)
      → IsBytes bytes
      → b.decode alphabet unchecked (b.encode alphabet unchecked bytes) ≡ ok bytes
  pub encode-with_check :
      (alphabet : b.Alphabet) (bytes : List ℕ)
      → b.encode alphabet (with_check none) bytes
        ≡ b.encode alphabet unchecked (bytes ++ checksum bytes)
  pub decode-with_check :
      (alphabet : b.Alphabet) (text : Text) (bytes : List ℕ)
      → b.decode alphabet unchecked text ≡ ok (bytes ++ checksum bytes)
      → b.decode alphabet (with_check none) text ≡ ok bytes

append-IsBytes : (xs ys : List ℕ) → IsBytes xs → IsBytes ys → IsBytes (xs ++ ys)
append-IsBytes [] ys hx hy = hy
append-IsBytes (x ∷ xs) ys hx hy = (hx.0, append-IsBytes xs ys hx.1 hy)

pub to_bytes-IsBytes : (n x : ℕ) → IsBytes (to_bytes n x)
unfolding to_bytes
to_bytes-IsBytes zero x = tt
to_bytes-IsBytes (suc n) x =
    append-IsBytes (to_bytes n (x / 256)) ((x % 256) ∷ []) (to_bytes-IsBytes n (x / 256))
      (omega arith, tt)

pub length-to_bytes : (n x : ℕ) → length (to_bytes n x) ≡ n
unfolding to_bytes
length-to_bytes zero x = refl
length-to_bytes (suc n) x =
    omega
      (arith, length-append (to_bytes n (x / 256)) ((x % 256) ∷ []), length-to_bytes n (x / 256))

from_bytes-append :
    (high : ℕ) (xs : List ℕ) (b : ℕ) → from_bytes high (xs ++ b ∷ []) ≡ from_bytes high xs * 256 + b
unfolding from_bytes
from_bytes-append high [] b = refl
from_bytes-append high (x ∷ xs) b = from_bytes-append (high * 256 + x) xs b

pub from_bytes-to_bytes : (n x : ℕ) → x < 256 ^ n → from_bytes 0 (to_bytes n x) ≡ x
unfolding from_bytes to_bytes
from_bytes-to_bytes zero x h = omega arith
from_bytes-to_bytes (suc n) x h =
    let low : x / 256 < 256 ^ n = omega arith in
    omega (
      arith,
      from_bytes-append 0 (to_bytes n (x / 256)) (x % 256),
      from_bytes-to_bytes n (x / 256) low,
    )

to_bytes-from_bytes :
    (bytes : List ℕ) (high n : ℕ)
    → IsBytes bytes
    → to_bytes (n + length bytes) (from_bytes high bytes) ≡ to_bytes n high ++ bytes
unfolding from_bytes to_bytes
to_bytes-from_bytes [] high n h =
    let same : n + 0 ≡ n = omega arith in rw same (sym (append-nil (to_bytes n high)))
to_bytes-from_bytes (x ∷ bytes) high n h =
    let longer : n + suc (length bytes) ≡ suc n + length bytes = omega arith in
    let above : (high * 256 + x) / 256 ≡ high = omega (arith, h.0) in
    let below : (high * 256 + x) % 256 ≡ x = omega (arith, h.0) in
    rw longer (
      to_bytes-from_bytes bytes (high * 256 + x) (suc n) h.1
      ∙ rw (above, below) (append_assoc (to_bytes n high) (x ∷ []) bytes))

-- The text of bytes with their checksum, as `from_str` reads it.
decode-text :
    (b : Base58) (bytes : List ℕ)
    → Base58Law b
    → IsBytes bytes
    → b.decode b.bitcoin (with_check none) (b.encode b.bitcoin (with_check none) bytes) ≡ ok bytes
decode-text b bytes law h = law.decode-with_check b.bitcoin _ bytes (
    rw (law.encode-with_check b.bitcoin bytes) (
      law.decode-encode b.bitcoin (bytes ++ law.checksum bytes)
        (append-IsBytes bytes (law.checksum bytes) h (law.checksum-IsBytes bytes))))

-- What becomes of the text of bytes with their checksum.
abbrev pub Reads : Base58 → List ℕ → Type 0
Reads b bytes =
    let text = b.encode b.bitcoin (with_check none) bytes in
    ((length bytes ≡ address_length)
      × (from_str b text ≡ ok (from_bytes 0 bytes))
      × (to_base58 b (from_bytes 0 bytes) ≡ text))
    ⊎ ((length bytes ≢ address_length) × (from_str b text ≡ err (wrong_length (length bytes))))

from_str-Reads : (b : Base58) (bytes : List ℕ) → Base58Law b → IsBytes bytes → Reads b bytes
unfolding from_str to_base58
from_str-Reads b bytes law h =
    let decoded = decode-text b bytes law h in
    elim (ℕ_discrete (length bytes) address_length) [
      | yes full ↦
          let zero_more : 0 + length bytes ≡ length bytes = omega arith in
          let back : to_bytes address_length (from_bytes 0 bytes) ≡ bytes =
            subst (λ (n : ℕ). to_bytes n (from_bytes 0 bytes) ≡ bytes) full
              (subst (λ (n : ℕ). to_bytes n (from_bytes 0 bytes) ≡ bytes) zero_more
                (to_bytes-from_bytes bytes 0 0 h)) in
          inl (full, ground (arith, decoded, full), rw (to_base58, back) refl)
      | no other ↦ inr (other, ground (arith, decoded, other))
    ]

-- If `bs58` codes as it documents, then an address of twenty bytes reads back from the text that
-- it is printed as; and the text of any bytes, with a checksum, is read as the address of these
-- bytes, which is printed as this text, if there are twenty of them, and else is refused with
-- their number.
pub from_str-to_base58 :
    (b : Base58) (a : Address) (bytes : List ℕ)
    → Base58Law b
    → a < 256 ^ address_length
    → IsBytes bytes
    → (from_str b (to_base58 b a) ≡ ok a) × Reads b bytes
unfolding to_base58 from_str
from_str-to_base58 b a bytes law fits h =
    let own = to_bytes address_length a in
    let decoded = decode-text b own law (to_bytes-IsBytes address_length a) in
    let full = length-to_bytes address_length a in
    let value = from_bytes-to_bytes address_length a fits in
    (ground (arith, decoded, full, value), from_str-Reads b bytes law h)

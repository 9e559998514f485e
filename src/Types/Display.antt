-- ===== src/Types/Display.antt =====
-- The text forms of hashes and outpoints: `Display` and `Debug` in src/types/hashes.rs and
-- src/types/types.rs. The coding of the `hex` crate, and what the `bitcoin` crate prints for a
-- transaction id, are parameters.
use ddk.Prelude.{
  ℕ, zero, suc, ◌+◌, ◌-◌, ◌*◌, ◌/◌, ◌%◌, ◌^◌, ◌<◌, ◌≡◌, refl, sym, ap, ◌∙◌, ltb, if◌then◌else◌,
  Result, ok, List, [], ◌∷◌, ◌++◌, length, arith, Bool-cases, inl, inr,
}
use ddk.Types.{Hash, OutPoint, regular, coinbase, deposit}
use ddk.Types.Text.{Text, from_bytes, to_bytes}
use ddk.Types.Base58.{IsBytes, length-to_bytes, to_bytes-IsBytes, from_bytes-to_bytes}

abbrev pub hash_length : ℕ
hash_length = 32

pub record Hex : Type 1 where
  pub Error : Type 0
  -- `hex::encode`, `hex::decode`
  pub encode : List ℕ → Text
  pub decode : Text → Result Error (List ℕ)
  -- `Display for bitcoin::Txid`
  pub main_txid_text : Hash → Text

-- What the crates document: bytes survive, and take two characters each; a transaction id of the
-- mainchain is printed in full.
pub record HexLaw (x : Hex) : Type 0 where
  pub survives : (bytes : List ℕ) → IsBytes bytes → x.decode (x.encode bytes) ≡ ok bytes
  pub two_each : (bytes : List ℕ) → length (x.encode bytes) ≡ 2 * length bytes
  pub main_length : (h : Hash) → length (x.main_txid_text h) ≡ 2 * hash_length
  pub main_injective : (g h : Hash) → x.main_txid_text g ≡ x.main_txid_text h → g ≡ h

-- `Display for u32`: at most ten digits
unfoldable pub digits : ℕ → ℕ → Text
digits zero n = []
digits (suc places) n =
    let rest = digits places (n / 10) in
    if ltb n 10 then (48 + n) ∷ [] else rest ++ (48 + n % 10) ∷ []

unfoldable pub u32_text : ℕ → Text
unfolding digits
u32_text n = digits 10 n

module _ (x : Hex) where
  -- `Display` and `Debug for BlockHash`
  unfoldable pub block_hash_text : Hash → Text
  block_hash_text h = x.encode (to_bytes hash_length h)

  -- `Display` and `Debug for MerkleRoot`
  unfoldable pub merkle_root_text : Hash → Text
  merkle_root_text h = x.encode (to_bytes hash_length h)

  -- `Display` and `Debug for Txid`
  unfoldable pub txid_text : Hash → Text
  txid_text h = x.encode (to_bytes hash_length h)

  -- `Display for OutPoint`
  unfoldable pub out_point_text : OutPoint → Text
  unfolding merkle_root_text txid_text u32_text
  out_point_text (regular txid vout) =
      (b'r' ∷ b'e' ∷ b'g' ∷ b'u' ∷ b'l' ∷ b'a' ∷ b'r' ∷ b' ' ∷ [])
      ++ (txid_text txid ++ b' ' ∷ u32_text vout)
  out_point_text (coinbase merkle_root vout) =
      (b'c' ∷ b'o' ∷ b'i' ∷ b'n' ∷ b'b' ∷ b'a' ∷ b's' ∷ b'e' ∷ b' ' ∷ [])
      ++ (merkle_root_text merkle_root ++ b' ' ∷ u32_text vout)
  out_point_text (deposit p) =
      (b'd' ∷ b'e' ∷ b'p' ∷ b'o' ∷ b's' ∷ b'i' ∷ b't' ∷ b' ' ∷ [])
      ++ (x.main_txid_text p.txid ++ b' ' ∷ u32_text p.vout)

-- What the digits read as.
value_of : ℕ → Text → ℕ
value_of high [] = high
value_of high (d ∷ ds) = value_of (high * 10 + (d - 48)) ds

value_of-append :
    (high : ℕ) (ds : Text) (d : ℕ) → value_of high (ds ++ d ∷ []) ≡ value_of high ds * 10 + (d - 48)
unfolding value_of
value_of-append high [] d = refl
value_of-append high (e ∷ ds) d = value_of-append (high * 10 + (e - 48)) ds d

value_of-digits : (places n : ℕ) → n < 10 ^ places → value_of 0 (digits places n) ≡ n
unfolding value_of digits
value_of-digits zero n h = omega arith
value_of-digits (suc places) n h = elim (Bool-cases (ltb n 10)) [
  | inl small ↦ rw small (omega arith)
  | inr large ↦
      let low : n / 10 < 10 ^ places = omega arith in
      rw large (
        omega (
          arith,
          value_of-append 0 (digits places (n / 10)) (48 + n % 10),
          value_of-digits places (n / 10) low,
        ))
]

append-injective :
    (xs xs' ys ys' : Text)
    → length xs ≡ length xs'
    → xs ++ ys ≡ xs' ++ ys'
    → (xs ≡ xs') × (ys ≡ ys')
append-injective [] [] ys ys' l e = (refl, e)
append-injective [] (x ∷ xs') ys ys' l e = absurd (omega arith)
append-injective (x ∷ xs) [] ys ys' l e = absurd (omega arith)
append-injective (x ∷ xs) (x' ∷ xs') ys ys' l e =
    let rest = append-injective xs xs' ys ys' (omega arith) (ground (arith, e)) in
    (ground (arith, e, rest.0), rest.1)

-- The numbers of an outpoint fit their types.
abbrev pub Fits : OutPoint → Type 0
Fits (regular txid vout) = (txid < 256 ^ hash_length) × (vout < 2 ^ 32)
Fits (coinbase merkle_root vout) = (merkle_root < 256 ^ hash_length) × (vout < 2 ^ 32)
Fits (deposit p) = p.vout < 2 ^ 32

u32_text-injective : (m n : ℕ) → m < 2 ^ 32 → n < 2 ^ 32 → u32_text m ≡ u32_text n → m ≡ n
unfolding u32_text
u32_text-injective m n hm hn e =
    sym (value_of-digits 10 m (omega arith))
    ∙ ap (value_of 0) e
    ∙ value_of-digits 10 n (omega arith)

module _ (x : Hex) (law : HexLaw x) where
  hex-injective :
      (g h : Hash)
      → g < 256 ^ hash_length
      → h < 256 ^ hash_length
      → x.encode (to_bytes hash_length g) ≡ x.encode (to_bytes hash_length h)
      → g ≡ h
  hex-injective g h hg hh e =
      let back =
        λ (k : Hash). law.survives (to_bytes hash_length k) (to_bytes-IsBytes hash_length k) in
      let same : ok (to_bytes hash_length g) ≡ ok (to_bytes hash_length h) =
        sym (back g) ∙ ap x.decode e ∙ back h in
      let bytes : to_bytes hash_length g ≡ to_bytes hash_length h = ground arith in
      sym (from_bytes-to_bytes hash_length g hg)
      ∙ ap (from_bytes 0) bytes
      ∙ from_bytes-to_bytes hash_length h hh

  length-hex :
      (g h : Hash)
      → length (x.encode (to_bytes hash_length g)) ≡ length (x.encode (to_bytes hash_length h))
  length-hex g h = omega (
    arith,
    law.two_each (to_bytes hash_length g),
    law.two_each (to_bytes hash_length h),
    length-to_bytes hash_length g,
    length-to_bytes hash_length h,
  )

  -- A hash and a number, with a space between them.
  pair-injective :
      (s s' : Text) (m n : ℕ)
      → length s ≡ length s'
      → m < 2 ^ 32
      → n < 2 ^ 32
      → s ++ b' ' ∷ u32_text m ≡ s' ++ b' ' ∷ u32_text n
      → (s ≡ s') × (m ≡ n)
  pair-injective s s' m n l hm hn e =
      let (front, back) = append-injective s s' (b' ' ∷ u32_text m) (b' ' ∷ u32_text n) l e in
      (front, u32_text-injective m n hm hn (ground (arith, back)))

  -- If hexadecimal text keeps the bytes, then two outpoints with one text are equal.
  pub out_point_text-injective :
      (p q : OutPoint) → Fits p → Fits q → out_point_text x p ≡ out_point_text x q → p ≡ q
  unfolding out_point_text txid_text merkle_root_text
  out_point_text-injective (regular g m) (regular h n) hp hq e =
      let (hash, vout) =
        pair-injective (txid_text x g) (txid_text x h) m n (length-hex g h) hp.1 hq.1
          (ground (arith, e)) in
      rw (hex-injective g h hp.0 hq.0 hash, vout) refl
  out_point_text-injective (coinbase g m) (coinbase h n) hp hq e =
      let (hash, vout) =
        pair-injective (merkle_root_text x g) (merkle_root_text x h) m n (length-hex g h) hp.1 hq.1
          (ground (arith, e)) in
      rw (hex-injective g h hp.0 hq.0 hash, vout) refl
  out_point_text-injective (deposit p) (deposit q) hp hq e =
      let (hash, vout) =
        pair-injective (x.main_txid_text p.txid) (x.main_txid_text q.txid) p.vout q.vout
          (law.main_length p.txid ∙ sym (law.main_length q.txid)) hp hq (ground (arith, e)) in
      ap deposit (ground (arith, law.main_injective p.txid q.txid hash, vout))
  out_point_text-injective (regular g m) (coinbase h n) hp hq e = absurd (ground (arith, e))
  out_point_text-injective (regular g m) (deposit q) hp hq e = absurd (ground (arith, e))
  out_point_text-injective (coinbase g m) (regular h n) hp hq e = absurd (ground (arith, e))
  out_point_text-injective (coinbase g m) (deposit q) hp hq e = absurd (ground (arith, e))
  out_point_text-injective (deposit p) (regular h n) hp hq e = absurd (ground (arith, e))
  out_point_text-injective (deposit p) (coinbase h n) hp hq e = absurd (ground (arith, e))

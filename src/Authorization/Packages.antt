-- ===== src/Authorization/Packages.antt =====
-- How `verify_authorizations` spreads the signatures over packages: no signature is lost or added.
use ddk.Prelude.{
  ℕ, zero, suc, ◌+◌, ◌-◌, ◌*◌, ◌≤◌, ◌<◌, ◌≡◌, refl, sym, ◌∙◌, ap, Bool, true, List, [], ◌∷◌, ◌++◌,
  map, length, take, drop, length-append, take-append-drop, ltb, ◌&&◌, ok, err, arith, Bool-cases,
  inl, inr, ltb→lt, not-ltb→le,
}
use ddk.Authorization.{
  Dalek, Package, panicked, Signed, slice, push_all, empty_package, split_packages, extend_last,
  verify_packages, package_sizes,
}
use mathlib.Core.List.{append_assoc, append-nil, map-append}

module _ {T : Type 0} where
  abbrev pub concat : List (List T) → List T
  concat [] = []
  concat (xs ∷ xss) = xs ++ concat xss

  -- `count` pieces of `size` elements
  abbrev pub chunks : List T → ℕ → ℕ → List (List T)
  chunks xs size zero = []
  chunks xs size (suc count) = take size xs ∷ chunks (drop size xs) size count

  drop-drop : (m n : ℕ) (xs : List T) → drop m (drop n xs) ≡ drop (n + m) xs
  drop-drop m zero xs = ap (λ k. drop k xs) (omega arith)
  drop-drop zero (suc n) [] = rw (suc-plus n zero)
    where
      suc-plus : (a b : ℕ) → suc a + b ≡ suc (a + b)
      suc-plus a b = omega arith
  drop-drop (suc m) (suc n) [] = rw (suc-plus n (suc m))
    where
      suc-plus : (a b : ℕ) → suc a + b ≡ suc (a + b)
      suc-plus a b = omega arith
  drop-drop m (suc n) (x ∷ xs) = rw (suc-plus n m) (drop-drop m n xs)
    where
      suc-plus : (a b : ℕ) → suc a + b ≡ suc (a + b)
      suc-plus a b = omega arith

  -- The pieces and what is left make up the list.
  pub concat-chunks :
      (xs : List T) (size count : ℕ) → concat (chunks xs size count) ++ drop (count * size) xs ≡ xs
  concat-chunks xs size zero = let e : 0 * size ≡ 0 = omega arith in rw e
  concat-chunks xs size (suc count) =
      let e : suc count * size ≡ size + count * size = omega arith in
      rw
        (
          e,
          ← drop-drop (count * size) size xs,
          append_assoc,
          concat-chunks (drop size xs) size count,
        )
        (take-append-drop size xs)

  slice-ok :
      (xs : List T) (i size : ℕ)
      → (i + 1) * size ≤ length xs
      → slice xs (i * size) ((i + 1) * size) ≡ ok (take size (drop (i * size) xs))
  unfolding slice
  slice-ok xs i size h =
      let n : (i + 1) * size - i * size ≡ size = omega arith in
      let order : i * size ≤ (i + 1) * size = omega arith in ground arith

  slice-panicked :
      (xs : List T) (i size : ℕ)
      → length xs < (i + 1) * size
      → slice xs (i * size) ((i + 1) * size) ≡ err panicked
  unfolding slice
  slice-panicked xs i size h = let order : i * size ≤ (i + 1) * size = omega arith in ground arith

module _ (d : Dalek) where
  pub pack : List (Signed d) → Package d
  pack xs = record {
    messages = map (λ x. x.1) xs;
    signatures = map (λ x. x.0.signature) xs;
    public_keys = map (λ x. x.0.public_key) xs;
  }

  push_all-lists :
      (p : Package d) (xs : List (Signed d))
      → push_all d p xs ≡ record {
        messages = p.messages ++ map (λ x. x.1) xs;
        signatures = p.signatures ++ map (λ x. x.0.signature) xs;
        public_keys = p.public_keys ++ map (λ x. x.0.public_key) xs;
      }
  unfolding push_all
  push_all-lists p [] = rw (append-nil, append-nil, append-nil)
  push_all-lists p ((a, m) ∷ xs) =
      push_all-lists
        (record {
          messages = p.messages ++ m ∷ [];
          signatures = p.signatures ++ a.signature ∷ [];
          public_keys = p.public_keys ++ a.public_key ∷ [];
        })
        xs
      ∙ simp append_assoc

  push_all-empty : (xs : List (Signed d)) → push_all d (empty_package d) xs ≡ pack xs
  unfolding pack
  push_all-empty xs = push_all-lists (empty_package d) xs

  push_all-pack : (xs ys : List (Signed d)) → push_all d (pack xs) ys ≡ pack (xs ++ ys)
  unfolding pack
  push_all-pack xs ys = push_all-lists (pack xs) ys ∙ simp map-append

  -- With enough pairs, the packages are the pieces.
  pub split_packages-ok :
      (pairs : List (Signed d)) (size i count : ℕ)
      → (i + count) * size ≤ length pairs
      → split_packages d pairs size i count
        ≡ ok (map pack (chunks (drop (i * size) pairs) size count))
  unfolding split_packages
  split_packages-ok pairs size i zero h = refl
  split_packages-ok pairs size i (suc count) h =
      let e : i * size + size ≡ (i + 1) * size = omega arith in
      let n : (i + suc count) * size ≡ (i + 1 + count) * size = omega arith in
      let room : (i + 1) * size ≤ length pairs = omega arith in
      rw (
        slice-ok pairs i size room,
        split_packages-ok pairs size (i + 1) count (omega arith),
        push_all-empty,
        drop-drop size (i * size) pairs,
        e,
      )

  -- With too few pairs, one of the slices is out of bounds.
  pub split_packages-panicked :
      (pairs : List (Signed d)) (size i count : ℕ)
      → i * size ≤ length pairs
      → length pairs < (i + count) * size
      → split_packages d pairs size i count ≡ err panicked
  unfolding split_packages
  split_packages-panicked pairs size i zero low h =
      let e : (i + 0) * size ≡ i * size = omega arith in absurd (omega arith)
  split_packages-panicked pairs size i (suc count) low h =
      elim (Bool-cases (ltb (length pairs) ((i + 1) * size))) [
        | inl over ↦ rw (slice-panicked pairs i size (ltb→lt _ _ over))
        | inr within ↦
            let room : (i + 1) * size ≤ length pairs = not-ltb→le _ _ within in
            let n : (i + suc count) * size ≡ (i + 1 + count) * size = omega arith in
            rw (
              slice-ok pairs i size room,
              split_packages-panicked pairs size (i + 1) count room (omega arith),
            )
      ]

  -- The last package takes the rest of the pairs.
  pub extend_last-ok :
      (rest part : List (Signed d)) (parts : List (List (Signed d)))
      → (parts' : List (List (Signed d))) × (extend_last d rest (map pack (part ∷ parts))
          ≡ ok (map pack parts'))
        × (concat parts' ≡ concat (part ∷ parts) ++ rest)
  unfolding extend_last
  extend_last-ok [] part parts = (part ∷ parts, refl, sym (append-nil _))
  extend_last-ok (x ∷ xs) part [] =
      ((part ++ x ∷ xs) ∷ [], rw (push_all-pack part (x ∷ xs)), simp (append-nil))
  extend_last-ok (x ∷ xs) part (next ∷ parts) =
      let (parts', extended, joined) = extend_last-ok (x ∷ xs) next parts in
      (
        part ∷ parts',
        rw extended,
        rw joined (sym (append_assoc part (concat (next ∷ parts)) (x ∷ xs))),
      )

  pub package_sizes-pack :
      (parts : List (List (Signed d))) → package_sizes d (map pack parts) ≡ length (concat parts)
  unfolding pack
  package_sizes-pack [] = refl
  package_sizes-pack (xs ∷ parts) =
      omega (arith, length-append xs (concat parts), package_sizes-pack parts, length-signatures xs)
    where
      length-signatures : (xs : List (Signed d)) → length (map (λ x. x.0.signature) xs) ≡ length xs
      length-signatures [] = refl
      length-signatures (x ∷ xs) = ap suc (length-signatures xs)

  module _ (valid : Signed d → Bool) where
    abbrev pub all_valid : List (Signed d) → Bool
    all_valid [] = true
    all_valid (x ∷ xs) = valid x && all_valid xs

    pub all_valid-append :
        (xs ys : List (Signed d)) → all_valid (xs ++ ys) ≡ (all_valid xs && all_valid ys)
    all_valid-append [] ys = refl
    all_valid-append (x ∷ xs) ys = ground (arith, all_valid-append xs ys)

    -- A batch is verified exactly when each of its signatures is valid.
    abbrev pub BatchLaw : Type 0
    BatchLaw =
        (xs : List (Signed d))
        → d.verify_batch (map (λ x. x.1) xs) (map (λ x. x.0.signature) xs)
            (map (λ x. x.0.public_key) xs)
          ≡ all_valid xs

    pub verify_packages-pack :
        BatchLaw
        → (parts : List (List (Signed d)))
        → verify_packages d (map pack parts) ≡ all_valid (concat parts)
    unfolding verify_packages pack
    verify_packages-pack law [] = refl
    verify_packages-pack law (xs ∷ parts) =
        ground (arith, law xs, verify_packages-pack law parts, all_valid-append xs (concat parts))

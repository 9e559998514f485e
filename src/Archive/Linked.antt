-- ===== src/Archive/Linked.antt =====
-- The archive is a chain: its headers stand at the heights from 1 on, each points to the one
-- below.
use ddk.Prelude.{
  ℕ, zero, suc, ◌+◌, ◌≤◌, ◌<◌, ◌≡◌, refl, Option, none, some, [], arith, ok, Option-cases, inl, inr,
  ◌⊎◌, u32_mod, Bool-cases, add32, ltb, ltb→lt, not-ltb→le,
}
use ddk.Table.{get, put, last}
use ddk.Table.Laws.{get-put}
use ddk.Table.Last.{get-last, le-last, get-last-none}
use ddk.Types.{Chain, Codec, Header, Hash, header_hash, number_key}
use ddk.Archive.{Archive, get_height, get_best_hash, append_header}

module _ {c : Chain} {A : Type 0} (codec : Codec c) where
  -- The hash of the header at a height; the all-zero hash below the first.
  abbrev pub hash_at : Archive c A → ℕ → Hash
  hash_at a h = elim (get h a.headers) [ none ↦ 0 | some x ↦ header_hash codec x ]

  -- The headers stand at the heights 1 to `n`, and each names the hash of the one below.
  pub record IsChain (n : ℕ) (a : Archive c A) : Type 0 where
    pub present : (h : ℕ) → 1 ≤ h → h ≤ n → (x : Header) × (get h a.headers ≡ some x)
    pub bottom : get 0 a.headers ≡ none
    pub above : (h : ℕ) → n < h → get h a.headers ≡ none
    pub linked :
        (h : ℕ) (x : Header) → get (h + 1) a.headers ≡ some x → x.prev_side_hash ≡ hash_at a h

  -- An archive with no header is a chain.
  pub empty-IsChain : (a : Archive c A) → a.headers ≡ [] → IsChain 0 a
  unfolding get
  empty-IsChain a e = record {
    present = λ h p q. absurd (omega arith);
    bottom = rw e;
    above = λ h p. rw e;
    linked = λ h x g. absurd (none_some (rw e at g));
  }
    where
      none_some : {x : Header} → ¬ (◌≡◌ {A = Option Header} none (some x))
      none_some h = cc

  -- The last entry of a chain is that at its height.
  last-IsChain :
      (n : ℕ) (a : Archive c A)
      → IsChain n a
      → ((n ≡ 0) × (last a.headers ≡ none))
        ⊎ ((x : Header) × (last a.headers ≡ some (n, x)) × (get n a.headers ≡ some x))
  last-IsChain n a ch = elim (Option-cases (last a.headers)) [
    | inl empty ↦ elim (ℕ-cases n) [
      | inl zero_height ↦ inl (zero_height, empty)
      | inr positive ↦
          let (x, found) = ch.present n positive (omega arith) in
          absurd (clash (get-last-none a.headers n empty) found)
    ]
    | inr ((k, x), e) ↦
        let found = get-last a.headers k x e in
        let top : k ≤ n = below k x found in
        let reached : n ≤ k = elim (ℕ-cases n) [
          | inl z ↦ omega arith
          | inr p ↦ let (y, g) = ch.present n p (omega arith) in le-last a.headers k n x y e g
        ] in
        let same : k ≡ n = omega arith in inr (x, rw (← same) e, rw (← same) found)
  ]
    where
      ℕ-cases : (m : ℕ) → (m ≡ 0) ⊎ (1 ≤ m)
      ℕ-cases zero = inl refl
      ℕ-cases (suc m) = inr (omega arith)

      clash : {V : Type 0} {o : Option V} {x : V} → o ≡ none → o ≡ some x → ⊥
      clash h k = cc

      below : (k : ℕ) (x : Header) → get k a.headers ≡ some x → k ≤ n
      below k x g = elim (Bool-cases (ltb n k)) [
        | inl over ↦ absurd (clash (ch.above k (ltb→lt n k over)) g)
        | inr within ↦ not-ltb→le n k within
      ]

  pub get_height-IsChain : (n : ℕ) (a : Archive c A) → IsChain n a → get_height a ≡ n
  unfolding get_height
  get_height-IsChain n a ch = ground (arith, last-IsChain n a ch)

  pub get_best_hash-IsChain :
      (n : ℕ) (a : Archive c A) → IsChain n a → get_best_hash codec a ≡ hash_at a n
  unfolding get_best_hash
  get_best_hash-IsChain n a ch = ground (arith, last-IsChain n a ch, ch.bottom)

  -- What a successful `append_header` does to a chain.
  pub append_header-ok :
      (n : ℕ) (a a' : Archive c A) (header : Header)
      → IsChain n a
      → n + 1 < u32_mod
      → append_header codec a header ≡ ok a'
      → (header.prev_side_hash ≡ hash_at a n)
        × (a'.headers ≡ put (n + 1) header a.headers)
        × (a'.hash_to_height ≡ put (header_hash codec header) (n + 1) a.hash_to_height)
        × (a'.bodies ≡ a.bodies)
  unfolding append_header
  append_header-ok n a a' header ch fits h =
      let height = get_height-IsChain n a ch in
      let best = get_best_hash-IsChain n a ch in
      let wrap : add32 n 1 ≡ n + 1 = omega arith in
      (ground arith, ground arith, ground arith, ground arith)

  -- Appending a header to a chain of `n` headers gives a chain of `n + 1`, as long as heights fit
  -- 32 bits.
  pub append_header-IsChain :
      (n : ℕ) (a a' : Archive c A) (header : Header)
      → IsChain n a
      → n + 1 < u32_mod
      → append_header codec a header ≡ ok a'
      → IsChain (n + 1) a'
  append_header-IsChain n a a' header ch fits h =
      let (prev, headers, index, bodies) = append_header-ok n a a' header ch fits h in
      let at_put : (k : ℕ) → get k a'.headers ≡ get k (put (n + 1) header a.headers) =
        λ k. rw headers in
      record {
        present =
            λ k p q. ground (arith, at_put k, get-put k (n + 1) header a.headers, ch.present k p);
        bottom = ground (arith, at_put 0, get-put 0 (n + 1) header a.headers, ch.bottom);
        above = λ k p. ground (arith, at_put k, get-put k (n + 1) header a.headers, ch.above k);
        linked = λ k x g. ground (
          arith,
          at_put k,
          at_put (k + 1),
          get-put k (n + 1) header a.headers,
          get-put (k + 1) (n + 1) header a.headers,
          ch.linked k x,
          ch.above (k + 1),
        );
      }

-- ===== src/Archive/Store.antt =====
-- Bodies under their headers: what `put_body` accepts, and what can be read after a block is
-- appended.
use ddk.Prelude.{
  ℕ, zero, suc, ◌+◌, ◌≤◌, ◌<◌, ◌≡◌, ◌≢◌, sym, ◌∙◌, some, arith, ok, err, Option-cases, inl, inr,
  ◌⊎◌, u32_mod, ◌==◌, true, false, Bool-cases, ltb, ltb→lt, not-ltb→le, ap, add32, ℕ_discrete,
  if◌then◌else◌,
}
use ddk.Table.{get, put}
use ddk.Table.Laws.{get-put}
use ddk.Types.{Chain, Codec, Header, Body, header_hash, compute_merkle_root, number_key}
use ddk.Archive.{
  Archive, invalid_prev_side_hash, get_header, get_body, get_height, get_best_hash, append_header,
  put_body,
}
use ddk.Archive.Linked.{
  IsChain, hash_at, append_header-ok, append_header-IsChain, get_height-IsChain,
  get_best_hash-IsChain,
}

module _ {c : Chain} {A : Type 0} (codec : Codec c) where
  -- On a chain, a header that names the hash of the highest header (the all-zero hash, if there
  -- is none) is appended, and any other is refused with the error for a wrong previous hash.
  pub append_header_lem :
      (n : ℕ) (a : Archive c A) (header : Header)
      → IsChain codec n a
      → ((header.prev_side_hash ≡ hash_at codec a n)
          × ((a' : Archive c A) × (append_header codec a header ≡ ok a')))
        ⊎ ((header.prev_side_hash ≢ hash_at codec a n)
            × (append_header codec a header ≡ err invalid_prev_side_hash))
  unfolding append_header
  append_header_lem n a header ch =
      let best = get_best_hash-IsChain codec n a ch in
      let appended : Archive c A = record a {
        headers = put (add32 (get_height a) 1) header a.headers;
        hash_to_height = put (header_hash codec header) (add32 (get_height a) 1) a.hash_to_height;
      } in
      elim (ℕ_discrete header.prev_side_hash (hash_at codec a n)) [
        | yes same ↦ inl (same, (appended, ground arith))
        | no other ↦ inr (other, ground arith)
      ]

  -- If a body is stored, its merkle root is the header's and the header's hash has a height; the
  -- body then is that at this height, and all other bodies, the headers and the heights stay.
  pub put_body-ok :
      (a a' : Archive c A) (header : Header) (body : Body c A)
      → put_body codec a header body ≡ ok a'
      → (height : ℕ) × (get (header_hash codec header) a.hash_to_height ≡ some height)
        × (header.merkle_root ≡ compute_merkle_root codec body)
        × ((k : ℕ) → get_body a' k ≡ (if k == height then some body else get_body a k))
        × (a'.headers ≡ a.headers)
        × (a'.hash_to_height ≡ a.hash_to_height)
  unfolding put_body get_body
  put_body-ok a a' header body h =
      elim (Option-cases (get (header_hash codec header) a.hash_to_height)) [
        | inl missing ↦ absurd (ground arith)
        | inr (height, found) ↦ (
          height,
          found,
          ground arith,
          λ k. ground (arith, get-put k height body a.bodies),
          ground arith,
          ground arith,
        )
      ]

  -- After a block's header is appended to a chain, its body can be stored, and both can be read
  -- at the new height, which is the archive's height with the block's hash as the best hash.
  pub append_header-put_body :
      (n : ℕ) (a a' : Archive c A) (header : Header) (body : Body c A)
      → IsChain codec n a
      → n + 1 < u32_mod
      → header.merkle_root ≡ compute_merkle_root codec body
      → append_header codec a header ≡ ok a'
      → (b : Archive c A) × (put_body codec a' header body ≡ ok b)
        × IsChain codec (n + 1) b
        × (get_height b ≡ n + 1)
        × (get_best_hash codec b ≡ header_hash codec header)
        × (get_header b (n + 1) ≡ some header)
        × (get_body b (n + 1) ≡ some body)
  unfolding put_body get_header get_body
  append_header-put_body n a a' header body ch fits root h =
      let (prev, headers, index, bodies) = append_header-ok codec n a a' header ch fits h in
      let ch' = append_header-IsChain codec n a a' header ch fits h in
      let b : Archive c A = record a' { bodies = put (n + 1) body a'.bodies } in
      let chain : IsChain codec (n + 1) b = record {
        present = ch'.present;
        bottom = ch'.bottom;
        above = ch'.above;
        linked = ch'.linked;
      } in
      let at_hash : get (header_hash codec header) a'.hash_to_height ≡ some (n + 1) = rw index (
        ground (
          arith,
          get-put (header_hash codec header) (header_hash codec header) (n + 1) a.hash_to_height,
        )) in
      let at_height : get (n + 1) a'.headers ≡ some header =
        rw headers (ground (arith, get-put (n + 1) (n + 1) header a.headers)) in
      (
        b,
        ground arith,
        chain,
        get_height-IsChain codec (n + 1) b chain,
        get_best_hash-IsChain codec (n + 1) b chain ∙ rw (hash_at, at_height),
        at_height,
        ground (arith, get-put (n + 1) (n + 1) body a'.bodies),
      )

  module _ (n : ℕ) (a : Archive c A) (ch : IsChain codec n a) where
    -- The header at a height, with its hash as `hash_at`.
    at_height :
        (h : ℕ)
        → 1 ≤ h
        → h ≤ n
        → (x : Header) × (get h a.headers ≡ some x) × (hash_at codec a h ≡ header_hash codec x)
    at_height h p q = let (x, g) = ch.present h p q in (x, g, rw (hash_at, g))

    within : (h : ℕ) (x : Header) → get h a.headers ≡ some x → (1 ≤ h) × (h ≤ n)
    within h x g = (lower h g, upper (Bool-cases (ltb n h)))
      where
        lower : (k : ℕ) → get k a.headers ≡ some x → 1 ≤ k
        lower zero e = absurd (ground (arith, ch.bottom))
        lower (suc k) e = omega arith

        upper : (ltb n h ≡ true) ⊎ (ltb n h ≡ false) → h ≤ n
        upper (inl over) = absurd (ground (arith, ch.above h (ltb→lt n h over)))
        upper (inr inside) = not-ltb→le n h inside

    -- If the stored headers do not collide and none hashes to zero, no header stands at two
    -- heights of a chain.
    pub IsChain-distinct :
        ((h k : ℕ) (x y : Header)
          → get h a.headers ≡ some x
          → get k a.headers ≡ some y
          → header_hash codec x ≡ header_hash codec y
          → x ≡ y)
        → ((h : ℕ) (x : Header) → get h a.headers ≡ some x → header_hash codec x ≢ 0)
        → (h d : ℕ) (x : Header) → get h a.headers ≡ some x
        → get (h + suc d) a.headers ≢ some x
    IsChain-distinct inj nonzero zero d x g = λ e. absurd (ground (arith, ch.bottom))
    IsChain-distinct inj nonzero (suc zero) d x g = λ e.
        let e1 : suc zero + suc d ≡ suc d + 1 = omega arith in
        let e' : get (suc d + 1) a.headers ≡ some x = rw e1 at e in
        let (low, high) = within (suc d + 1) x e' in
        let (y, gy, hy) = at_height (suc d) (omega arith) (omega arith) in
        let prev_low = ch.linked 0 x g in
        let prev_high = ch.linked (suc d) x e' in
        let none_low : hash_at codec a 0 ≡ 0 = rw (hash_at, ch.bottom) in
        nonzero (suc d) y gy (sym hy ∙ sym prev_high ∙ prev_low ∙ none_low)
    IsChain-distinct inj nonzero (suc (suc h)) d x g = λ e.
        let e1 : suc (suc h) + suc d ≡ suc h + suc d + 1 = omega arith in
        let e' : get (suc h + suc d + 1) a.headers ≡ some x = rw e1 at e in
        let g1 : suc (suc h) ≡ suc h + 1 = omega arith in
        let g' : get (suc h + 1) a.headers ≡ some x = rw g1 at g in
        let (low, high) = within (suc h + suc d + 1) x e' in
        let (y, gy, hy) = at_height (suc h) (omega arith) (omega arith) in
        let (z, gz, hz) = at_height (suc h + suc d) (omega arith) (omega arith) in
        let prev_low = ch.linked (suc h) x g' in
        let prev_high = ch.linked (suc h + suc d) x e' in
        let same : z ≡ y =
          inj (suc h + suc d) (suc h) z y gz gy (sym hz ∙ sym prev_high ∙ prev_low ∙ hy) in
        IsChain-distinct inj nonzero (suc h) d y gy (gz ∙ ap some same)

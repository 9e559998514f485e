-- ===== src/Wallet/Select.antt =====
-- `select_coins`: when it succeeds, and what it selects.
use ddk.Prelude.{
  ℕ, ◌+◌, ◌≤◌, ◌<◌, ◌≡◌, refl, false, List, [], ◌∷◌, map, arith, All, All-perm, sum, sum-perm, ltb,
  add64, u64_mod, ok, err, Bool-cases, inl, inr, ◌⊎◌, if◌then◌else◌, ltb→lt, not-ltb→le, none, some,
  sym,
}
use ddk.Table.{Table, get, put}
use ddk.Table.Laws.{get-put}
use ddk.Table.Total.{total, total-put_new}
use ddk.Table.Every.{put-All}
use ddk.Table.Unique.{UniqueKeys, Lacks, UniqueKeys-perm, UniqueKeys-get}
use ddk.Types.{Chain, OutPoint, Output, get_value, is_withdrawal, out_point_key}
use ddk.Authorization.{Dalek}
use ddk.Wallet.{Backend, Wallet, not_enough_funds, Selection, pick, select_coins}
use mathlib.Core.List.{Permᴰ}

-- What an output adds to the balance that can be spent: a withdrawal cannot be.
unfoldable pub spendable_value : {c : Chain} → Output c → ℕ
spendable_value o = if is_withdrawal o.content then 0 else get_value o

abbrev pub spendable : {c : Chain} → List (OutPoint × Output c) → ℕ
spendable entries = sum (map (λ e. spendable_value e.1) entries)

module _ {c : Chain} {d : Dalek} (w : Backend c d) where
  abbrev pub SortLaw : Type 0
  SortLaw = (l : List (OutPoint × Output c)) → Permᴰ l (w.sort_by_value l)

  -- The loop collects all that is spendable, or stops above what is wanted.
  pick-total :
      (wanted : ℕ) (l : List (OutPoint × Output c)) (found : Selection w)
      → found.total + spendable l < u64_mod
      → ((pick w wanted l found).total ≤ found.total + spendable l)
        × (((pick w wanted l found).total ≡ found.total + spendable l)
            ⊎ (wanted < (pick w wanted l found).total))
  unfolding pick spendable_value
  pick-total wanted [] found fits = (omega arith, inl (omega arith))
  pick-total wanted ((p, o) ∷ rest) found fits = elim (Bool-cases (is_withdrawal o.content)) [
    | inl skip ↦
        let later = pick-total wanted rest found (ground arith) in
        rw skip
          (omega arith, elim (later.1) [ inl all ↦ inl (omega arith) | inr above ↦ inr above ])
    | inr take_it ↦ elim (Bool-cases (ltb wanted found.total)) [
      | inl enough ↦ rw (take_it, enough) (omega arith, inr (ltb→lt wanted found.total enough))
      | inr more ↦
          let room : found.total + (get_value o + spendable rest) < u64_mod = ground arith in
          let plain : add64 found.total (get_value o) ≡ found.total + get_value o = omega arith in
          let later =
            pick-total wanted rest
              (record {
                total = add64 found.total (get_value o);
                selected = put p o found.selected;
              })
              (omega arith) in
          rw (take_it, more)
            (omega arith, elim (later.1) [ inl all ↦ inl (omega arith) | inr above ↦ inr above ])
    ]
  ]

  -- What holds of every output that may be taken holds of all that are selected.
  pick-All :
      (P : OutPoint × Output c → Type 0) (wanted : ℕ) (l : List (OutPoint × Output c))
      (found : Selection w)
      → All (λ e. is_withdrawal e.1.content ≡ false → P e) l
      → All P found.selected
      → All P (pick w wanted l found).selected
  unfolding pick
  pick-All P wanted [] found q h = h
  pick-All P wanted ((p, o) ∷ rest) found q h = elim (Bool-cases (is_withdrawal o.content)) [
    | inl skip ↦ rw skip (pick-All P wanted rest found q.1 h)
    | inr take_it ↦ elim (Bool-cases (ltb wanted found.total)) [
      | inl enough ↦ rw (take_it, enough) h
      | inr more ↦
          rw (take_it, more)
            (pick-All P wanted rest _ q.1 (put-All P p o found.selected (q.0 take_it) h))
    ]
  ]

  absent-put :
      (k : OutPoint) (v : Output c) (t : Table OutPoint (Output c)) (l : List (OutPoint × Output c))
      → Lacks k l
      → All (λ e. get e.0 t ≡ none) l
      → All (λ e. get e.0 (put k v t) ≡ none) l
  absent-put k v t [] a h = tt
  absent-put k v t (e ∷ l) a h =
      (ground (arith, get-put e.0 k v t, h.0, a.0), absent-put k v t l a.1 h.1)

  -- The total is the value of what is selected.
  pick-value :
      (wanted : ℕ) (l : List (OutPoint × Output c)) (found : Selection w)
      → UniqueKeys l
      → All (λ e. get e.0 found.selected ≡ none) l
      → found.total + spendable l < u64_mod
      → total get_value found.selected ≡ found.total
      → total get_value (pick w wanted l found).selected ≡ (pick w wanted l found).total
  unfolding pick spendable_value
  pick-value wanted [] found u a fits h = h
  pick-value wanted ((p, o) ∷ rest) found u a fits h = elim (Bool-cases (is_withdrawal o.content)) [
    | inl skip ↦ rw skip (pick-value wanted rest found u.1 a.1 (ground arith) h)
    | inr take_it ↦ elim (Bool-cases (ltb wanted found.total)) [
      | inl enough ↦ rw (take_it, enough) h
      | inr more ↦
          let room : found.total + (get_value o + spendable rest) < u64_mod = ground arith in
          let added = total-put_new get_value p o found.selected a.0 in
          rw (take_it, more)
            (pick-value wanted rest
              (record {
                total = add64 found.total (get_value o);
                selected = put p o found.selected;
              })
              u.1 (absent-put p o found.selected rest u.0 a.1) (omega arith) (omega arith))
    ]
  ]

  spendable-sort :
      SortLaw → (l : List (OutPoint × Output c)) → spendable (w.sort_by_value l) ≡ spendable l
  spendable-sort sorts l = sym (sum-perm (λ e. spendable_value e.1) (sorts l))

  -- If the spendable balance fits 64 bits and sorting permutes, coins for a value are selected
  -- exactly when the balance covers the value; their total then covers it too.
  pub select_coins-total :
      SortLaw
      → (s : Wallet w) (wanted : ℕ) → spendable s.utxos < u64_mod
      → ((found : Selection w) × (select_coins w s wanted ≡ ok found)
          × (wanted ≤ found.total)
          × (found.total ≤ spendable s.utxos))
        ⊎ ((select_coins w s wanted ≡ err not_enough_funds) × (spendable s.utxos < wanted))
  unfolding select_coins
  select_coins-total sorts s wanted fits =
      let start : Selection w = record { total = 0; selected = [] } in
      let same = spendable-sort sorts s.utxos in
      let (below, reached) = pick-total wanted (w.sort_by_value s.utxos) start (omega arith) in
      let found = pick w wanted (w.sort_by_value s.utxos) start in
      elim (Bool-cases (ltb found.total wanted)) [
        | inl short ↦ inr (rw short refl, omega (arith, ltb→lt found.total wanted short))
        | inr covered ↦
            inl (found, rw covered refl, not-ltb→le found.total wanted covered, omega arith)
      ]

  -- Selected coins are unspent outputs of the wallet that are no withdrawals, and the total is
  -- their value and covers what is wanted, if the wallet's outpoints are distinct, its spendable
  -- balance fits 64 bits and sorting permutes.
  pub select_coins-selected :
      SortLaw
      → (s : Wallet w) (wanted : ℕ) (found : Selection w) → UniqueKeys s.utxos
      → spendable s.utxos < u64_mod
      → select_coins w s wanted ≡ ok found
      → All (λ e. (get e.0 s.utxos ≡ some e.1) × (is_withdrawal e.1.content ≡ false)) found.selected
        × (total get_value found.selected ≡ found.total)
        × (wanted ≤ found.total)
  unfolding select_coins total get
  select_coins-selected sorts s wanted found unique fits h =
      let start : Selection w = record { total = 0; selected = [] } in
      let l = w.sort_by_value s.utxos in
      let same = spendable-sort sorts s.utxos in
      let entries = UniqueKeys-get s.utxos unique in
      let sorted = All-perm (λ e. get e.0 s.utxos ≡ some e.1) (sorts s.utxos) entries in
      let is_found : pick w wanted l start ≡ found = ground arith in
      let chosen =
        pick-All (λ e. (get e.0 s.utxos ≡ some e.1) × (is_withdrawal e.1.content ≡ false)) wanted l
          start (keep l sorted) tt in
      let worth =
        pick-value wanted l start (UniqueKeys-perm (sorts s.utxos) unique) (none_yet l)
          (omega arith) refl in
      (rw is_found at chosen, rw is_found at worth, ground arith)
    where
      keep :
          (l : List (OutPoint × Output c))
          → All (λ e. get e.0 s.utxos ≡ some e.1) l
          → All
              (λ e.
                is_withdrawal e.1.content ≡ false
                → (get e.0 s.utxos ≡ some e.1) × (is_withdrawal e.1.content ≡ false))
              l
      keep [] h = tt
      keep (e ∷ l) h = (λ k. (h.0, k), keep l h.1)

      none_yet : (l : List (OutPoint × Output c)) → All (λ e. get {V = Output c} e.0 [] ≡ none) l
      none_yet [] = tt
      none_yet (e ∷ l) = (refl, none_yet l)

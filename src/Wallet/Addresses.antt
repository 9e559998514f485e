-- ===== src/Wallet/Addresses.antt =====
-- The wallet's addresses and their keys.
use ddk.Prelude.{
  ℕ, ◌+◌, ◌≤◌, ◌<◌, ◌≡◌, refl, sym, ap, some, Result, ok, err, arith, inl, inr, ◌⊎◌, add32, u32_mod,
  Option-cases,
}
use mathlib.Core.Path.{subst}
use ddk.Table.{Table, get, put, last}
use ddk.Table.Laws.{get-put}
use ddk.Table.Last.{get-last, le-last, get-last-none}
use ddk.Types.{Chain, Address, out_point_key, number_key}
use ddk.Authorization.{Dalek, get_address}
use ddk.Wallet.{
  Backend, Wallet, Error, no_seed, bip32, get_num_addresses, get_new_address, set_seed,
}

module _ {c : Chain} {d : Dalek} (w : Backend c d) where
  -- Every address with an index is that of the key pair which the seed gives for the index.
  abbrev pub HasKeys : Wallet w → Type 0
  HasKeys s =
      (a : Address) (i : ℕ)
      → get a s.address_to_index ≡ some i
      → (seed : w.Seed) × (k : d.Keypair) × (s.seed ≡ some seed)
        × (w.derive seed i ≡ some k)
        × (get_address d (d.public k) ≡ a)

  -- A wallet whose seed was just set has no addresses.
  pub set_seed-HasKeys : (seed : w.Seed) (s : Wallet w) → HasKeys (set_seed w seed s)
  unfolding set_seed get
  set_seed-HasKeys seed s a i h = absurd (ground arith)

  -- The wallet with one more address.
  abbrev with_address : Wallet w → ℕ → Address → Wallet w
  with_address s index address = record s {
    index_to_address = put index address s.index_to_address;
    address_to_index = put address index s.address_to_index;
  }

  -- The next index.
  abbrev pub next_index : Wallet w → ℕ
  next_index s = add32 (get_num_addresses w s) 1

  -- How `get_new_address` ends: with the address of the key pair for the next index, or, without a
  -- seed or a key, with an error and the wallet as it was.
  get_new_address-cases :
      (s : Wallet w)
      → ((seed : w.Seed) × (k : d.Keypair) × (s.seed ≡ some seed)
          × (w.derive seed (next_index s) ≡ some k)
          × (get_new_address w s ≡ (
            ok (get_address d (d.public k)),
            with_address s (next_index s) (get_address d (d.public k)),
          )))
        ⊎ ((e : Error) × (get_new_address w s ≡ (err e, s)))
  unfolding get_new_address
  get_new_address-cases s = elim (Option-cases s.seed) [
    | inl unset ↦ inr (no_seed, ground arith)
    | inr (seed, set) ↦ elim (Option-cases (w.derive seed (next_index s))) [
      | inl underivable ↦ inr (bip32, ground arith)
      | inr (k, derived) ↦ inl (seed, k, set, derived, ground arith)
    ]
  ]

  with_address-HasKeys :
      (s : Wallet w) (seed : w.Seed) (k : d.Keypair) (index : ℕ)
      → s.seed ≡ some seed
      → w.derive seed index ≡ some k
      → HasKeys s
      → HasKeys (with_address s index (get_address d (d.public k)))
  with_address-HasKeys s seed k index set derived keys a i h =
      elim (number_key.discrete a (get_address d (d.public k))) [
        | yes new ↦
            let same : index ≡ i =
              ground (arith, get-put a (get_address d (d.public k)) index s.address_to_index) in
            (seed, k, set, rw same at derived, sym new)
        | no old ↦
            keys a i
              (ground (arith, get-put a (get_address d (d.public k)) index s.address_to_index))
      ]

  -- Making a new address keeps the invariant that every address with an index is that of the key
  -- which the seed gives for the index, also where there is no key and the operation fails.
  pub get_new_address-HasKeys : (s : Wallet w) → HasKeys s → HasKeys (get_new_address w s).1
  get_new_address-HasKeys s keys = elim (get_new_address-cases s) [
    | inl (seed, k, set, derived, made) ↦
        subst HasKeys (sym (ap (λ (r : Result Error Address × Wallet w). r.1) made))
          (with_address-HasKeys s seed k (next_index s) set derived keys)
    | inr (e, refused) ↦
        subst HasKeys (sym (ap (λ (r : Result Error Address × Wallet w). r.1) refused)) keys
  ]

  last-put :
      {V : Type 0} (t : Table ℕ V) (k : ℕ) (v : V)
      → ((j : ℕ) (x : V) → get j t ≡ some x → j < k)
      → (x : V) × (last (put k v t) ≡ some (k, x))
  last-put t k v below = elim (Option-cases (last (put k v t))) [
    | inl empty ↦ absurd (ground (arith, get-last-none (put k v t) k empty, get-put k k v t))
    | inr ((i, x), found) ↦
        let stored = get-last (put k v t) i x found in
        let top : k ≤ i = le-last (put k v t) i k x v found (ground (arith, get-put k k v t)) in
        elim (number_key.discrete i k) [
          | yes same ↦ (x, rw same at found)
          | no other ↦ absurd (omega (arith, below i x (ground (arith, get-put i k v t))))
        ]
  ]

  -- If it fits 32 bits, a new address has the index after the greatest: both tables lead from one
  -- to the other, and the seed and the unspent outputs stay.
  pub get_new_address-ok :
      (s s' : Wallet w) (a : Address)
      → get_num_addresses w s + 1 < u32_mod
      → get_new_address w s ≡ (ok a, s')
      → (get (get_num_addresses w s + 1) s'.index_to_address ≡ some a)
        × (get a s'.address_to_index ≡ some (get_num_addresses w s + 1))
        × (get_num_addresses w s' ≡ get_num_addresses w s + 1)
        × (s'.seed ≡ s.seed)
        × (s'.utxos ≡ s.utxos)
  unfolding get_num_addresses
  get_new_address-ok s s' a fits h = elim (get_new_address-cases s) [
    | inr (e, refused) ↦ absurd (ground arith)
    | inl (seed, k, set, derived, made) ↦
        let next : next_index s ≡ get_num_addresses w s + 1 = omega arith in
        let is_a : get_address d (d.public k) ≡ a = ground arith in
        let after : with_address s (next_index s) (get_address d (d.public k)) ≡ s' =
          ground arith in
        let n = get_num_addresses w s + 1 in
        let after' : with_address s n a ≡ s' = ground arith in
        let (x, top) = last-put s.index_to_address n a (below s) in
        subst
          (λ (r : Wallet w).
            (get n r.index_to_address ≡ some a)
            × (get a r.address_to_index ≡ some n)
            × (get_num_addresses w r ≡ n)
            × (r.seed ≡ s.seed)
            × (r.utxos ≡ s.utxos))
          after'
          (
            ground (arith, get-put n n a s.index_to_address),
            ground (arith, get-put a a n s.address_to_index),
            ground (arith, top),
            refl,
            refl,
          )
  ]
    where
      below :
          (s : Wallet w) (j : ℕ) (x : Address)
          → get j s.index_to_address ≡ some x
          → j < get_num_addresses w s + 1
      below s j x g = elim (Option-cases (last s.index_to_address)) [
        | inl empty ↦ absurd (ground (arith, get-last-none s.index_to_address j empty))
        | inr ((i, y), found) ↦ ground (arith, le-last s.index_to_address i j y x found g)
      ]

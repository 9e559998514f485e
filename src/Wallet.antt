-- ===== src/Wallet.antt =====
-- The wallet of src/wallet.rs: addresses derived from a seed, coin selection, and the making of
-- transactions. An operation returns its result with the wallet that it leaves, also where it
-- fails, since every database transaction that was committed stays. What heed and the file system
-- may fail with (`Error::Heed`, `Error::Io`) is not modelled.
pub mod Select
pub mod Balance
pub mod Create
pub mod Addresses
pub mod Authorize
use ddk.Prelude.{
  ℕ, ◌≡◌, refl, arith, ◌+◌, ◌-◌, Bool, true, false, Option, none, some, List, [], ◌∷◌, map, is_some,
  ltb, if◌then◌else◌, add64, sub64, add32, Result, ok, err, ok_or, sum64_from,
}
use ddk.Table.{Key, Table, get, put, put_all, delete_all, last, keys}
use ddk.Types.{
  Chain, Codec, OutPoint, Output, value, withdrawal, Transaction, AuthorizedTransaction, Address,
  get_value, is_withdrawal, out_point_key, number_key,
}
use ddk.Authorization.{Dalek, Authorization, get_address, sign}

-- `ed25519_dalek_bip32`: a key pair by seed and index (path 1'/0'/0'/index'), and
-- `slice::sort_unstable_by_key` on the values of outputs.
pub record Backend (c : Chain) (d : Dalek) : Type 1 where
  pub Seed : Type 0
  pub derive : Seed → ℕ → Option d.Keypair
  pub sort_by_value : List (OutPoint × Output c) → List (OutPoint × Output c)

pub data Error : Type 0 where
  bip32 : Error
  no_utxo : Error
  no_seed : Error
  no_index : Address → Error
  not_enough_funds : Error

module _ {c : Chain} {d : Dalek} (w : Backend c d) where
  pub record Wallet : Type 0 where
    pub seed : Option w.Seed
    pub address_to_index : Table Address ℕ
    pub index_to_address : Table ℕ Address
    pub utxos : Table OutPoint (Output c)

  -- A result, and the wallet afterwards.
  abbrev pub Action : Type 0 → Type 0
  Action A = Wallet → Result Error A × Wallet

  infixl 5 ◌>>=◌
  abbrev pub ◌>>=◌ : {A B : Type 0} → Action A → (A → Action B) → Action B
  ◌>>=◌ m f s = let (r, s') = m s in elim r [ ok a ↦ f a s' | err e ↦ (err e, s') ]

  abbrev pub pure : {A : Type 0} → A → Action A
  pure a s = (ok a, s)

  -- What is only read.
  abbrev pub reads : {A : Type 0} → (Wallet → Result Error A) → Action A
  reads f s = (f s, s)

  -- Inversion of a successful chain.
  pub >>=-eq-ok :
      {A B : Type 0} (m : Action A) (f : A → Action B) (s s' : Wallet) {b : B}
      → (m >>= f) s ≡ (ok b, s')
      → (a : A) × (s1 : Wallet) × (m s ≡ (ok a, s1)) × (f a s1 ≡ (ok b, s'))
  >>=-eq-ok {A} {B} m f s s' {b} h = go (m s).0 (m s).1 refl h
    where
      go :
          (r : Result Error A) (s1 : Wallet)
          → m s ≡ (r, s1)
          → ◌≡◌ {A = Result Error B × Wallet}
              (elim r [ ok a ↦ f a s1 | err e ↦ (err e, s1) ])
              (ok b, s')
          → (a : A) × (s2 : Wallet) × (m s ≡ (ok a, s2)) × (f a s2 ≡ (ok b, s'))
      go (ok a) s1 e k = (a, s1, e, k)
      go (err x) s1 e k = absurd (ground arith)

  unfoldable pub set_seed : w.Seed → Wallet → Wallet
  set_seed seed s = record {
    seed = some seed;
    address_to_index = [];
    index_to_address = [];
    utxos = [];
  }

  unfoldable pub has_seed : Wallet → Bool
  has_seed s = is_some s.seed

  unfoldable pub get_keypair : Wallet → ℕ → Result Error d.Keypair
  get_keypair s index = elim s.seed [
    | none ↦ err no_seed
    | some seed ↦ ok_or (w.derive seed index) bip32
  ]

  unfoldable pub get_num_addresses : Wallet → ℕ
  get_num_addresses s = elim (last s.index_to_address) [ none ↦ 0 | some (index, _) ↦ index ]

  unfoldable pub get_new_address : Action Address
  unfolding get_num_addresses get_keypair
  get_new_address s =
      let index = add32 (get_num_addresses s) 1 in
      elim (get_keypair s index) [
        | err e ↦ (err e, s)
        | ok keypair ↦
            let address = get_address d (d.public keypair) in
            (
              ok address,
              record s {
                index_to_address = put index address s.index_to_address;
                address_to_index = put address index s.address_to_index;
              },
            )
      ]

  -- The variables of the loop of `select_coins`.
  pub record Selection : Type 0 where
    pub total : ℕ
    pub selected : Table OutPoint (Output c)

  -- the loop of `select_coins`
  unfoldable pub pick : ℕ → List (OutPoint × Output c) → Selection → Selection
  pick wanted [] found = found
  pick wanted ((p, o) ∷ rest) found =
      let skip = pick wanted rest found in
      let more =
        pick wanted rest
          (record { total = add64 found.total (get_value o); selected = put p o found.selected }) in
      if is_withdrawal o.content then skip else (if ltb wanted found.total then found else more)

  unfoldable pub select_coins : Wallet → ℕ → Result Error Selection
  unfolding pick
  select_coins s wanted =
      let found = pick wanted (w.sort_by_value s.utxos) (record { total = 0; selected = [] }) in
      if ltb found.total wanted then err not_enough_funds else ok found

  -- the rest of `create_withdrawal`, once the coins and the first address are there
  abbrev pub finish_withdrawal :
      c.MainAddress → ℕ → ℕ → ℕ → Selection → Address → Address → Action (Transaction c)
  finish_withdrawal main_address amount main_fee fee coins a b = pure (record {
    inputs = keys coins.selected;
    outputs =
        record { address = a; content = withdrawal amount main_fee main_address }
        ∷ record { address = b; content = value (sub64 (sub64 coins.total amount) fee) }
        ∷ [];
  })

  unfoldable pub create_withdrawal : c.MainAddress → ℕ → ℕ → ℕ → Action (Transaction c)
  unfolding select_coins get_new_address
  create_withdrawal main_address amount main_fee fee = do
    coins ← reads (λ s. select_coins s (add64 (add64 amount fee) main_fee))
    a ← get_new_address
    b ← get_new_address
    finish_withdrawal main_address amount main_fee fee coins a b

  -- the rest of `create_transaction`, once the coins and the address are there
  abbrev pub finish_transaction : Address → ℕ → ℕ → Selection → Address → Action (Transaction c)
  finish_transaction address amount fee coins b = pure (record {
    inputs = keys coins.selected;
    outputs =
        record { address = address; content = value amount }
        ∷ record { address = b; content = value (sub64 (sub64 coins.total amount) fee) }
        ∷ [];
  })

  unfoldable pub create_transaction : Address → ℕ → ℕ → Action (Transaction c)
  unfolding select_coins get_new_address
  create_transaction address amount fee = do
    coins ← reads (λ s. select_coins s (add64 amount fee))
    b ← get_new_address
    finish_transaction address amount fee coins b

  unfoldable pub delete_utxos : List OutPoint → Wallet → Wallet
  delete_utxos points s = record s { utxos = delete_all points s.utxos }

  unfoldable pub put_utxos : Table OutPoint (Output c) → Wallet → Wallet
  put_utxos utxos s = record s { utxos = put_all utxos s.utxos }

  unfoldable pub get_balance : Wallet → ℕ
  get_balance s = sum64_from 0 (map (λ e. get_value e.1) s.utxos)

  unfoldable pub get_utxos : Wallet → Table OutPoint (Output c)
  get_utxos s = put_all s.utxos []

  unfoldable pub get_addresses : Wallet → List Address
  get_addresses s = map (λ e. e.1) s.index_to_address

  module _ (codec : Codec c) where
    -- one round of the loop of `authorize`
    unfoldable pub authorize_input :
        Wallet → Transaction c → OutPoint → Result Error (Authorization d)
    unfolding get_keypair
    authorize_input s t input = elim (get input s.utxos) [
      | none ↦ err no_utxo
      | some spent ↦ elim (get spent.address s.address_to_index) [
        | none ↦ err (no_index spent.address)
        | some index ↦ elim (get_keypair s index) [
          | err e ↦ err e
          | ok keypair ↦
              ok (record { public_key = d.public keypair; signature = sign d codec keypair t })
        ]
      ]
    ]

    unfoldable pub authorize_inputs :
        Wallet → Transaction c → List OutPoint → Result Error (List (Authorization d))
    unfolding authorize_input
    authorize_inputs s t [] = ok []
    authorize_inputs s t (i ∷ is) =
        let rest = authorize_inputs s t is in
        elim (authorize_input s t i) [
          | err e ↦ err e
          | ok a ↦ elim rest [ err e ↦ err e | ok others ↦ ok (a ∷ others) ]
        ]

    unfoldable pub authorize :
        Wallet → Transaction c → Result Error (AuthorizedTransaction c (Authorization d))
    unfolding authorize_inputs
    authorize s t = elim (authorize_inputs s t t.inputs) [
      | err e ↦ err e
      | ok authorizations ↦ ok (record { transaction = t; authorizations = authorizations })
    ]

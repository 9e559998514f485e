-- ===== src/Types.antt =====
-- The data of a sidechain: src/types/types.rs, src/types/hashes.rs and src/types/mod.rs.
-- A hash, an address or an identifier is a fixed array of bytes in the program; here it is the
-- number that the array reads as, most significant byte first, since the code only compares it.
-- The sidechain's own types and the external bitcoin types are the fields of `Chain`.
pub mod Blocks
pub mod Filled
pub mod Withdrawals
pub mod Order
pub mod Gather
pub mod Text
pub mod Base58
pub mod Display
use ddk.Prelude.{ℕ, ◌≡◌, Bool, true, false, Option, List, ℕ_discrete}
use ddk.Table.{Key, Table}

-- What a sidechain supplies, and the types of the `bitcoin` crate that the code only passes on.
pub record Chain : Type 1 where
  -- the parameter `C` and its `GetValue`
  pub Custom : Type 0
  pub custom_value : Custom → ℕ
  -- `bitcoin::Address<NetworkUnchecked>`
  pub MainAddress : Type 0
  -- `bitcoin::ScriptBuf`
  pub Script : Type 0

-- `Hash`, `Txid`, `BlockHash`, `MerkleRoot`
abbrev pub Hash : Type 0
Hash = ℕ

abbrev pub Address : Type 0
Address = ℕ

-- `bitcoin::OutPoint`
pub record MainOutPoint : Type 0 where
  pub txid : Hash
  pub vout : ℕ

pub data OutPoint : Type 0 where
  -- created by transactions
  regular : Hash → ℕ → OutPoint
  -- created by block bodies
  coinbase : Hash → ℕ → OutPoint
  -- created by mainchain deposits
  deposit : MainOutPoint → OutPoint

unfoldable pub MainOutPoint-discrete : Discrete MainOutPoint
unfolding ℕ_discrete
MainOutPoint-discrete = hlevel ℕ_discrete

unfoldable pub OutPoint-discrete : Discrete OutPoint
unfolding ℕ_discrete MainOutPoint-discrete
OutPoint-discrete = hlevel (ℕ_discrete, MainOutPoint-discrete)

instance abbrev pub out_point_key : Key OutPoint
out_point_key = record { discrete = OutPoint-discrete }

instance abbrev pub number_key : Key ℕ
number_key = record { discrete = ℕ_discrete }

pub data Content (c : Chain) : Type 0 where
  custom : c.Custom → Content c
  value : ℕ → Content c
  -- value, main_fee, main_address
  withdrawal : ℕ → ℕ → c.MainAddress → Content c

pub record Output (c : Chain) : Type 0 where
  pub address : Address
  pub content : Content c

pub record Transaction (c : Chain) : Type 0 where
  pub inputs : List OutPoint
  pub outputs : List (Output c)

pub record FilledTransaction (c : Chain) : Type 0 where
  pub transaction : Transaction c
  pub spent_utxos : List (Output c)

pub record AuthorizedTransaction (c : Chain) (A : Type 0) : Type 0 where
  pub transaction : Transaction c
  pub authorizations : List A

pub record Body (c : Chain) (A : Type 0) : Type 0 where
  pub coinbase : List (Output c)
  pub transactions : List (Transaction c)
  pub authorizations : List A

pub record Header : Type 0 where
  pub merkle_root : Hash
  pub prev_side_hash : Hash
  pub prev_main_hash : Hash

-- The trait `Verify`, with `GetAddress`; of its result the callers only test `is_err`.
pub record Verify (c : Chain) (A : Type 0) : Type 0 where
  pub get_address : A → Address
  pub verify_transaction : AuthorizedTransaction c A → Bool
  pub verify_body : Body c A → Bool

-- `bincode::serialize` at the types that are hashed or signed, and BLAKE3.
pub record Codec (c : Chain) : Type 0 where
  pub blake3 : List ℕ → Hash
  pub serialize_transaction : Transaction c → List ℕ
  pub serialize_header : Header → List ℕ
  pub serialize_contents : List (Output c) → List (Transaction c) → List ℕ
  pub serialize_out_points : List OutPoint → List ℕ

module _ {c : Chain} where
  unfoldable pub is_custom : Content c → Bool
  is_custom (custom _) = true
  is_custom (value _) = false
  is_custom (withdrawal _ _ _) = false

  unfoldable pub is_value : Content c → Bool
  is_value (custom _) = false
  is_value (value _) = true
  is_value (withdrawal _ _ _) = false

  unfoldable pub is_withdrawal : Content c → Bool
  is_withdrawal (custom _) = false
  is_withdrawal (value _) = false
  is_withdrawal (withdrawal _ _ _) = true

  unfoldable pub content_value : Content c → ℕ
  content_value (custom x) = c.custom_value x
  content_value (value v) = v
  content_value (withdrawal v _ _) = v

  -- `Output::get_value`
  unfoldable pub get_value : Output c → ℕ
  unfolding content_value
  get_value o = content_value o.content

  -- `Transaction::txid`
  unfoldable pub txid : Codec c → Transaction c → Hash
  txid codec t = codec.blake3 (codec.serialize_transaction t)

  -- `Header::hash`
  unfoldable pub header_hash : Codec c → Header → Hash
  header_hash codec h = codec.blake3 (codec.serialize_header h)

  -- `Body::compute_merkle_root`
  unfoldable pub compute_merkle_root : {A : Type 0} → Codec c → Body c A → Hash
  compute_merkle_root codec b = codec.blake3 (codec.serialize_contents b.coinbase b.transactions)

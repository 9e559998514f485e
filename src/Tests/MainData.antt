-- ===== src/Tests/MainData.antt =====
-- A mainchain of two deposits, with codings that copy.
use ddk.Prelude.{
  ℕ, ◌+◌, ◌%◌, ◌==◌, ◌++◌, ◌≡◌, ◌>>=◌, if◌then◌else◌, length, arith, refl, List, [], ◌∷◌, Result,
  ok, err, none, some, replicate,
}
use ddk.Types.Text.{Base58, Check, unchecked, with_check, Text}
use ddk.Types.Base58.{Base58Law}
use ddk.Drivechain.Client
use ddk.Drivechain.Client.{Crates, Main, Block}
use ddk.Drivechain.Calls
use ddk.Tests.Data.{toy_hash}

-- The code of some bytes is a one before them, and a checksum is how many they are.
abbrev decode_after_one : Text → Result ℕ (List ℕ)
decode_after_one [] = err 1
decode_after_one (x ∷ bytes) = ok bytes

abbrev pub checksum : List ℕ → List ℕ
checksum bytes = (length bytes % 256) ∷ []

-- the bytes before a checksum, after so many
abbrev verify : ℕ → List ℕ → Result ℕ (List ℕ)
verify n [] = err 2
verify n (k ∷ []) = if k == n % 256 then ok [] else err 3
verify n (x ∷ y ∷ ys) = elim (verify (n + 1) (y ∷ ys)) [ err e ↦ err e | ok bytes ↦ ok (x ∷ bytes) ]

abbrev encode : Check → List ℕ → Text
encode unchecked bytes = 49 ∷ bytes
encode (with_check _) bytes = 49 ∷ bytes ++ checksum bytes

abbrev decode : Check → Text → Result ℕ (List ℕ)
decode unchecked text = decode_after_one text
decode (with_check _) text = decode_after_one text >>= verify 0

verify-append :
    (n m : ℕ) (bytes : List ℕ)
    → m ≡ n + length bytes
    → verify n (bytes ++ (m % 256) ∷ []) ≡ ok bytes
verify-append n m [] e = ground arith
verify-append n m (x ∷ []) e = ground arith
verify-append n m (x ∷ y ∷ ys) e = rw (verify-append (n + 1) m (y ∷ ys) (omega arith)) refl

abbrev pub base58 : Base58
base58 = record {
  Error = ℕ;
  Alphabet = Unit {0};
  bitcoin = tt;
  encode = λ alphabet. encode;
  decode = λ alphabet. decode;
}

pub base58_law : Base58Law base58
base58_law = record {
  checksum = checksum;
  checksum-IsBytes = λ bytes. (omega arith, tt);
  decode-encode = λ alphabet bytes h. refl;
  encode-with_check = λ alphabet bytes. refl;
  decode-with_check =
      λ alphabet text bytes e. rw e (verify-append 0 (length bytes) bytes (omega arith));
}

-- A transaction is the list of the values of its outputs.
abbrev pub crates : Crates
crates = record {
  Jsonrpsee = ℕ;
  HexError = ℕ;
  EncodeError = ℕ;
  HashError = ℕ;
  Json = Text;
  member = λ json names. some json;
  Float = ℕ;
  hex_encode = λ bytes. bytes;
  hex_decode = λ text. ok text;
  MainTransaction = List ℕ;
  MainAddress = ℕ;
  consensus_encode = λ t. t;
  consensus_decode = λ bytes. ok bytes;
  txid = toy_hash;
  output_values = λ t. t;
  hash_text = λ h. replicate 64 h;
  parse_txid = λ text. ok (toy_hash text);
  base58 = base58;
}

abbrev pub block : Block crates
block = record {
  hash = 4;
  confirmations = 1;
  strippedsize = 0;
  size = 0;
  weight = 0;
  height = 1;
  version = 1;
  version_hex = [];
  merkleroot = 0;
  tx = [];
  time = 0;
  mediantime = 0;
  nonce = 0;
  bits = [];
  difficulty = 0;
  chainwork = [];
  previousblockhash = none;
  nextblockhash = some 5;
}

-- A deposit of 30 to the address 7, and one of 15 to no address.
abbrev pub deposits : List Client.Deposit
deposits =
    record {
      hashblock = 2;
      nburnindex = 0;
      ntx = 0;
      strdest =
          49 ∷ 0 ∷ 0 ∷ 0 ∷ 0 ∷ 0 ∷ 0 ∷ 0 ∷ 0 ∷ 0 ∷ 0 ∷ 0 ∷ 0 ∷ 0 ∷ 0 ∷ 0 ∷ 0 ∷ 0 ∷ 0 ∷ 0 ∷ 7 ∷ 20
          ∷ [];
      txhex = 30 ∷ [];
    }
    ∷ record { hashblock = 3; nburnindex = 1; ntx = 0; strdest = []; txhex = 9 ∷ 45 ∷ [] }
    ∷ []

abbrev pub client : Main crates
client = record {
  stop = err 0;
  listwithdrawalstatus = λ number. ok [];
  getblockcount = ok 3;
  listspentwithdrawals = ok [];
  listfailedwithdrawals = ok [];
  getbestblockhash = ok 5;
  getblock = λ hash verbosity. ok block;
  createbmmcriticaldatatx = λ amount height hash number end. ok (7 ∷ []);
  verifybmm = λ hash critical number. ok [];
  listsidechaindepositsbyblock = λ number end start. ok deposits;
  receivewithdrawalbundle = λ number text. ok [];
  generate = λ number. ok [];
  getnewaddress = λ account type'. ok 1;
  createsidechaindeposit = λ number address amount fee. ok [];
}

abbrev pub drivechain : Calls.Drivechain crates
drivechain = record { sidechain_number = 0; client = client }

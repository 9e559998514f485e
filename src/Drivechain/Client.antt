-- ===== src/Drivechain/Client.antt =====
-- The JSON interface of the mainchain, src/drivechain/client.rs: its answers, and the methods that
-- the sidechain calls. The methods are parameters, each with what it answers at the time of the
-- call, and so are the crates that decode an answer.
use ddk.Prelude.{ℕ, Option, List, Result}
use ddk.Types.{Hash}
use ddk.Types.Text.{Text, Base58}
use ddk.Drivechain.{SpentWithdrawal, FailedWithdrawal}

-- The types and codings of the crates `jsonrpsee`, `serde_json`, `hex` and `bitcoin`.
pub record Crates : Type 1 where
  -- `jsonrpsee::core::Error`, `hex::FromHexError`, `bitcoin::consensus::encode::Error`,
  -- `bitcoin::hashes::hex::Error`
  pub Jsonrpsee : Type 0
  pub HexError : Type 0
  pub EncodeError : Type 0
  pub HashError : Type 0
  -- `serde_json::Value`, and its member by a path of names, if that is a string
  pub Json : Type 0
  pub member : Json → List Text → Option Text
  -- `f64`
  pub Float : Type 0
  pub hex_encode : List ℕ → Text
  pub hex_decode : Text → Result HexError (List ℕ)
  -- `bitcoin::Transaction`, with its id and the values of its outputs
  pub MainTransaction : Type 0
  -- `bitcoin::Address<NetworkUnchecked>`
  pub MainAddress : Type 0
  pub consensus_encode : MainTransaction → List ℕ
  pub consensus_decode : List ℕ → Result EncodeError MainTransaction
  pub txid : MainTransaction → Hash
  pub output_values : MainTransaction → List ℕ
  -- `to_string` of a block hash and `Txid::from_str`
  pub hash_text : Hash → Text
  pub parse_txid : Text → Result HashError Hash
  pub base58 : Base58

pub record WithdrawalStatus : Type 0 where
  pub hash : Hash
  pub nblocksleft : ℕ
  pub nworkscore : ℕ

pub data Vote : Type 0 where
  upvote abstain downvote : Vote

pub record Deposit : Type 0 where
  pub hashblock : Hash
  pub nburnindex : ℕ
  pub ntx : ℕ
  pub strdest : Text
  pub txhex : Text

-- `AmountBtc`, around the satoshis of `bitcoin::Amount`
pub record AmountBtc : Type 0 where
  pub satoshis : ℕ

module _ (x : Crates) where
  pub record Block : Type 0 where
    pub hash : Hash
    pub confirmations : ℕ
    pub strippedsize : ℕ
    pub size : ℕ
    pub weight : ℕ
    pub height : ℕ
    pub version : ℕ
    pub version_hex : Text
    pub merkleroot : Hash
    pub tx : List Hash
    pub time : ℕ
    pub mediantime : ℕ
    pub nonce : ℕ
    pub bits : Text
    pub difficulty : x.Float
    pub chainwork : Text
    pub previousblockhash : Option Hash
    pub nextblockhash : Option Hash

  -- The trait `Main`.
  pub record Main : Type 0 where
    pub stop : Result x.Jsonrpsee Text
    pub listwithdrawalstatus : ℕ → Result x.Jsonrpsee (List WithdrawalStatus)
    pub listspentwithdrawals : Result x.Jsonrpsee (List SpentWithdrawal)
    pub listfailedwithdrawals : Result x.Jsonrpsee (List FailedWithdrawal)
    pub getblockcount : Result x.Jsonrpsee ℕ
    pub getbestblockhash : Result x.Jsonrpsee Hash
    pub getblock : Hash → Option ℕ → Result x.Jsonrpsee Block
    -- amount, height, critical hash, sidechain, end of the previous block's hash
    pub createbmmcriticaldatatx : AmountBtc → ℕ → Hash → ℕ → Text → Result x.Jsonrpsee x.Json
    pub verifybmm : Hash → Hash → ℕ → Result x.Jsonrpsee x.Json
    -- sidechain, last block, first block
    pub listsidechaindepositsbyblock :
        ℕ → Option Hash → Option Hash → Result x.Jsonrpsee (List Deposit)
    pub receivewithdrawalbundle : ℕ → Text → Result x.Jsonrpsee x.Json
    pub generate : ℕ → Result x.Jsonrpsee x.Json
    -- account, address type
    pub getnewaddress : Text → Text → Result x.Jsonrpsee x.MainAddress
    -- sidechain, deposit address, amount, fee
    pub createsidechaindeposit : ℕ → Text → AmountBtc → AmountBtc → Result x.Jsonrpsee x.Json

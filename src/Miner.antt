-- ===== src/Miner.antt =====
-- The miner of src/miner.rs: it asks the mainchain to commit to a block, keeps that block, and
-- hands it out once the commitment is confirmed. An operation has a result, and leaves a miner. A
-- panic of the program is the error `panicked`.
pub mod Runs
pub mod Confirm
use ddk.Prelude.{
  ℕ, ◌-◌, ◌==◌, ltb, if◌then◌else◌, Option, none, some, length, drop, Result, ok, err, ok_or, ◌>>=◌,
  ◌>>◌, map_err, fail_if, not, List, [], ◌∷◌,
}
use ddk.Types.{Chain, Codec, Body, Header, Hash, header_hash, compute_merkle_root}
use ddk.Types.Text.{Text}
use ddk.Drivechain.Client.{Crates}
use ddk.Drivechain.Calls
use ddk.Drivechain.Calls.{verify_bmm}

-- `&text[text.len() - 8..]`
unfoldable pub last_eight : Text → Option Text
last_eight text = if ltb (length text) 8 then none else some (drop (length text - 8) text)

abbrev txid_name : Text
txid_name = 116 ∷ 120 ∷ 105 ∷ 100 ∷ []

module _ (x : Crates) where
  pub data Error : Type 0 where
    drivechain : Calls.Error x → Error
    invalid_json : Error
    panicked : Error

  pub record Miner (c : Chain) (A : Type 0) : Type 0 where
    pub drivechain : Calls.Drivechain x
    pub block : Option (Header × Body c A)
    pub sidechain_number : ℕ

  module _ {c : Chain} {A : Type 0} where
    -- `generate`
    unfoldable pub generate : Miner c A → Result Error (Unit {0})
    generate m = do
      answer ← map_err (λ e. Error.drivechain (Calls.jsonrpsee e)) (m.drivechain.client.generate 1)
      ok tt

    -- the transaction that `attempt_bmm` has the mainchain create, by its id
    unfoldable pub create_bmm : Codec c → Miner c A → ℕ → ℕ → Header → Result Error Hash
    unfolding header_hash last_eight
    create_bmm codec m amount height header = do
      prev_bytes ← ok_or (last_eight (x.hash_text header.prev_main_hash)) Error.panicked
      answer ←
          map_err (λ e. Error.drivechain (Calls.jsonrpsee e))
            (m.drivechain.client.createbmmcriticaldatatx (record { satoshis = amount }) height
              (header_hash codec header) m.sidechain_number prev_bytes)
      text ← ok_or (x.member answer (txid_name ∷ txid_name ∷ [])) Error.invalid_json
      map_err (λ e. Error.drivechain (Calls.bitcoin_hex e)) (x.parse_txid text)

    -- what `attempt_bmm` does before it keeps the block
    unfoldable pub request_bmm :
        Codec c → Miner c A → ℕ → ℕ → Header → Body c A → Result Error (Unit {0})
    unfolding create_bmm compute_merkle_root
    request_bmm codec m amount height header body = do
      txid ← create_bmm codec m amount height header
      fail_if (not (header.merkle_root == compute_merkle_root codec body)) Error.panicked

    -- `attempt_bmm`
    unfoldable pub attempt_bmm :
        Codec c → Miner c A → ℕ → ℕ → Header → Body c A → Result Error (Unit {0}) × Miner c A
    unfolding request_bmm
    attempt_bmm codec m amount height header body =
        elim (request_bmm codec m amount height header body) [
          | err e ↦ (err e, m)
          | ok _ ↦ (ok tt, record m { block = some (header, body) })
        ]

    -- `confirm_bmm`
    unfoldable pub confirm_bmm :
        Codec c → Miner c A → Result Error (Option (Header × Body c A)) × Miner c A
    unfolding verify_bmm
    confirm_bmm codec m = elim m.block [
      | none ↦ (ok none, m)
      | some (header, body) ↦ elim (verify_bmm x codec m.drivechain header) [
        | err e ↦ (err (Error.drivechain e), m)
        | ok _ ↦ (ok (some (header, body)), record m { block = none })
      ]
    ]

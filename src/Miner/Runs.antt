-- ===== src/Miner/Runs.antt =====
-- A miner over any attempts and confirmations, src/miner.rs, and what each of them does.
use ddk.Prelude.{
  ℕ, ◌≡◌, refl, ◌==◌, not, ◌⊎◌, inl, inr, Option, none, some, Option-cases, List, [], ◌∷◌, ◌++◌, ok,
  err, Result-cases, >>=-eq-ok, fail_if-eq-ok, arith,
}
use ddk.Types.{Chain, Codec, Body, Header, compute_merkle_root}
use ddk.Drivechain.Client.{Crates, Main}
use ddk.Drivechain.Calls
use ddk.Drivechain.Calls.{verify_bmm}
use ddk.Miner.{Error, Miner, create_bmm, request_bmm, attempt_bmm, confirm_bmm}

-- An operation, with what the mainchain answers at that time.
pub data Event (x : Crates) (c : Chain) (A : Type 0) : Type 0 where
  -- `attempt_bmm` with amount, height, header and body
  attempt : Main x → ℕ → ℕ → Header → Body c A → Event x c A
  -- `confirm_bmm`
  confirm : Main x → Event x c A

module _ (x : Crates) {c : Chain} {A : Type 0} (codec : Codec c) where
  unfoldable pub ask : Main x → Miner x c A → Miner x c A
  ask client m = record m { drivechain = record m.drivechain { client = client } }

  -- The miner after an operation.
  unfoldable pub handle : Miner x c A → Event x c A → Miner x c A
  unfolding ask
  handle m (attempt client amount height header body) =
      (attempt_bmm x codec (ask client m) amount height header body).1
  handle m (confirm client) = (confirm_bmm x codec (ask client m)).1

  -- The block that an operation keeps, and the one that it hands out.
  unfoldable pub kept : Miner x c A → Event x c A → List (Header × Body c A)
  unfolding ask
  kept m (attempt client amount height header body) =
      elim (attempt_bmm x codec (ask client m) amount height header body).0 [
        | ok _ ↦ (header, body) ∷ []
        | err _ ↦ []
      ]
  kept m (confirm client) = []

  unfoldable pub handed_out : Miner x c A → Event x c A → List (Header × Body c A)
  unfolding ask
  handed_out m (attempt client amount height header body) = []
  handed_out m (confirm client) = elim (confirm_bmm x codec (ask client m)).0 [
    | ok found ↦ elim found [ none ↦ [] | some block ↦ block ∷ [] ]
    | err _ ↦ []
  ]

  -- The blocks that the attempts of a run kept, and those that its confirmations handed out.
  unfoldable pub attempted : Miner x c A → List (Event x c A) → List (Header × Body c A)
  unfolding kept handle
  attempted m [] = []
  attempted m (e ∷ es) = kept m e ++ attempted (handle m e) es

  unfoldable pub confirmed : Miner x c A → List (Event x c A) → List (Header × Body c A)
  unfolding handed_out handle
  confirmed m [] = []
  confirmed m (e ∷ es) = handed_out m e ++ confirmed (handle m e) es

  abbrev pub at_hand : Option (Header × Body c A) → List (Header × Body c A)
  at_hand none = []
  at_hand (some block) = block ∷ []

  abbrev pub pending : Miner x c A → List (Header × Body c A)
  pending m = at_hand m.block

  -- The header commits to the body.
  abbrev pub IsCommitted : Header × Body c A → Type 0
  IsCommitted block = block.0.merkle_root ≡ compute_merkle_root codec block.1

  pub attempt_bmm-cases :
      (m : Miner x c A) (amount height : ℕ) (header : Header) (body : Body c A)
      → ((attempt_bmm x codec m amount height header body
            ≡ (ok tt, record m { block = some (header, body) }))
          × IsCommitted (header, body))
        ⊎ ((e : Error x) × (attempt_bmm x codec m amount height header body ≡ (err e, m)))
  unfolding attempt_bmm request_bmm
  attempt_bmm-cases m amount height header body =
      elim (Result-cases (request_bmm x codec m amount height header body)) [
        | inr (e, failed) ↦ inr (e, rw (failed, attempt_bmm) refl)
        | inl (u, sent) ↦
            let (txid, e, r) = >>=-eq-ok (create_bmm x codec m amount height header) _ sent in
            let same =
              fail_if-eq-ok (not (header.merkle_root == compute_merkle_root codec body))
                Error.panicked r in
            inl (rw (sent, attempt_bmm) refl, ground (arith, same))
      ]

  -- With no block at hand, `confirm_bmm` hands out none; else it hands out the block and drops it
  -- if the mainchain verifies its header, and otherwise fails and keeps it.
  pub confirm_bmm-cases :
      (m : Miner x c A)
      → ((m.block ≡ none) × (confirm_bmm x codec m ≡ (ok none, m)))
        ⊎ ((block : Header × Body c A) × (m.block ≡ some block)
            × (((verify_bmm x codec m.drivechain block.0 ≡ ok tt)
                  × (confirm_bmm x codec m ≡ (ok (some block), record m { block = none })))
                ⊎ ((e : Calls.Error x) × (verify_bmm x codec m.drivechain block.0 ≡ err e)
                    × (confirm_bmm x codec m ≡ (err (Error.drivechain e), m)))))
  unfolding confirm_bmm
  confirm_bmm-cases m = elim (Option-cases m.block) [
    | inl empty ↦ inl (empty, rw empty refl)
    | inr (block, full) ↦ inr (
      block,
      full,
      elim (Result-cases (verify_bmm x codec m.drivechain block.0)) [
        | inl (u, verified) ↦ inl (verified, ground arith)
        | inr (e, refused) ↦ inr (e, refused, ground arith)
      ],
    )
  ]

-- ===== src/Authorization/Unsigned.antt =====
-- Blocks without authorizations.
use ddk.Prelude.{ℕ, ◌≤◌, ◌<◌, ◌≡◌, refl, ◌∙◌, Bool, some, [], ok, arith, u64_mod}
use ddk.Table.{get}
use ddk.Types.{Chain, Codec, Body, OutPoint, Output, Address, get_value, out_point_key}
use ddk.State.{State, validate_body}
use ddk.State.Owners.{theft, validate_body-theft}
use ddk.Authorization.{Dalek, Authorization, Signed, verify_trait, verify_authorizations}
use ddk.Authorization.Packages.{BatchLaw}
use ddk.Authorization.Batch.{verify_authorizations_lem}

module _ (d : Dalek) {c : Chain} (codec : Codec c) where
  -- A body with no authorization verifies.
  verify_authorizations-none :
      (valid : Signed d → Bool)
      → BatchLaw d valid
      → (threads : ℕ) (b : Body c (Authorization d)) → 1 ≤ threads
      → b.authorizations ≡ []
      → verify_authorizations d codec threads b ≡ ok tt
  verify_authorizations-none valid law threads b h none_given =
      verify_authorizations_lem d codec valid law threads b h ∙ rw none_given (ground arith)

  -- If batches are verified signature by signature, then a block that moves any unspent output to
  -- any other address, with no authorization at all, is accepted by `validate_body` with the
  -- signature check of the program.
  pub validate_body-unauthorized :
      (valid : Signed d → Bool)
      → BatchLaw d valid
      → (threads : ℕ) (s : State c) (i : OutPoint) (o : Output c) (thief : Address) → 1 ≤ threads
      → get i s.utxos ≡ some o
      → get_value o < u64_mod
      → let verify = verify_trait d codec threads in
        validate_body verify s (theft verify i (record o { address = thief })) ≡ ok 0
  validate_body-unauthorized valid law threads s i o thief h found fits =
      let verify = verify_trait d codec threads in
      let body = theft verify i (record o { address = thief }) in
      let unsigned = verify_authorizations-none valid law threads body h refl in
      validate_body-theft verify s i o thief found fits (ground (arith, unsigned))

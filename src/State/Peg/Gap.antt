-- ===== src/State/Peg/Gap.antt =====
-- When `connect_two_way_peg_data` makes a bundle: never beside a pending one, and not within the
-- gap after a failure.
use ddk.Prelude.{
  ℕ, ◌+◌, ◌≤◌, ◌<◌, ◌≡◌, refl, ap, ◌∙◌, none, some, List, [], ◌∷◌, inl, inr, ◌⊎◌, ok, arith,
  u32_mod,
}
use ddk.Types.{Chain, Codec, Hash, out_point_key}
use ddk.Types.Withdrawals.{WithdrawalBundle, WithdrawalBundleStatus, TwoWayPegData}
use ddk.State.{State}
use ddk.State.Bundle.{Bitcoin}
use ddk.State.Peg.{
  connect_deposits, may_collect, connect_withdrawals, connect_status, connect_statuses,
  connect_two_way_peg_data, withdrawal_bundle_failure_gap,
}
use ddk.State.Peg.Refund.{connect_status-Reported}

module _ {c : Chain} (btc : Bitcoin c) where
  -- Reports make no bundle: what is pending afterwards was pending before.
  connect_statuses-pending :
      (l : List (Hash × WithdrawalBundleStatus)) (s : State c) (height : ℕ)
      → ((connect_statuses btc l s height).pending_withdrawal_bundle ≡ none)
        ⊎ ((connect_statuses btc l s height).pending_withdrawal_bundle
            ≡ s.pending_withdrawal_bundle)
  unfolding connect_statuses
  connect_statuses-pending [] s height = inr refl
  connect_statuses-pending ((txid, status) ∷ l) s height =
      elim (connect_statuses-pending l (connect_status btc txid status s height) height) [
        | inl idle ↦ inl idle
        | inr kept ↦ elim (connect_status-Reported btc txid status s height) [
          | inl (_, same) ↦ inr (kept ∙ ap (λ (t : State c). t.pending_withdrawal_bundle) same)
          | inr (inl (_, _, _, same)) ↦
              inr (kept ∙ ap (λ (t : State c). t.pending_withdrawal_bundle) same)
          | inr (inr (_, _, _, idle, _, _)) ↦ inl (kept ∙ idle)
        ]
      ]

  -- While a bundle is pending, no other takes its place: afterwards it is still that one, or none.
  pub connect_two_way_peg_data-pending :
      (codec : Codec c) (s s' : State c) (data' : TwoWayPegData c) (height : ℕ)
      (b : WithdrawalBundle c)
      → s.pending_withdrawal_bundle ≡ some b
      → connect_two_way_peg_data btc codec s data' height ≡ ok s'
      → (s'.pending_withdrawal_bundle ≡ none) ⊎ (s'.pending_withdrawal_bundle ≡ some b)
  unfolding connect_two_way_peg_data connect_withdrawals may_collect connect_deposits
  connect_two_way_peg_data-pending codec s s' data' height b pending h =
      ground
        (arith, connect_statuses-pending data'.bundle_statuses (connect_deposits data' s) height)

  -- Within the four blocks after a failure no bundle is made: if none is pending before a block
  -- at most four above the failure, none is pending after it.
  pub connect_two_way_peg_data-gap :
      (codec : Codec c) (s s' : State c) (data' : TwoWayPegData c) (height failure : ℕ)
      → s.pending_withdrawal_bundle ≡ none
      → s.last_withdrawal_bundle_failure_height ≡ some failure
      → failure ≤ height + 1
      → height + 1 ≤ failure + withdrawal_bundle_failure_gap
      → height + 1 < u32_mod
      → connect_two_way_peg_data btc codec s data' height ≡ ok s'
      → s'.pending_withdrawal_bundle ≡ none
  unfolding connect_two_way_peg_data connect_withdrawals may_collect connect_deposits
  connect_two_way_peg_data-gap codec s s' data' height failure idle noted low high fits h =
      ground
        (arith, connect_statuses-pending data'.bundle_statuses (connect_deposits data' s) height)

-- ===== src/State/Peg/Refund.antt =====
-- A failed bundle gives its outputs back, a confirmed one does not, and reports on other bundles
-- change nothing.
use ddk.Prelude.{
  ℕ, ◌≡◌, ◌≢◌, refl, none, some, List, [], ◌∷◌, true, Bool-cases, inl, inr, ◌⊎◌, if◌then◌else◌,
  ◌==◌, ok, arith, add32, All, Option-cases,
}
use ddk.Table.{Table, get, put, put_all, delete_all, keys}
use ddk.Table.Laws.{get-put}
use ddk.Types.{Chain, Codec, OutPoint, Hash, out_point_key}
use ddk.Types.Withdrawals.{WithdrawalBundle, WithdrawalBundleStatus, failed, confirmed}
use ddk.State.{State, contains}
use ddk.State.Effect.{overlay, get-put_all, get-delete_all}
use ddk.State.Bundle.{Bitcoin, collect_withdrawal_bundle}
use ddk.State.Bundle.Weight.{SortLaw}
use ddk.State.Bundle.Sound.{IsTable, collect_withdrawal_bundle-spends}
use ddk.State.Peg.{adopt, settle, connect_status}

-- Putting back entries that stood in a table, after their keys were deleted, restores the table.
get-put_back :
    {V : Type 0} (k : OutPoint) (l : Table OutPoint V) (t u : Table OutPoint V)
    → All (λ e. get e.0 t ≡ some e.1) l
    → get k (put_all l u) ≡ (if contains k (keys l) then get k t else get k u)
unfolding put_all contains
get-put_back k [] t u h = refl
get-put_back k ((j, v) ∷ l) t u h =
    ground (arith, get-put_back k l t (put j v u) h.1, get-put k j v u, h.0)

pub All-first :
    {V : Type 0} (P Q : OutPoint × V → Type 0) (l : List (OutPoint × V))
    → All (λ e. P e × Q e) l
    → All P l
All-first P Q [] h = tt
All-first P Q (e ∷ l) h = (h.0.0, All-first P Q l h.1)

module _ {c : Chain} (btc : Bitcoin c) where
  -- If sorting permutes, a bundle is collected from a table of unspent outputs and adopted, and
  -- the mainchain reports that it failed, then the unspent outputs are those from before, under
  -- every outpoint; no bundle is pending and the height of the failure is noted.
  pub adopt-settle_failed :
      SortLaw btc
      → (codec : Codec c) (s : State c) (height : ℕ) {bundle : WithdrawalBundle c} → IsTable s.utxos
      → collect_withdrawal_bundle btc codec s.utxos height ≡ ok (some bundle)
      → (h : ℕ) (k : OutPoint)
      → let s' = settle btc failed bundle (adopt btc s (some bundle)) h in
        (get k s'.utxos ≡ get k s.utxos)
        × (s'.pending_withdrawal_bundle ≡ none)
        × (s'.last_withdrawal_bundle_failure_height ≡ some (add32 h 1))
  unfolding adopt settle
  adopt-settle_failed sorts codec s height {bundle} table collected h k =
      let spends =
        collect_withdrawal_bundle-spends btc sorts codec s.utxos height table collected in
      let present = All-first _ _ bundle.spent_utxos spends in
      (
        ground (
          arith,
          get-put_back k bundle.spent_utxos s.utxos (delete_all (keys bundle.spent_utxos) s.utxos)
              present,
          get-delete_all k (keys bundle.spent_utxos) s.utxos,
        ),
        refl,
        refl,
      )

  -- What a report does to the state, by the pending bundle and the bundle that it is about.
  abbrev pub Reported : Hash → WithdrawalBundleStatus → State c → ℕ → State c → Type 0
  Reported txid status s height s' =
      ((s.pending_withdrawal_bundle ≡ none) × (s' ≡ s))
      ⊎ ((b : WithdrawalBundle c) × (s.pending_withdrawal_bundle ≡ some b)
          × (btc.main_txid b.transaction ≢ txid)
          × (s' ≡ s))
      ⊎ ((b : WithdrawalBundle c) × (s.pending_withdrawal_bundle ≡ some b)
          × (btc.main_txid b.transaction ≡ txid)
          × (s'.pending_withdrawal_bundle ≡ none)
          × (s'.last_deposit_block ≡ s.last_deposit_block)
          × (((status ≡ failed)
                × (s'.last_withdrawal_bundle_failure_height ≡ some (add32 height 1))
                × ((k : OutPoint)
                    → get k s'.utxos ≡ overlay (get k (put_all b.spent_utxos [])) (get k s.utxos)))
              ⊎ ((status ≡ confirmed)
                  × (s'.last_withdrawal_bundle_failure_height
                      ≡ s.last_withdrawal_bundle_failure_height)
                  × (s'.utxos ≡ s.utxos))))

  settle-parts :
      (status : WithdrawalBundleStatus) (b : WithdrawalBundle c) (s : State c) (height : ℕ)
      → let s' = settle btc status b s height in
        (s'.pending_withdrawal_bundle ≡ none)
        × (s'.last_deposit_block ≡ s.last_deposit_block)
        × (((status ≡ failed)
              × (s'.last_withdrawal_bundle_failure_height ≡ some (add32 height 1))
              × ((k : OutPoint)
                  → get k s'.utxos ≡ overlay (get k (put_all b.spent_utxos [])) (get k s.utxos)))
            ⊎ ((status ≡ confirmed)
                × (s'.last_withdrawal_bundle_failure_height
                    ≡ s.last_withdrawal_bundle_failure_height)
                × (s'.utxos ≡ s.utxos)))
  unfolding settle
  settle-parts failed b s height =
      (refl, refl, inl (refl, refl, λ k. get-put_all k b.spent_utxos s.utxos))
  settle-parts confirmed b s height = (refl, refl, inr (refl, refl, refl))

  pub connect_status-settle :
      (txid : Hash) (status : WithdrawalBundleStatus) (s : State c) (height : ℕ)
      (b : WithdrawalBundle c)
      → s.pending_withdrawal_bundle ≡ some b
      → (btc.main_txid b.transaction == txid) ≡ true
      → connect_status btc txid status s height ≡ settle btc status b s height
  unfolding connect_status
  connect_status-settle txid status s height b pending same = ground arith

  -- A report changes the state only if it names the pending bundle, which then is pending no
  -- more: a failed bundle's outputs are unspent again and the height is noted, and a confirmed
  -- one leaves the unspent outputs and the noted height as they are.
  pub connect_status-Reported :
      (txid : Hash) (status : WithdrawalBundleStatus) (s : State c) (height : ℕ)
      → Reported txid status s height (connect_status btc txid status s height)
  unfolding connect_status
  connect_status-Reported txid status s height = elim (Option-cases s.pending_withdrawal_bundle) [
    | inl idle ↦ inl (idle, ground arith)
    | inr (b, pending) ↦ elim (Bool-cases (btc.main_txid b.transaction == txid)) [
      | inl same ↦
          let hit = connect_status-settle txid status s height b pending same in
          let (idle, deposits, outcome) = settle-parts status b s height in
          inr (inr (b, pending, ground arith, rw hit idle, rw hit deposits, rw hit outcome))
      | inr other ↦ inr (inl (b, pending, ground arith, ground arith))
    ]
  ]

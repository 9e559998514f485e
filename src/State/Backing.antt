-- ===== src/State/Backing.antt =====
-- Coins move between the unspent outputs and the pending withdrawal bundle, and the two-way peg
-- adds none but deposits.
use ddk.Prelude.{
  ℕ, ◌+◌, ◌≤◌, ◌≡◌, sym, ap, Bool-cases, inl, inr, Option, none, some, List, [], ◌∷◌, length, ltb,
  arith, ok, add32, >>=-eq-ok, Option-cases, true, ◌==◌,
}
use ddk.Table.{Table, delete_all, keys}
use ddk.Table.Moves.{total-delete_entries, total-put_all-le}
use ddk.Table.Unique.{UniqueKeys, put_all-UniqueKeys, delete_all-UniqueKeys, UniqueKeys-get}
use ddk.Types.{Chain, Codec, OutPoint, Output, Hash, get_value, out_point_key}
use ddk.Types.Withdrawals.{
  WithdrawalBundle, WithdrawalBundleStatus, failed, confirmed, AggregatedWithdrawal, TwoWayPegData,
}
use ddk.State.{State}
use ddk.State.Supply.{supply}
use ddk.State.Bundle.{
  Bitcoin, Parts, no_parts, max_bundle_outputs, Destinations, fill_parts, served, aggregate,
  bundle_of, collect_withdrawal_bundle,
}
use ddk.State.Bundle.Weight.{SortLaw}
use ddk.State.Peg.Refund.{All-first, connect_status-settle}
use ddk.State.Bundle.Sound.{collect_withdrawal_bundle-spends}
use ddk.State.Peg.{
  connect_deposits, adopt, may_collect, connect_withdrawals, settle, connect_status,
  connect_statuses, connect_two_way_peg_data,
}
use mathlib.Core.Path.{subst}

module _ {c : Chain} where
  -- The value in the pending bundle, and that of all coins.
  abbrev pub held : Option (WithdrawalBundle c) → ℕ
  held none = 0
  held (some bundle) = supply bundle.spent_utxos

  abbrev pub backing : State c → ℕ
  backing s = supply s.utxos + held s.pending_withdrawal_bundle

  module _ (btc : Bitcoin c) where
    fill_parts-UniqueKeys :
        (list : List (AggregatedWithdrawal c)) (parts : Parts c)
        → UniqueKeys parts.spent_utxos
        → UniqueKeys (fill_parts btc list parts).spent_utxos
    unfolding fill_parts
    fill_parts-UniqueKeys [] parts u = u
    fill_parts-UniqueKeys (a ∷ rest) parts u =
        elim (Bool-cases (ltb (max_bundle_outputs btc) (length parts.bundle_outputs))) [
          | inl full ↦ rw full u
          | inr room ↦
              rw room (
                fill_parts-UniqueKeys rest _ (put_all-UniqueKeys a.spent_utxos parts.spent_utxos u))
        ]

    bundle_of-UniqueKeys :
        (codec : Codec c) (m : Destinations btc) (height : ℕ) {bundle : WithdrawalBundle c}
        → bundle_of btc codec m height ≡ ok (some bundle)
        → UniqueKeys bundle.spent_utxos
    unfolding bundle_of
    bundle_of-UniqueKeys codec [] height {bundle} h = absurd (ground arith)
    bundle_of-UniqueKeys codec (e ∷ m) height {bundle} h =
        let parts = fill_parts btc (served btc (e ∷ m)) (no_parts btc) in
        let same : parts.spent_utxos ≡ bundle.spent_utxos = ground arith in
        subst (λ (x : Table OutPoint (Output c)). UniqueKeys x) same
          (fill_parts-UniqueKeys (served btc (e ∷ m)) (no_parts btc) tt)

    -- What a bundle takes leaves the unspent outputs.
    pub supply-adopt :
        SortLaw btc
        → (codec : Codec c) (utxos : Table OutPoint (Output c)) (height : ℕ)
          {bundle : WithdrawalBundle c}
        → UniqueKeys utxos
        → collect_withdrawal_bundle btc codec utxos height ≡ ok (some bundle)
        → supply (delete_all (keys bundle.spent_utxos) utxos) + supply bundle.spent_utxos
          ≤ supply utxos
    unfolding collect_withdrawal_bundle
    supply-adopt sorts codec utxos height {bundle} u h =
        let spends =
          collect_withdrawal_bundle-spends btc sorts codec utxos height (UniqueKeys-get utxos u)
            h in
        total-delete_entries get_value bundle.spent_utxos utxos
          (bundle_of-UniqueKeys codec (aggregate btc utxos []) height h)
          (All-first _ _ bundle.spent_utxos spends)

    -- From one state to the next no value is added, and outpoints stay unique.
    abbrev NoGain : State c → State c → Type 0
    NoGain s s' = (backing s' ≤ backing s) × UniqueKeys s'.utxos

    adopt-NoGain :
        SortLaw btc
        → (codec : Codec c) (s : State c) (height : ℕ) (found : Option (WithdrawalBundle c))
        → UniqueKeys s.utxos
        → s.pending_withdrawal_bundle ≡ none
        → collect_withdrawal_bundle btc codec s.utxos height ≡ ok found
        → NoGain s (adopt btc s found)
    unfolding adopt
    adopt-NoGain sorts codec s height none u idle h = (omega arith, u)
    adopt-NoGain sorts codec s height (some bundle) u idle h =
        let idle_held : held s.pending_withdrawal_bundle ≡ 0 = ap held idle in
        let moved = supply-adopt sorts codec s.utxos height u h in
        (omega arith, delete_all-UniqueKeys (keys bundle.spent_utxos) s.utxos u)

    may_collect-idle :
        (s : State c) (height : ℕ)
        → may_collect btc s height ≡ true
        → s.pending_withdrawal_bundle ≡ none
    unfolding may_collect
    may_collect-idle s height h = elim (Option-cases s.pending_withdrawal_bundle) [
      | inl idle ↦ idle
      | inr (b, pending) ↦ absurd (ground arith)
    ]

    connect_withdrawals-NoGain :
        SortLaw btc
        → (codec : Codec c) (s s' : State c) (height : ℕ) → UniqueKeys s.utxos
        → connect_withdrawals btc codec s height ≡ ok s'
        → NoGain s s'
    unfolding connect_withdrawals
    connect_withdrawals-NoGain sorts codec s s' height u h =
        elim (Bool-cases (may_collect btc s height)) [
          | inl may ↦
              let (found, e, r) =
                >>=-eq-ok (collect_withdrawal_bundle btc codec s.utxos (add32 height 1)) _
                  (rw may at h) in
              let same : adopt btc s found ≡ s' = ground arith in
              subst (NoGain s) same (
                adopt-NoGain sorts codec s (add32 height 1) found u (may_collect-idle s height may)
                  e)
          | inr may_not ↦ let same : s ≡ s' = ground arith in subst (NoGain s) same (omega arith, u)
        ]

    settle-NoGain :
        (status : WithdrawalBundleStatus) (b : WithdrawalBundle c) (s : State c) (height : ℕ)
        → UniqueKeys s.utxos
        → s.pending_withdrawal_bundle ≡ some b
        → NoGain s (settle btc status b s height)
    unfolding settle
    settle-NoGain failed b s height u pending =
        let was_held : held s.pending_withdrawal_bundle ≡ supply b.spent_utxos = ap held pending in
        let back = total-put_all-le get_value b.spent_utxos s.utxos in
        (omega arith, put_all-UniqueKeys b.spent_utxos s.utxos u)
    settle-NoGain confirmed b s height u pending = (omega arith, u)

    connect_status-NoGain :
        (txid : Hash) (status : WithdrawalBundleStatus) (s : State c) (height : ℕ)
        → UniqueKeys s.utxos
        → NoGain s (connect_status btc txid status s height)
    unfolding connect_status
    connect_status-NoGain txid status s height u = elim (Option-cases s.pending_withdrawal_bundle) [
      | inl idle ↦
          let same : s ≡ connect_status btc txid status s height = ground arith in
          subst (NoGain s) same (omega arith, u)
      | inr (b, pending) ↦ elim (Bool-cases (btc.main_txid b.transaction == txid)) [
        | inl hit ↦
            subst (NoGain s) (sym (connect_status-settle btc txid status s height b pending hit))
              (settle-NoGain status b s height u pending)
        | inr other ↦
            let same : s ≡ connect_status btc txid status s height = ground arith in
            subst (NoGain s) same (omega arith, u)
      ]
    ]

    connect_statuses-NoGain :
        (reports : List (Hash × WithdrawalBundleStatus)) (s : State c) (height : ℕ)
        → UniqueKeys s.utxos
        → NoGain s (connect_statuses btc reports s height)
    unfolding connect_statuses
    connect_statuses-NoGain [] s height u = (omega arith, u)
    connect_statuses-NoGain ((txid, status) ∷ rest) s height u =
        let (less, u') = connect_status-NoGain txid status s height u in
        let (lesser, u'') =
          connect_statuses-NoGain rest (connect_status btc txid status s height) height u' in
        (omega arith, u'')

    -- If sorting permutes and outpoints are unique, the two-way peg adds at most the value of the
    -- deposits to the unspent outputs and the pending bundle together, and outpoints stay unique.
    pub connect_two_way_peg_data-backing :
        SortLaw btc
        → (codec : Codec c) (s s' : State c) (data' : TwoWayPegData c) (height : ℕ)
        → UniqueKeys s.utxos
        → connect_two_way_peg_data btc codec s data' height ≡ ok s'
        → (backing s' ≤ backing s + supply data'.deposits) × UniqueKeys s'.utxos
    unfolding connect_two_way_peg_data connect_deposits
    connect_two_way_peg_data-backing sorts codec s s' data' height u h =
        let credited = connect_deposits data' s in
        let (s1, e, r) = >>=-eq-ok (connect_withdrawals btc codec credited height) _ h in
        let more = total-put_all-le get_value data'.deposits s.utxos in
        let (less, u1) =
          connect_withdrawals-NoGain sorts codec credited s1 height
            (put_all-UniqueKeys data'.deposits s.utxos u) e in
        let (lesser, u2) = connect_statuses-NoGain data'.bundle_statuses s1 height u1 in
        let same : connect_statuses btc data'.bundle_statuses s1 height ≡ s' = ground arith in
        subst
          (λ (x : State c). (backing x ≤ backing s + supply data'.deposits) × UniqueKeys x.utxos)
          same (omega arith, u2)

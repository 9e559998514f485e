-- ===== src/Miner/Confirm.antt =====
-- What a miner hands out over its life: src/miner.rs.
use ddk.Prelude.{
  ℕ, ◌≡◌, refl, sym, ap, ◌⊎◌, inl, inr, none, Option-cases, List, [], ◌∷◌, ◌++◌, All, ok,
}
use mathlib.Core.Path.{subst}
use mathlib.Core.List.{Sublistᴰ}
use ddk.Types.{Chain, Codec, Body, Header}
use ddk.Drivechain.Client.{Crates, Main}
use ddk.Drivechain.Calls.{verify_bmm}
use ddk.Miner.{Miner}
use ddk.Miner.Runs.{
  Event, attempt, confirm, ask, handle, kept, handed_out, attempted, confirmed, at_hand, pending,
  IsCommitted, attempt_bmm-cases, confirm_bmm-cases,
}

module _ (x : Crates) {c : Chain} {A : Type 0} (codec : Codec c) where
  weaken :
      (m : Miner x c A) {cs ts : List (Header × Body c A)}
      → Sublistᴰ cs ts
      → Sublistᴰ cs (pending x codec m ++ ts)
  weaken m {cs} {ts} sub = elim (Option-cases m.block) [
    | inl empty ↦ rw empty sub
    | inr (block, full) ↦ rw full (Sublistᴰ.cons sub)
  ]

  step-Sublist :
      (m : Miner x c A) (e : Event x c A) (cs ts : List (Header × Body c A))
      → Sublistᴰ cs (pending x codec (handle x codec m e) ++ ts)
      → Sublistᴰ (handed_out x codec m e ++ cs) (pending x codec m ++ (kept x codec m e ++ ts))
  unfolding handle handed_out kept
  step-Sublist m (attempt client amount height header body) cs ts sub =
      elim (attempt_bmm-cases x codec (ask x codec client m) amount height header body) [
        | inl (sent, same) ↦ rw (sent, kept, handed_out) (weaken m (rw (sent, handle) at sub))
        | inr (e, failed) ↦ rw (failed, kept, handed_out) (rw (failed, handle) at sub)
      ]
  step-Sublist m (confirm client) cs ts sub =
      elim (confirm_bmm-cases x codec (ask x codec client m)) [
        | inl (empty, e) ↦ rw (e, empty, kept, handed_out) (rw (e, empty, handle) at sub)
        | inr (block, full, inl (verified, e)) ↦
            rw (e, full, kept, handed_out) (Sublistᴰ.cons-cons refl (rw (e, handle) at sub))
        | inr (block, full, inr (failure, refused, e)) ↦
            rw (e, kept, handed_out) (rw (e, handle) at sub)
      ]

  confirmed-pending :
      (m : Miner x c A) (es : List (Event x c A))
      → Sublistᴰ (confirmed x codec m es) (pending x codec m ++ attempted x codec m es)
  unfolding confirmed attempted
  confirmed-pending m [] = weaken m Sublistᴰ.slnil
  confirmed-pending m (e ∷ es) =
      step-Sublist m e (confirmed x codec (handle x codec m e) es)
        (attempted x codec (handle x codec m e) es) (confirmed-pending (handle x codec m e) es)

  kept-IsCommitted :
      (m : Miner x c A) (e : Event x c A) (ts : List (Header × Body c A))
      → All (IsCommitted x codec) ts
      → All (IsCommitted x codec) (kept x codec m e ++ ts)
  unfolding kept
  kept-IsCommitted m (attempt client amount height header body) ts h =
      elim (attempt_bmm-cases x codec (ask x codec client m) amount height header body) [
        | inl (sent, same) ↦ rw (sent, kept) (same, h)
        | inr (e, failed) ↦ rw (failed, kept) h
      ]
  kept-IsCommitted m (confirm client) ts h = h

  attempted-IsCommitted :
      (m : Miner x c A) (es : List (Event x c A))
      → All (IsCommitted x codec) (attempted x codec m es)
  unfolding attempted
  attempted-IsCommitted m [] = tt
  attempted-IsCommitted m (e ∷ es) =
      kept-IsCommitted m e (attempted x codec (handle x codec m e) es)
        (attempted-IsCommitted (handle x codec m e) es)

  Sublist-All :
      (P : Header × Body c A → Type 0) {cs ts : List (Header × Body c A)}
      → Sublistᴰ cs ts
      → All P ts
      → All P cs
  Sublist-All P Sublistᴰ.slnil h = tt
  Sublist-All P (Sublistᴰ.cons sub) h = Sublist-All P sub h.1
  Sublist-All P (Sublistᴰ.cons-cons same sub) h = (subst P (sym same) h.0, Sublist-All P sub h.1)

  -- One of the confirmations has the header verified by the mainchain.
  abbrev pub VerifiedIn : ℕ → List (Event x c A) → Header × Body c A → Type 0
  VerifiedIn number [] block = ⊥
  VerifiedIn number (attempt client amount height header body ∷ es) block =
      VerifiedIn number es block
  VerifiedIn number (confirm client ∷ es) block =
      (verify_bmm x codec (record { sidechain_number = number; client = client }) block.0 ≡ ok tt)
      ⊎ VerifiedIn number es block

  handle-sidechain_number :
      (m : Miner x c A) (e : Event x c A)
      → (handle x codec m e).drivechain.sidechain_number ≡ m.drivechain.sidechain_number
  unfolding handle
  handle-sidechain_number m (attempt client amount height header body) =
      elim (attempt_bmm-cases x codec (ask x codec client m) amount height header body) [
        | inl (sent, same) ↦ rw (sent, handle) refl
        | inr (e, failed) ↦ rw (failed, handle) refl
      ]
  handle-sidechain_number m (confirm client) =
      elim (confirm_bmm-cases x codec (ask x codec client m)) [
        | inl (empty, e) ↦ rw (e, handle) refl
        | inr (block, full, inl (verified, e)) ↦ rw (e, handle) refl
        | inr (block, full, inr (failure, refused, e)) ↦ rw (e, handle) refl
      ]

  later-VerifiedIn :
      (number : ℕ) (client : Main x) (es : List (Event x c A)) (blocks : List (Header × Body c A))
      → All (VerifiedIn number es) blocks
      → All (VerifiedIn number (confirm client ∷ es)) blocks
  later-VerifiedIn number client es [] h = tt
  later-VerifiedIn number client es (block ∷ blocks) h =
      (inr h.0, later-VerifiedIn number client es blocks h.1)

  confirmed-VerifiedIn :
      (m : Miner x c A) (es : List (Event x c A))
      → All (VerifiedIn m.drivechain.sidechain_number es) (confirmed x codec m es)
  unfolding confirmed handed_out
  confirmed-VerifiedIn m [] = tt
  confirmed-VerifiedIn m (attempt client amount height header body ∷ es) =
      let e = attempt client amount height header body in
      subst (λ (k : ℕ). All (VerifiedIn k es) (confirmed x codec (handle x codec m e) es))
        (handle-sidechain_number m e) (confirmed-VerifiedIn (handle x codec m e) es)
  confirmed-VerifiedIn m (confirm client ∷ es) =
      let number = m.drivechain.sidechain_number in
      let rest =
        later-VerifiedIn number client es (confirmed x codec (handle x codec m (confirm client)) es)
          (subst
            (λ (k : ℕ).
              All (VerifiedIn k es) (confirmed x codec (handle x codec m (confirm client)) es))
            (handle-sidechain_number m (confirm client))
            (confirmed-VerifiedIn (handle x codec m (confirm client)) es)) in
      elim (confirm_bmm-cases x codec (ask x codec client m)) [
        | inl (empty, e) ↦ rw (e, handed_out) rest
        | inr (block, full, inl (verified, e)) ↦ rw (e, handed_out) (inl verified, rest)
        | inr (block, full, inr (failure, refused, e)) ↦ rw (e, handed_out) rest
      ]

  -- A miner that starts with no block hands out, over any attempts and confirmations, only blocks
  -- that its attempts kept, each at most once and in their order; each header commits to its body,
  -- and the mainchain verified it in one of the confirmations.
  pub confirmed-attempted :
      (m : Miner x c A) (es : List (Event x c A))
      → m.block ≡ none
      → Sublistᴰ (confirmed x codec m es) (attempted x codec m es)
        × All (IsCommitted x codec) (confirmed x codec m es)
        × All (VerifiedIn m.drivechain.sidechain_number es) (confirmed x codec m es)
  confirmed-attempted m es empty =
      let sub : Sublistᴰ (confirmed x codec m es) (attempted x codec m es) =
        subst
          (λ (ps : List (Header × Body c A)).
            Sublistᴰ (confirmed x codec m es) (ps ++ attempted x codec m es))
          (ap (at_hand x codec) empty) (confirmed-pending m es) in
      (
        sub,
        Sublist-All (IsCommitted x codec) sub (attempted-IsCommitted m es),
        confirmed-VerifiedIn m es,
      )

-- ===== src/Node/Proposal.antt =====
-- The block that is made of what the node gives out: the ledger accepts it.
use ddk.Prelude.{
  ℕ, ◌≤◌, ◌≡◌, ap, ◌∙◌, true, List, [], ◌∷◌, ◌++◌, map, All, arith, ok, sum64_from, >>=-eq-ok, take,
}
use mathlib.Core.Path.{subst}
use ddk.Table.{iter}
use ddk.Table.Every.{iter-All, take-All, map-All}
use ddk.Types.{Chain, Output, AuthorizedTransaction, get_value, Hash}
use ddk.Types.Blocks.{new}
use ddk.State.{validate_body}
use ddk.Mempool.{take_some}
use ddk.Node.{World, Node, Picked, get_transactions, pick_transactions}
use ddk.Node.Template.{Collected, get_transactions-Collected, pick_transactions-keeps}
use ddk.Node.Sound.{get_transactions-state}
use ddk.Node.Accepted.{IsFit, validate_body-new}

append-All :
    {T : Type 0} (P : T → Type 0) (xs : List T) (x : T) → All P xs → P x → All P (xs ++ x ∷ [])
append-All P [] x h k = (k, tt)
append-All P (y ∷ xs) x h k = (h.0, append-All P xs x h.1 k)

module _ {c : Chain} {A : Type 0} (w : World c A) where
  -- Every transaction of the pool has distinct inputs and one authorization for each.
  abbrev pub FitPool : Node w → Type 0
  FitPool n = All (λ (p : Hash × AuthorizedTransaction c A). IsFit w p.1) n.mempool.transactions

  get_transactions-IsFit :
      (n n' : Node w) (number : ℕ) (ts : List (AuthorizedTransaction c A)) (fee : ℕ)
      → FitPool n
      → get_transactions w n number ≡ ok (n', (ts, fee))
      → All (IsFit w) ts
  unfolding get_transactions take_some
  get_transactions-IsFit n n' number ts fee fit h =
      let start : Picked w = record { pool = n.mempool; fee = 0; returned = []; spent = [] } in
      let (p, picked, done) =
        >>=-eq-ok (pick_transactions w n (take_some n.mempool number) start) _ h in
      let taken : All (IsFit w) (take_some n.mempool number) =
        map-All (IsFit w) (λ e. e.1) (take number (iter n.mempool.transactions))
          (take-All (λ e. IsFit w e.1) number (iter n.mempool.transactions)
            (iter-All (λ e. IsFit w e.1) n.mempool.transactions fit)) in
      let fit_all =
        pick_transactions-keeps w n (λ k. All (IsFit w) k.returned) (IsFit w) (λ k t old. old)
          (λ k t f good old. append-All (IsFit w) k.returned t old good)
          (take_some n.mempool number) start p taken tt picked in
      let same : p.returned ≡ ts = ground arith in subst (All (IsFit w)) same fit_all

  -- If every transaction of the pool has distinct inputs and one authorization for each, then the
  -- ledger accepts the block that `new` makes of the transactions that `get_transactions` gives
  -- out, with the fee that it gives, as long as the coinbase is worth at most that fee and their
  -- authorizations are verified together.
  pub get_transactions-new :
      (n n' : Node w) (number : ℕ) (ts : List (AuthorizedTransaction c A)) (fee : ℕ)
      (coinbase : List (Output c))
      → FitPool n
      → get_transactions w n number ≡ ok (n', (ts, fee))
      → sum64_from 0 (map get_value coinbase) ≤ fee
      → w.verify.verify_body (new ts coinbase) ≡ true
      → validate_body w.verify n'.state (new ts coinbase) ≡ ok fee
  get_transactions-new n n' number ts fee coinbase fit h covered verified =
      let (m, us, f, given, collected) = get_transactions-Collected w n number in
      let same_ts : us ≡ ts = ground arith in
      let same_fee : f ≡ fee = ground arith in
      let collected' : Collected w n [] 0 ts fee = rw (same_ts, same_fee) at collected in
      ap (λ s. validate_body w.verify s (new ts coinbase)) (get_transactions-state w n n' number h)
      ∙ validate_body-new w n ts fee coinbase collected'
          (get_transactions-IsFit n n' number ts fee fit h) covered verified

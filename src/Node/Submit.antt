-- ===== src/Node/Submit.antt =====
-- Transactions that are submitted to the node, and those that it gives out for a block.
use ddk.Prelude.{
  ℕ, ◌≡◌, ap, ◌∙◌, arith, some, true, not, List, length, ok, map_err, >>=-eq-ok, map_err-eq-ok,
  fail_if, fail_if-eq-ok, inl, inr,
}
use ddk.Table.{get}
use ddk.Table.Laws.{get-put}
use ddk.Types.{
  Chain, Output, FilledTransaction, AuthorizedTransaction, txid, out_point_key, number_key,
}
use ddk.State.{fill_transaction, validate_filled_transaction, check_addresses, authorization_error}
use ddk.State.Fill.{Spends, fill_transaction_lem}
use ddk.State.Owners.{OwnedBy, check_addresses-OwnedBy, Spends-length}
use ddk.Archive.{get_height}
use ddk.Mempool.{insert, mark_inputs}
use ddk.Mempool.Consistent.{IsConsistent, insert-IsConsistent}
use ddk.Node.{World, Error, Node, validate_transaction, submit_transaction}

module _ {c : Chain} {A : Type 0} (w : World c A) where
  -- The steps of a transaction that was validated.
  pub record Validated (n : Node w) (t : AuthorizedTransaction c A) (fee : ℕ) : Type 0 where
    pub filled : FilledTransaction c
    pub is_filled : fill_transaction n.state t.transaction ≡ ok filled
    pub owned : check_addresses w.verify t.authorizations filled.spent_utxos ≡ ok tt
    pub verified : w.verify.verify_transaction t ≡ true
    pub paid : validate_filled_transaction filled ≡ ok fee

  pub validate_transaction-Validated :
      (n : Node w) (t : AuthorizedTransaction c A) {fee : ℕ}
      → validate_transaction w n t ≡ ok fee
      → Validated n t fee
  unfolding validate_transaction
  validate_transaction-Validated n t h =
      let (filled, e1, r1) =
        >>=-eq-ok (map_err Error.state (fill_transaction n.state t.transaction)) _ h in
      let (u, e2, r2) =
        >>=-eq-ok
          (map_err Error.state (check_addresses w.verify t.authorizations filled.spent_utxos)) _
          r1 in
      let (v, e3, r3) =
        >>=-eq-ok (fail_if (not (w.verify.verify_transaction t)) (Error.state authorization_error))
          _ r2 in
      let (x, e4, r4) =
        >>=-eq-ok
          (map_err Error.custom (
            w.custom.validate_filled_transaction n.custom_state (get_height n.archive) n.state
              filled))
          _ r3 in
      record {
        filled = filled;
        is_filled = map_err-eq-ok _ _ e1;
        owned = map_err-eq-ok _ _ e2;
        verified = ground (arith, fail_if-eq-ok _ _ e3);
        paid = map_err-eq-ok _ _ r4;
      }

  -- If the pool is consistent and a transaction with one authorization for each input is
  -- accepted, then each input is an unspent output whose owner gave the authorization in its
  -- place, the authorizations are verified, and the transaction is in the pool, which is still
  -- consistent.
  pub submit_transaction-OwnedBy :
      (n n' : Node w) (t : AuthorizedTransaction c A) {pushed : List ℕ}
      → length t.authorizations ≡ length t.transaction.inputs
      → IsConsistent n.mempool
      → submit_transaction w n t ≡ ok (n', pushed)
      → ((os : List (Output c)) × Spends n.state.utxos t.transaction.inputs os
          × OwnedBy w.verify t.authorizations os)
        × (w.verify.verify_transaction t ≡ true)
        × (get (txid w.codec t.transaction) n'.mempool.transactions ≡ some t)
        × IsConsistent n'.mempool
  unfolding submit_transaction insert
  submit_transaction-OwnedBy n n' t counts old h =
      let (fee, e1, r1) = >>=-eq-ok (validate_transaction w n t) _ h in
      let v = validate_transaction-Validated n t e1 in
      let (pool, e2, r2) = >>=-eq-ok (map_err Error.mempool (insert w.codec n.mempool t)) _ r1 in
      let inserted : insert w.codec n.mempool t ≡ ok pool = map_err-eq-ok _ _ e2 in
      let same : pool ≡ n'.mempool = ground arith in
      let kept = insert-IsConsistent w.codec n.mempool n'.mempool t old (inserted ∙ ap ok same) in
      let (marks, e3, r3) =
        >>=-eq-ok (mark_inputs n.mempool.spent_utxos t.transaction.inputs) _ inserted in
      let there : get (txid w.codec t.transaction) n'.mempool.transactions ≡ some t = ground (
        arith,
        get-put (txid w.codec t.transaction) (txid w.codec t.transaction) t n.mempool.transactions,
      ) in
      elim (fill_transaction_lem n.state t.transaction) [
        | inl (f, e, whole, present, spends) ↦
            let is_f : f ≡ v.filled = ground (arith, v.is_filled, e) in
            let owned : check_addresses w.verify t.authorizations f.spent_utxos ≡ ok tt =
              rw is_f v.owned in
            (
              (
                f.spent_utxos,
                spends,
                check_addresses-OwnedBy w.verify t.authorizations f.spent_utxos
                    (counts
                      ∙ Spends-length w.verify n.state t.transaction.inputs f.spent_utxos spends)
                    owned,
              ),
              v.verified,
              there,
              kept,
            )
        | inr (i, e, missing) ↦ absurd (ground (arith, v.is_filled, e))
      ]

-- ===== src/Node/Sound.antt =====
-- What holds of a node between any two events, and how its coins are backed by deposits.
use ddk.Prelude.{
  ℕ, ◌+◌, ◌<◌, ◌≡◌, refl, sym, ap, List, [], ◌∷◌, arith, Result, ok, err, >>=-eq-ok, map_err,
  map_err-eq-ok, u32_mod,
}
use ddk.Table.Unique.{UniqueKeys}
use ddk.Types.{Chain, AuthorizedTransaction, Body, Header}
use ddk.Types.Withdrawals.{TwoWayPegData}
use ddk.State.{State, connect_body}
use ddk.State.Backing.{connect_two_way_peg_data-backing}
use ddk.State.Once.{connect_body-UniqueKeys}
use ddk.State.Bundle.Weight.{SortLaw}
use ddk.Archive.{Archive}
use ddk.Archive.Linked.{IsChain}
use ddk.Archive.Store.{append_header-put_body, put_body-ok}
use ddk.Mempool
use ddk.Mempool.{Mempool, insert, take_some}
use ddk.Mempool.Consistent.{IsConsistent, insert-IsConsistent}
use ddk.Node.{
  World, Error, Node, apply_block, submit_transaction, validate_transaction, get_transactions,
  pick_transactions,
}
use ddk.Node.Blocks.{apply_block-Applied}
use ddk.Node.Pool.{remove_transactions-IsConsistent}
use ddk.Node.Template.{get_transactions-IsConsistent}
use ddk.Node.Requests.{Request, get_block, push_transaction, peer_listen}
use ddk.Node.Answers.{peer_listen-IsConsistent}
use ddk.Node.Runs.{
  Event, transaction, new_block, template, request, handle, run, accepted_by, accepted,
}
use mathlib.Core.Path.{subst}

module _ {c : Chain} {A : Type 0} (w : World c A) where
  -- The archive is a chain of so many headers, the pool is consistent, and no outpoint stands
  -- twice among the unspent outputs.
  pub record Sound (height : ℕ) (n : Node w) : Type 0 where
    pub chain : IsChain w.codec height n.archive
    pub pool : IsConsistent n.mempool
    pub unique : UniqueKeys n.state.utxos

  same_height-Sound : (h k : ℕ) (n : Node w) → h ≡ k → Sound h n → Sound k n
  same_height-Sound h k n e s = subst (λ (x : ℕ). Sound x n) e s

  -- A step that leaves the state and the archive alone.
  abbrev Keeps : Node w → Node w → Type 0
  Keeps n n' = (n'.state ≡ n.state) × (n'.archive ≡ n.archive)

  Keeps-Sound :
      (height : ℕ) (n n' : Node w)
      → Keeps n n'
      → IsConsistent n'.mempool
      → Sound height n
      → Sound height n'
  Keeps-Sound height n n' k pool s = record {
    chain = subst (λ (a : Archive c A). IsChain w.codec height a) (sym k.1) s.chain;
    pool = pool;
    unique = subst (λ (x : State c). UniqueKeys x.utxos) (sym k.0) s.unique;
  }

  -- A transaction that is accepted goes into the pool and nowhere else.
  submit_transaction-ok :
      (n n' : Node w) (t : AuthorizedTransaction c A) {out : List ℕ}
      → submit_transaction w n t ≡ ok (n', out)
      → (pool : Mempool c A) × (insert w.codec n.mempool t ≡ ok pool)
        × (record n { mempool = pool } ≡ n')
  unfolding submit_transaction
  submit_transaction-ok n n' t h =
      let (fee, e1, r1) = >>=-eq-ok (validate_transaction w n t) _ h in
      let (pool, e2, r2) = >>=-eq-ok (map_err Error.mempool (insert w.codec n.mempool t)) _ r1 in
      (pool, map_err-eq-ok _ _ e2, ground arith)

  submit_transaction-Keeps :
      (n n' : Node w) (t : AuthorizedTransaction c A) {out : List ℕ}
      → submit_transaction w n t ≡ ok (n', out)
      → IsConsistent n.mempool
      → Keeps n n' × IsConsistent n'.mempool
  submit_transaction-Keeps n n' t h old =
      let (pool, inserted, same) = submit_transaction-ok n n' t h in
      subst (λ (m : Node w). Keeps n m × IsConsistent m.mempool) same
        ((refl, refl), insert-IsConsistent w.codec n.mempool pool t old inserted)

  apply_block-Sound :
      (height : ℕ) (n n' : Node w) (data' : TwoWayPegData c) (header : Header) (body : Body c A)
      → SortLaw w.bitcoin
      → height + 1 < u32_mod
      → apply_block w n data' header body ≡ ok n'
      → Sound height n
      → Sound (height + 1) n'
  apply_block-Sound height n n' data' header body sorts bound h s =
      let a = apply_block-Applied w n n' data' header body h in
      let root = (put_body-ok w.codec a.appended n'.archive header body a.is_put).2 in
      let stacked =
        append_header-put_body w.codec height n.archive a.appended header body s.chain bound root
          a.is_appended in
      let same : stacked.0 ≡ n'.archive = ground (arith, stacked.1, a.is_put) in
      record {
        chain = subst (λ (x : Archive c A). IsChain w.codec (height + 1) x) same stacked.2;
        pool = rw a.pool (remove_transactions-IsConsistent w n.mempool body.transactions s.pool);
        unique =
            (connect_two_way_peg_data-backing w.bitcoin sorts w.codec
              (connect_body w.codec n.state body) n'.state data' _
              (connect_body-UniqueKeys w.codec n.state body s.unique) a.pegged).1;
      }

  get_transactions-Keeps :
      (n n' : Node w) (number : ℕ) {out : List (AuthorizedTransaction c A) × ℕ}
      → get_transactions w n number ≡ ok (n', out)
      → Keeps n n'
  unfolding get_transactions
  get_transactions-Keeps n n' number h =
      let (p, e, k) =
        >>=-eq-ok
          (pick_transactions w n (take_some n.mempool number)
            (record { pool = n.mempool; fee = 0; returned = []; spent = [] }))
          _ h in
      let same : record n { mempool = p.pool } ≡ n' = ground arith in
      subst (λ (m : Node w). Keeps n m) same (refl, refl)

  -- What leaves the ledger alone.
  pub submit_transaction-state :
      (n n' : Node w) (t : AuthorizedTransaction c A) {out : List ℕ}
      → submit_transaction w n t ≡ ok (n', out)
      → n'.state ≡ n.state
  submit_transaction-state n n' t h =
      let (pool, inserted, same) = submit_transaction-ok n n' t h in
      ap (λ (m : Node w). m.state) (sym same)

  pub get_transactions-state :
      (n n' : Node w) (number : ℕ) {out : List (AuthorizedTransaction c A) × ℕ}
      → get_transactions w n number ≡ ok (n', out)
      → n'.state ≡ n.state
  get_transactions-state n n' number h = (get_transactions-Keeps n n' number h).0

  pub peer_listen-state :
      (n : Node w) (peer : ℕ) (message : Request w)
      → (peer_listen w n peer message).node.state ≡ n.state
  unfolding peer_listen
  peer_listen-state n peer (get_block height) = refl
  peer_listen-state n peer (push_transaction t) =
      go (validate_transaction w n t) (insert w.codec n.mempool t) refl refl
    where
      go :
          (r : Result (Error w) ℕ) (q : Result ddk.Mempool.Error (Mempool c A))
          → validate_transaction w n t ≡ r
          → insert w.codec n.mempool t ≡ q
          → (peer_listen w n peer (push_transaction t)).node.state ≡ n.state
      go (err e) q e1 e2 = rw (peer_listen, e1) refl
      go (ok f) (err e) e1 e2 = rw (peer_listen, e1, e2) refl
      go (ok f) (ok pool) e1 e2 = rw (peer_listen, e1, e2) refl

  -- An event keeps a sound node sound, with one header more if it is a block that is accepted.
  handle-Sound :
      SortLaw w.bitcoin
      → (height : ℕ) (n : Node w) (e : Event w) → height + accepted_by w n e < u32_mod
      → Sound height n
      → Sound (height + accepted_by w n e) (handle w n e)
  unfolding handle accepted_by
  handle-Sound sorts height n (transaction t) bound s = go (submit_transaction w n t) refl
    where
      go :
          (r : Result (Error w) (Node w × List ℕ))
          → submit_transaction w n t ≡ r
          → Sound (height + 0) (elim r [ ok (n', _) ↦ n' | err _ ↦ n ])
      go (ok (n', out)) h =
          let (keeps, pool) = submit_transaction-Keeps n n' t h s.pool in
          same_height-Sound height (height + 0) n' (omega arith)
            (Keeps-Sound height n n' keeps pool s)
      go (err e) h = same_height-Sound height (height + 0) n (omega arith) s
  handle-Sound sorts height n (new_block data' header body) bound s =
      go (apply_block w n data' header body) refl bound
    where
      go :
          (r : Result (Error w) (Node w))
          → apply_block w n data' header body ≡ r
          → height + elim r [ ok _ ↦ 1 | err _ ↦ 0 ] < u32_mod
          → Sound (height + elim r [ ok _ ↦ 1 | err _ ↦ 0 ]) (elim r [ ok n' ↦ n' | err _ ↦ n ])
      go (ok n') h b = apply_block-Sound height n n' data' header body sorts b h s
      go (err e) h b = same_height-Sound height (height + 0) n (omega arith) s
  handle-Sound sorts height n (template number) bound s = go (get_transactions w n number) refl
    where
      go :
          (r : Result (Error w) (Node w × (List (AuthorizedTransaction c A) × ℕ)))
          → get_transactions w n number ≡ r
          → Sound (height + 0) (elim r [ ok (n', _) ↦ n' | err _ ↦ n ])
      go (ok (n', out)) h = same_height-Sound height (height + 0) n' (omega arith) (
          Keeps-Sound height n n' (get_transactions-Keeps n n' number h)
            (get_transactions-IsConsistent w n n' number s.pool h) s)
      go (err e) h = same_height-Sound height (height + 0) n (omega arith) s
  handle-Sound sorts height n (request peer message) bound s =
      let (pool, state, archive, _) = peer_listen-IsConsistent w n peer message s.pool in
      same_height-Sound height (height + 0) (peer_listen w n peer message).node (omega arith)
        (Keeps-Sound height n (peer_listen w n peer message).node (state, archive) pool s)

  -- If sorting permutes, a node whose archive is a chain of so many headers, whose pool is
  -- consistent (the inputs of each transaction are distinct and marked, and no two spend the same
  -- output) and whose unspent outputs have unique outpoints stays so over any sequence of
  -- submissions, blocks, requests of peers and block templates, with one header more for each
  -- block that is accepted, as long as heights fit 32 bits.
  pub run-Sound :
      SortLaw w.bitcoin
      → (height : ℕ) (n : Node w) (es : List (Event w)) → height + accepted w n es < u32_mod
      → Sound height n
      → Sound (height + accepted w n es) (run w n es)
  unfolding run accepted
  run-Sound sorts height n [] bound s = same_height-Sound height (height + 0) n (omega arith) s
  run-Sound sorts height n (e ∷ es) bound s =
      same_height-Sound _ _ (run w (handle w n e) es) (omega arith) (
        run-Sound sorts (height + accepted_by w n e) (handle w n e) es (omega arith)
          (handle-Sound sorts height n e (omega arith) s))

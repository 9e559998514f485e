-- ===== src/Node/Blocks.antt =====
-- What a submitted block does to the node: the archive grows by the block, the state is that
-- after the block, and its transactions leave the pool.
use ddk.Prelude.{
  ℕ, ◌+◌, ◌<◌, ◌≡◌, sym, ap, ◌∙◌, arith, Option, some, ok, map_err, >>=-eq-ok, map_err-eq-ok,
  u32_mod,
}
use mathlib.Core.Path.{subst}
use ddk.Types.{Chain, Body, Header, header_hash, number_key}
use ddk.Types.Withdrawals.{TwoWayPegData, MainTransaction}
use ddk.State.{validate_body, connect_body}
use ddk.State.Peg.{connect_two_way_peg_data}
use ddk.Archive.{Archive, get_body, get_height, get_best_hash, append_header, put_body}
use ddk.Archive.Linked.{IsChain, get_height-IsChain}
use ddk.Archive.Store.{append_header-put_body, put_body-ok}
use ddk.Node.{World, Error, Node, apply_block, submit_block, remove_transactions}

module _ {c : Chain} {A : Type 0} (w : World c A) where
  -- The steps of a block that was applied.
  pub record Applied (n : Node w) (data' : TwoWayPegData c) (header : Header) (body : Body c A)
      (n' : Node w) : Type 0 where
    pub fees : ℕ
    pub accepted : validate_body w.verify n.state body ≡ ok fees
    pub approved : w.custom.validate_body n.custom_state (get_height n.archive) n.state body ≡ ok tt
    pub stored :
        w.custom.connect_body n.custom_state
          (get_height n.archive)
          (connect_body w.codec n.state body)
          body
        ≡ ok n'.custom_state
    pub pegged :
        connect_two_way_peg_data w.bitcoin w.codec
          (connect_body w.codec n.state body)
          data'
          (get_height n.archive)
        ≡ ok n'.state
    pub appended : Archive c A
    pub is_appended : append_header w.codec n.archive header ≡ ok appended
    pub is_put : put_body w.codec appended header body ≡ ok n'.archive
    pub pool : n'.mempool ≡ remove_transactions w n.mempool body.transactions
    pub same_peers : n'.peers ≡ n.peers

  pub apply_block-Applied :
      (n n' : Node w) (data' : TwoWayPegData c) (header : Header) (body : Body c A)
      → apply_block w n data' header body ≡ ok n'
      → Applied n data' header body n'
  unfolding apply_block
  apply_block-Applied n n' data' header body h =
      let (fees, e1, r1) =
        >>=-eq-ok (map_err Error.state (validate_body w.verify n.state body)) _ h in
      let height = get_height n.archive in
      let (u, e2, r2) =
        >>=-eq-ok (map_err Error.custom (w.custom.validate_body n.custom_state height n.state body))
          _ r1 in
      let s = connect_body w.codec n.state body in
      let (stored, e3, r3) =
        >>=-eq-ok (map_err Error.custom (w.custom.connect_body n.custom_state height s body)) _
          r2 in
      let (s', e4, r4) =
        >>=-eq-ok (map_err Error.state (connect_two_way_peg_data w.bitcoin w.codec s data' height))
          _ r3 in
      let (a, e5, r5) =
        >>=-eq-ok (map_err Error.archive (append_header w.codec n.archive header)) _ r4 in
      let (a', e6, r6) = >>=-eq-ok (map_err Error.archive (put_body w.codec a header body)) _ r5 in
      let built : Node w = record n {
        state = s';
        custom_state = stored;
        archive = a';
        mempool = remove_transactions w n.mempool body.transactions;
      } in
      let same : built ≡ n' = ground arith in
      record {
        fees = fees;
        accepted = map_err-eq-ok _ _ e1;
        approved = map_err-eq-ok _ _ e2;
        stored = map_err-eq-ok _ _ e3 ∙ ap (λ (m : Node w). ok m.custom_state) same;
        pegged = map_err-eq-ok _ _ e4 ∙ ap (λ (m : Node w). ok m.state) same;
        appended = a;
        is_appended = map_err-eq-ok _ _ e5;
        is_put = map_err-eq-ok _ _ e6 ∙ ap (λ (m : Node w). ok m.archive) same;
        pool = ap (λ (m : Node w). m.mempool) (sym same);
        same_peers = ap (λ (m : Node w). m.peers) (sym same);
      }

  -- What a submitted block leaves: its steps, and the archive that it extends.
  pub submit_block-Applied :
      (n n' : Node w) (header : Header) (body : Body c A) {out : Option (MainTransaction c)}
      → submit_block w n header body ≡ ok (n', out)
      → (data' : TwoWayPegData c) × (w.get_two_way_peg_data header.prev_main_hash
            n.state.last_deposit_block
          ≡ ok data')
        × Applied n data' header body n'
  unfolding submit_block
  submit_block-Applied n n' header body h =
      let (data', e1, r1) =
        >>=-eq-ok
          (map_err Error.drivechain
            (w.get_two_way_peg_data header.prev_main_hash n.state.last_deposit_block))
          _ h in
      let (m, e2, r2) = >>=-eq-ok (apply_block w n data' header body) _ r1 in
      let same : m ≡ n' = ground arith in
      (
        data',
        map_err-eq-ok _ _ e1,
        apply_block-Applied n n' data' header body (e2 ∙ ap (λ (x : Node w). ok x) same),
      )

  -- If the archive is a chain of `height` headers, heights fit 32 bits and a block is accepted by
  -- `submit_block`, then the ledger accepts the body, the state is what the ledger makes of it and
  -- of the data that the mainchain gives for the header's mainchain block and the last deposit,
  -- and the archive is a chain of one more header, with the block on top.
  pub submit_block-IsChain :
      (height : ℕ) (n n' : Node w) (header : Header) (body : Body c A)
      {out : Option (MainTransaction c)}
      → IsChain w.codec height n.archive
      → height + 1 < u32_mod
      → submit_block w n header body ≡ ok (n', out)
      → ((fees : ℕ) × (validate_body w.verify n.state body ≡ ok fees))
        × ((data' : TwoWayPegData c) × (w.get_two_way_peg_data header.prev_main_hash
                n.state.last_deposit_block
              ≡ ok data')
            × (connect_two_way_peg_data w.bitcoin w.codec
                  (connect_body w.codec n.state body)
                  data'
                  height
                ≡ ok n'.state))
        × IsChain w.codec (height + 1) n'.archive
        × (get_height n'.archive ≡ height + 1)
        × (get_best_hash w.codec n'.archive ≡ header_hash w.codec header)
        × (get_body n'.archive (height + 1) ≡ some body)
  submit_block-IsChain height n n' header body chain bound h =
      let (data', told, a) = submit_block-Applied n n' header body h in
      let at = get_height-IsChain w.codec height n.archive chain in
      let root = (put_body-ok w.codec a.appended n'.archive header body a.is_put).2 in
      let (b, put, grown, top, best, header_there, body_there) =
        append_header-put_body w.codec height n.archive a.appended header body chain bound root
          a.is_appended in
      let same : b ≡ n'.archive = ground (arith, put, a.is_put) in
      (
        (a.fees, a.accepted),
        (data', told, ground (arith, a.pegged, at)),
        subst (λ (x : Archive c A). IsChain w.codec (height + 1) x) same grown,
        ap (λ (x : Archive c A). get_height x) (sym same) ∙ top,
        ap (λ (x : Archive c A). get_best_hash w.codec x) (sym same) ∙ best,
        ap (λ (x : Archive c A). get_body x (height + 1)) (sym same) ∙ body_there,
      )

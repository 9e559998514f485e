-- ===== src/Drivechain/Decode.antt =====
-- What the connection makes of the mainchain's deposits, once they are decoded.
use ddk.Prelude.{
  ℕ, ◌-◌, ◌≤◌, ◌≡◌, refl, sym, ap, ◌∙◌, Option, none, some, List, [], ◌∷◌, Result, ok, err, ok_or,
  ◌>>=◌, >>=-eq-ok, >>=-assoc, Result-cases, Option-cases, if◌then◌else◌, map_err, map_err-eq-ok,
  arith, ltb, inl, inr,
}
use mathlib.Core.Path.{subst}
use ddk.Table.{Table}
use ddk.Table.Total.{total}
use ddk.Types.{Chain, OutPoint, Output, Address, Hash, get_value, out_point_key}
use ddk.Types.Text.{from_str, Text}
use ddk.Types.Withdrawals.{TwoWayPegData}
use ddk.Drivechain
use ddk.Drivechain.{Deposits, credit, walk_deposits, is_start}
use ddk.Drivechain.Credit.{rises, get_deposit_outputs-total}
use ddk.Drivechain.Client
use ddk.Drivechain.Client.{Crates}
use ddk.Drivechain.Calls
use ddk.Drivechain.Calls.{
  Error, get_elem?, insert_output, walk, call, get_deposit_outputs, get_withdrawal_bundle_statuses,
  get_two_way_peg_data,
}

module _ (x : Crates) where
  -- The address of a deposit, if it has one.
  abbrev parse_address : Text → Option Address
  parse_address s = elim (from_str x.base58 s) [ err _ ↦ none | ok address ↦ some address ]

  -- A deposit with its transaction decoded.
  abbrev decoded_as : Client.Deposit → x.MainTransaction → ℕ → ddk.Drivechain.Deposit
  decoded_as d transaction held = record {
    hashblock = d.hashblock;
    nburnindex = d.nburnindex;
    txid = x.txid transaction;
    total = held;
    address = parse_address d.strdest;
  }

  abbrev pub decode_deposit : Client.Deposit → Result (Error x) ddk.Drivechain.Deposit
  decode_deposit d = do
    bytes ← map_err Error.hex (x.hex_decode d.txhex)
    transaction ← map_err Error.bitcoin_consensus_encode (x.consensus_decode bytes)
    held ← ok_or (get_elem? (x.output_values transaction) d.nburnindex) Error.panicked
    ok (decoded_as d transaction held)

  -- All of them, or the first error.
  abbrev pub decode_deposits : List Client.Deposit → Result (Error x) (List ddk.Drivechain.Deposit)
  decode_deposits [] = ok []
  decode_deposits (d ∷ ds) = do
    decoded ← decode_deposit d
    rest ← decode_deposits ds
    ok (decoded ∷ rest)

  module _ {c : Chain} where
    insert_output-credit :
        (d : Client.Deposit) (transaction : x.MainTransaction) (held amount : ℕ)
        (outputs : Table OutPoint (Output c))
        → insert_output x d (x.txid transaction) amount outputs
          ≡ credit (decoded_as d transaction held) amount outputs
    unfolding insert_output credit
    insert_output-credit d transaction held amount outputs =
        elim (Result-cases (from_str x.base58 d.strdest)) [
          | inl (a, parsed) ↦ rw (parsed, insert_output, credit) refl
          | inr (e, refused) ↦ rw (refused, insert_output, credit) refl
        ]

    -- One round of the loop, for a deposit that decodes.
    walk-step :
        (start : Option Hash) (d : Client.Deposit) (transaction : x.MainTransaction) (held : ℕ)
        (ds : List Client.Deposit) (found : Deposits c)
        → ((f : Deposits c)
            → walk x start ds f
              ≡ (decode_deposits ds >>= λ decoded. ok (walk_deposits start decoded f)))
        → (if is_start start d.hashblock
            then walk x start ds (record found { last_total = held })
            else (if ltb held found.last_total
                then walk x start ds (record found { last_total = held })
                else walk x start ds (record {
                  last_block_hash = some d.hashblock;
                  last_total = held;
                  outputs =
                      insert_output x d
                        (x.txid transaction)
                        (held - found.last_total)
                        found.outputs;
                })))
          ≡ (decode_deposits ds >>= λ rest.
              ok (walk_deposits start (decoded_as d transaction held ∷ rest) found))
    unfolding walk_deposits
    walk-step start d transaction held ds found rest =
        rw
          (
            rest (record found { last_total = held }),
            rest (record {
              last_block_hash = some d.hashblock;
              last_total = held;
              outputs =
                  insert_output x d (x.txid transaction) (held - found.last_total) found.outputs;
            }),
            insert_output-credit d transaction held (held - found.last_total) found.outputs,
          )
          (elim (Result-cases (decode_deposits ds)) [
            | inl (decoded, e) ↦ rw e (ground arith)
            | inr (failure, e) ↦ rw e (ground arith)
          ])

    -- The walk over deposits as they are decoded is the walk over the decoded deposits, if all
    -- decode, and the first error otherwise.
    pub walk-decode_deposits :
        (start : Option Hash) (ds : List Client.Deposit) (found : Deposits c)
        → walk x start ds found
          ≡ (decode_deposits ds >>= λ decoded. ok (walk_deposits start decoded found))
    unfolding walk walk_deposits
    walk-decode_deposits start [] found = refl
    walk-decode_deposits start (d ∷ ds) found = elim (Result-cases (x.hex_decode d.txhex)) [
      | inr (e, bad) ↦ rw bad refl
      | inl (bytes, read) ↦ elim (Result-cases (x.consensus_decode bytes)) [
        | inr (e, bad) ↦ rw (read, bad) refl
        | inl (t, parsed) ↦ elim (Option-cases (get_elem? (x.output_values t) d.nburnindex)) [
          | inl missing ↦ rw (read, parsed, missing) refl
          | inr (held, output) ↦
              rw (read, parsed, output)
                (walk-step start d t held ds found (walk-decode_deposits start ds)
                  ∙ sym (>>=-assoc (decode_deposits ds) _ _))
        ]
      ]
    ]

  -- If the mainchain's answers can be read, then the deposits that are credited are worth at most
  -- the increases of the total that the deposits it lists held, without that at the start.
  pub get_two_way_peg_data-supply :
      {c : Chain} (d : Calls.Drivechain x) (end : Hash) (start : Option Hash)
      {data' : TwoWayPegData c}
      → get_two_way_peg_data x d end start ≡ ok data'
      → (listed : List Client.Deposit) × (decoded : List ddk.Drivechain.Deposit)
        × (d.client.listsidechaindepositsbyblock d.sidechain_number (some end) start ≡ ok listed)
        × (decode_deposits listed ≡ ok decoded)
        × (total get_value data'.deposits ≤ rises start 0 decoded)
  unfolding get_two_way_peg_data get_deposit_outputs ddk.Drivechain.get_deposit_outputs
  get_two_way_peg_data-supply {c} d end start {data'} h =
      let (found, e1, r1) = >>=-eq-ok (get_deposit_outputs x {c = c} d end start) _ h in
      let (statuses, e2, r2) = >>=-eq-ok (get_withdrawal_bundle_statuses x d) _ r1 in
      let (listed, e3, r3) =
        >>=-eq-ok
          (call x (d.client.listsidechaindepositsbyblock d.sidechain_number (some end) start)) _
          e1 in
      let (decoded, e4, r4) =
        >>=-eq-ok (decode_deposits listed) _ (sym (walk-decode_deposits start listed _) ∙ r3) in
      let walked : ddk.Drivechain.get_deposit_outputs start decoded ≡ found = ground arith in
      let same : found.outputs ≡ data'.deposits = ground arith in
      (
        listed,
        decoded,
        map_err-eq-ok Error.jsonrpsee _ e3,
        e4,
        subst (λ (t : Table OutPoint (Output c)). total get_value t ≤ rises start 0 decoded)
            (ap (λ (f : Deposits c). f.outputs) walked ∙ same)
            (get_deposit_outputs-total c start decoded),
      )

-- ===== src/Types/Gather.antt =====
-- What `Body::new` gathers from authorized transactions.
use ddk.Prelude.{◌≡◌, ap, ◌∙◌, List, [], ◌∷◌, ◌++◌}
use mathlib.Core.List.{append_assoc, append-nil}
use ddk.Types.{Chain, Output, Transaction, AuthorizedTransaction}
use ddk.Types.Blocks.{gather, new}

module _ {c : Chain} {A : Type 0} where
  -- What `new` gathers.
  abbrev pub authorizations_of : List (AuthorizedTransaction c A) → List A
  authorizations_of [] = []
  authorizations_of (t ∷ ts) = t.authorizations ++ authorizations_of ts

  abbrev pub transactions_of : List (AuthorizedTransaction c A) → List (Transaction c)
  transactions_of [] = []
  transactions_of (t ∷ ts) = t.transaction ∷ transactions_of ts

  gather_lem :
      (ts : List (AuthorizedTransaction c A)) (auths : List A) (us : List (Transaction c))
      → gather ts auths us ≡ (auths ++ authorizations_of ts, us ++ transactions_of ts)
  unfolding gather
  gather_lem [] auths us = rw (append-nil, append-nil)
  gather_lem (t ∷ ts) auths us =
      gather_lem ts (auths ++ t.authorizations) (us ++ t.transaction ∷ [])
      ∙ rw (append_assoc, append_assoc)

  -- The body that `new` makes.
  pub new_lem :
      (ts : List (AuthorizedTransaction c A)) (coinbase : List (Output c))
      → new ts coinbase ≡ record {
        coinbase = coinbase;
        transactions = transactions_of ts;
        authorizations = authorizations_of ts;
      }
  unfolding new
  new_lem ts coinbase =
      ap
        (λ (g : List A × List (Transaction c)). record {
          coinbase = coinbase;
          transactions = g.1;
          authorizations = g.0;
        })
        (gather_lem ts [] [])

-- ===== src/Tests/StoreTests.antt =====
-- The theorems on the archive and the pool at concrete blocks and transactions.
use ddk.Prelude.{ℕ, ◌+◌, ◌≡◌, refl, ok, err, some, [], ◌∷◌, arith, ℕ_discrete}
use ddk.Table.{get, put, delete, last}
use ddk.Types.{
  regular, AuthorizedTransaction, Body, Header, header_hash, compute_merkle_root, txid,
  out_point_key, number_key, OutPoint-discrete, MainOutPoint-discrete,
}
use ddk.State.{contains}
use ddk.Archive.{Archive, append_header, put_body, get_header, get_body, get_height, get_best_hash}
use ddk.Archive.Linked.{IsChain, empty-IsChain}
use ddk.Archive.Store.{append_header-put_body}
use ddk.Mempool.{Mempool, insert, remove, utxo_double_spent}
use ddk.Mempool.Marks.{remove_keeps_marks}
use ddk.Tests.Data.{chain, codec, coin}

runs : Unit {0}
unfolding get put delete last OutPoint-discrete MainOutPoint-discrete ℕ_discrete contains
    header_hash compute_merkle_root txid append_header put_body get_body get_header insert remove
runs = tt

abbrev body : Body chain ℕ
body = record { coinbase = coin 3 1 ∷ []; transactions = []; authorizations = [] }

abbrev header : Header
header = record { merkle_root = 10300; prev_side_hash = 0; prev_main_hash = 4 }

abbrev empty : Archive chain ℕ
empty = record { headers = []; bodies = []; hash_to_height = [] }

abbrev one : Archive chain ℕ
one = record { headers = (1, header) ∷ []; bodies = []; hash_to_height = (20300, 1) ∷ [] }

appended : append_header codec empty header ≡ ok one
unfolding runs
appended = refl

new_archive-IsChain : IsChain codec 0 empty
new_archive-IsChain = empty-IsChain codec empty refl

append_header-put_body_example :
    (b : Archive chain ℕ) × (put_body codec one header body ≡ ok b)
    × IsChain codec (0 + 1) b
    × (get_height b ≡ 0 + 1)
    × (get_best_hash codec b ≡ header_hash codec header)
    × (get_header b (0 + 1) ≡ some header)
    × (get_body b (0 + 1) ≡ some body)
unfolding compute_merkle_root
append_header-put_body_example =
    append_header-put_body codec 0 empty one header body new_archive-IsChain (omega arith) refl
      appended

abbrev spend : ℕ → AuthorizedTransaction chain ℕ
spend amount = record {
  transaction = record { inputs = regular 7 0 ∷ regular 8 1 ∷ []; outputs = coin amount 4 ∷ [] };
  authorizations = 5 ∷ 6 ∷ [];
}

abbrev pool : Mempool chain ℕ
pool = record { transactions = []; spent_utxos = (regular 1 1, tt) ∷ [] }

abbrev pool' : Mempool chain ℕ
pool' = record {
  transactions = (102, spend 2) ∷ [];
  spent_utxos = (regular 1 1, tt) ∷ (regular 7 0, tt) ∷ (regular 8 1, tt) ∷ [];
}

added : insert codec pool (spend 2) ≡ ok pool'
unfolding runs
added = refl

remove_keeps_marks_example :
    insert codec (remove pool' (txid codec (spend 2).transaction)) (spend 3) ≡ err utxo_double_spent
unfolding contains OutPoint-discrete MainOutPoint-discrete ℕ_discrete
remove_keeps_marks_example =
    remove_keeps_marks codec pool pool' (spend 2) (spend 3) (regular 8 1) added refl refl

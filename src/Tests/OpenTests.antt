-- ===== src/Tests/OpenTests.antt =====
-- The theorem on the opening of databases, in an environment that is a list of names.
use ddk.Prelude.{
  ℕ, ◌≤◌, ◌≡◌, ◌↔◌, refl, true, false, List, [], ◌∷◌, length, Result, ok, err, arith, ltb,
}
use Prim.Native.String.{String}
use ddk.Databases.{Lmdb, new_node, new_state, new_archive, new_mempool}
use ddk.Databases.Room.{listed, LmdbLaw, create_all, new_node_iff}

abbrev open_database : ℕ × List String → String → Result ℕ (ℕ × List String)
open_database (room, names) name = elim (listed name names) [
  | true ↦ ok (room, names)
  | false ↦ elim (ltb (length names) room) [ true ↦ ok (room, name ∷ names) | false ↦ err 30791 ]
]

abbrev lmdb : Lmdb
lmdb = record {
  Error = ℕ;
  Env = ℕ × List String;
  open_env = λ n. ok (n, []);
  create_database = open_database;
}

lmdb-law : LmdbLaw lmdb
lmdb-law = record {
  room = λ env. env.0;
  names = λ env. env.1;
  opened = λ n env h. (ground arith, ground arith);
  creates = λ env name new space. ((env.0, name ∷ env.1), ground (arith, new), refl, refl);
  full = λ env name new none_left. (30791, ground (arith, new));
}

new_node_iff_example :
    ((env' : ℕ × List String) × (new_node lmdb 1 (create_all lmdb ("names" ∷ [])) (ok tt) (ok tt)
        ≡ ok env'))
    ↔ (1 ≤ 1)
new_node_iff_example = new_node_iff lmdb lmdb-law 1 ("names" ∷ []) (10, []) refl refl

-- All ten are open.
node-opens :
    new_node lmdb 1 (create_all lmdb ("names" ∷ [])) (ok tt) (ok tt)
    ≡ ok (
      10,
      "names" ∷ "spent_utxos" ∷ "transactions" ∷ "hash_to_height" ∷ "bodies" ∷ "headers"
          ∷ "last_deposit_block" ∷ "last_withdrawal_bundle_failure_height"
          ∷ "pending_withdrawal_bundle" ∷ "utxos" ∷ [],
    )
unfolding new_node new_state new_archive new_mempool create_all
node-opens = refl

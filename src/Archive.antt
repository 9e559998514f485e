-- ===== src/Archive.antt =====
-- The block archive of src/archive.rs: headers and bodies by height, and heights by header hash.
-- The four bytes of a stored height are the number that they read as. What heed itself may fail
-- with (`Error::Heed`) is not modelled.
pub mod Linked
pub mod Store
use ddk.Prelude.{
  ℕ, Option, none, some, Bool, not, ◌==◌, add32, Result, ok, err, ◌>>=◌, ◌>>◌, ok_or, fail_if,
}
use ddk.Table.{Table, get, put, last}
use ddk.Types.{Chain, Codec, Header, Body, Hash, header_hash, compute_merkle_root, number_key}

pub data Error : Type 0 where
  invalid_prev_side_hash : Error
  invalid_merkle_root : Error
  no_header : Hash → Error

pub record Archive (c : Chain) (A : Type 0) : Type 0 where
  pub headers : Table ℕ Header
  pub bodies : Table ℕ (Body c A)
  pub hash_to_height : Table Hash ℕ

module _ {c : Chain} {A : Type 0} where
  unfoldable pub get_header : Archive c A → ℕ → Option Header
  get_header a height = get height a.headers

  unfoldable pub get_body : Archive c A → ℕ → Option (Body c A)
  get_body a height = get height a.bodies

  unfoldable pub get_height : Archive c A → ℕ
  get_height a = elim (last a.headers) [ none ↦ 0 | some (height, _) ↦ height ]

  module _ (codec : Codec c) where
    unfoldable pub get_best_hash : Archive c A → Hash
    get_best_hash a = elim (last a.headers) [
      | none ↦ 0
      | some (_, header) ↦ header_hash codec header
    ]

    unfoldable pub put_body : Archive c A → Header → Body c A → Result Error (Archive c A)
    put_body a header body = do
      fail_if (not (header.merkle_root == compute_merkle_root codec body)) invalid_merkle_root
      let hash = header_hash codec header
      height ← ok_or (get hash a.hash_to_height) (no_header hash)
      ok (record a { bodies = put height body a.bodies })

    unfoldable pub append_header : Archive c A → Header → Result Error (Archive c A)
    unfolding get_height get_best_hash
    append_header a header = do
      let height = get_height a
      let best_hash = get_best_hash a
      fail_if (not (header.prev_side_hash == best_hash)) invalid_prev_side_hash
      let new_height = add32 height 1
      ok (record a {
        headers = put new_height header a.headers;
        hash_to_height = put (header_hash codec header) new_height a.hash_to_height;
      })

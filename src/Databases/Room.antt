-- ===== src/Databases/Room.antt =====
-- Whether there is room for all databases.
use ddk.Prelude.{
  ℕ, suc, ◌+◌, ◌≤◌, ◌<◌, ◌≡◌, ◌↔◌, refl, sym, ◌∙◌, ap, Bool, true, false, ◌&&◌, not, List, [], ◌∷◌,
  ◌++◌, length, Result, ok, err, ◌>>=◌, arith, inl, inr, Result-cases, Bool-cases, ltb, ltb→lt,
  not-ltb→le,
}
use mathlib.Core.Path.{subst}
use Prim.Native.String.{String}
use text.Mathlib.Text.{◌==◌}
use ddk.Databases.{
  Lmdb, new_state, new_archive, new_mempool, new_wallet, new_node, state_num_dbs, archive_num_dbs,
  mempool_num_dbs, wallet_num_dbs,
}

abbrev pub listed : String → List String → Bool
listed name [] = false
listed name (n ∷ ns) = elim (name == n) [ true ↦ true | false ↦ listed name ns ]

-- The names are not known, and none stands twice.
abbrev pub are_new : List String → List String → Bool
are_new known [] = true
are_new known (n ∷ ns) = not (listed n known) && are_new (n ∷ known) ns

-- What LMDB does: an environment has room for as many databases as were announced, a new name
-- takes up one place, and there is no place when all are taken.
pub record LmdbLaw (x : Lmdb) : Type 0 where
  pub room : x.Env → ℕ
  pub names : x.Env → List String
  pub opened : (n : ℕ) (env : x.Env) → x.open_env n ≡ ok env → (room env ≡ n) × (names env ≡ [])
  pub creates :
      (env : x.Env) (name : String)
      → listed name (names env) ≡ false
      → length (names env) < room env
      → (env' : x.Env) × (x.create_database env name ≡ ok env')
        × (room env' ≡ room env)
        × (names env' ≡ name ∷ names env)
  pub full :
      (env : x.Env) (name : String)
      → listed name (names env) ≡ false
      → room env ≤ length (names env)
      → (e : x.Error) × (x.create_database env name ≡ err e)

module _ (x : Lmdb) where
  -- databases that are opened one after the other
  unfoldable pub create_all : List String → x.Env → Result x.Error x.Env
  create_all [] env = ok env
  create_all (n ∷ ns) env = do env' ← x.create_database env n; create_all ns env'

module _ (x : Lmdb) (law : LmdbLaw x) where
  create_all_iff :
      (ns : List String) (env : x.Env)
      → are_new (law.names env) ns ≡ true
      → length (law.names env) ≤ law.room env
      → ((env' : x.Env) × (create_all x ns env ≡ ok env'))
        ↔ (length (law.names env) + length ns ≤ law.room env)
  unfolding create_all
  create_all_iff [] env new h = ((λ done. omega arith), (λ fits. (env, refl)))
  create_all_iff (n ∷ ns) env new h =
      let unknown : listed n (law.names env) ≡ false = ground arith in
      elim (Bool-cases (ltb (length (law.names env)) (law.room env))) [
        | inr small ↦
            let taken = not-ltb→le _ (law.room env) small in
            let (e, refused) = law.full env n unknown taken in
            (
              (λ (env', done). absurd (ground (arith, done, refused))),
              (λ fits. absurd (omega arith)),
            )
        | inl large ↦
            let (env1, made, same, known) = law.creates env n unknown (ltb→lt _ _ large) in
            let longer : length (law.names env1) ≡ suc (length (law.names env)) = ap length known in
            let rest =
              create_all_iff ns env1
                (subst (λ (k : List String). are_new k ns ≡ true) (sym known) (ground arith))
                (omega (arith, ltb→lt _ _ large)) in
            (
              (λ (env', done). let fits = rest.0 (env', ground (arith, done, made)) in omega arith),
              (λ fits.
                  let (env', done) = rest.1 (omega arith) in (env', ground (arith, done, made))),
            )
      ]

  create_all-append :
      (ms ns : List String) (env : x.Env)
      → create_all x (ms ++ ns) env ≡ (create_all x ms env >>= create_all x ns)
  unfolding create_all
  create_all-append [] ns env = refl
  create_all-append (m ∷ ms) ns env = elim (Result-cases (x.create_database env m)) [
    | inl (env', made) ↦ rw (made, create_all) (create_all-append ms ns env')
    | inr (e, refused) ↦ rw (refused, create_all) refl
  ]

  -- A step that opens databases, before others.
  then-create_all :
      (ms ns : List String) (step next : x.Env → Result x.Error x.Env)
      → ((env : x.Env) → create_all x ms env ≡ step env)
      → ((env : x.Env) → next env ≡ create_all x ns env)
      → (env : x.Env) → (step env >>= next) ≡ create_all x (ms ++ ns) env
  then-create_all ms ns step next first rest env = elim (Result-cases (create_all x ms env)) [
    | inl (env', made) ↦ rw (create_all-append ms ns env, made, sym (first env) ∙ made) (rest env')
    | inr (e, refused) ↦ rw (create_all-append ms ns env, refused, sym (first env) ∙ refused) refl
  ]

-- The databases of the node's parts.
abbrev pub state_databases : List String
state_databases =
    "utxos" ∷ "pending_withdrawal_bundle" ∷ "last_withdrawal_bundle_failure_height"
    ∷ "last_deposit_block" ∷ []

abbrev pub archive_databases : List String
archive_databases = "headers" ∷ "bodies" ∷ "hash_to_height" ∷ []

abbrev pub mempool_databases : List String
mempool_databases = "transactions" ∷ "spent_utxos" ∷ []

abbrev pub node_databases : List String → List String
node_databases cs = state_databases ++ (archive_databases ++ (mempool_databases ++ cs))

module _ (x : Lmdb) (law : LmdbLaw x) where
  new_node-create_all :
      (custom_num_dbs : ℕ) (cs : List String) (env : x.Env)
      → x.open_env (state_num_dbs + custom_num_dbs + archive_num_dbs + mempool_num_dbs) ≡ ok env
      → new_node x custom_num_dbs (create_all x cs) (ok tt) (ok tt)
        ≡ create_all x (node_databases cs) env
  unfolding new_node new_state new_archive new_mempool create_all
  new_node-create_all custom_num_dbs cs env opens = rw opens (
      then-create_all x law state_databases (archive_databases ++ (mempool_databases ++ cs))
        (new_state x) _ (λ e. refl)
        (then-create_all x law archive_databases (mempool_databases ++ cs) (new_archive x) _
          (λ e. refl)
          (then-create_all x law mempool_databases cs (new_mempool x) _ (λ e. refl) (λ e. refl)))
        env)

  -- If an environment has room for as many databases as were announced, it opens, the drivechain
  -- connection and the endpoints are made, and the sidechain's own state opens databases with new
  -- names, then the node opens exactly when these are no more than that state announces: the other
  -- parts together announce as many as they open.
  pub new_node_iff :
      (custom_num_dbs : ℕ) (cs : List String) (env : x.Env)
      → x.open_env (state_num_dbs + custom_num_dbs + archive_num_dbs + mempool_num_dbs) ≡ ok env
      → are_new [] (node_databases cs) ≡ true
      → ((env' : x.Env) × (new_node x custom_num_dbs (create_all x cs) (ok tt) (ok tt) ≡ ok env'))
        ↔ (length cs ≤ custom_num_dbs)
  new_node_iff custom_num_dbs cs env opens new =
      let (large, empty) = law.opened _ env opens in
      let none_open : length (law.names env) ≡ 0 = ap length empty in
      let (enough, succeeds) =
        create_all_iff x law (node_databases cs) env (rw empty new) (omega arith) in
      rw (new_node-create_all custom_num_dbs cs env opens)
        ((λ done. let fits = enough done in omega arith), (λ fits. succeeds (omega arith)))

  -- On its own the pool announces fewer databases than it opens.
  pub new_mempool-full :
      (env : x.Env)
      → x.open_env mempool_num_dbs ≡ ok env
      → (e : x.Error) × (new_mempool x env ≡ err e)
  unfolding new_mempool create_all
  new_mempool-full env opens =
      let (large, empty) = law.opened _ env opens in
      let none_open : length (law.names env) ≡ 0 = ap length empty in
      let (enough, succeeds) =
        create_all_iff x law mempool_databases env (rw empty refl) (omega arith) in
      elim (Result-cases (new_mempool x env)) [
        | inl (env', done) ↦ let fits = enough (env', done) in absurd (omega arith)
        | inr refused ↦ refused
      ]

  -- The wallet has room for one database more than it opens.
  new_wallet-opens :
      (env : x.Env) → x.open_env wallet_num_dbs ≡ ok env → (env' : x.Env) × (new_wallet x ≡ ok env')
  unfolding new_wallet create_all
  new_wallet-opens env opens =
      let (large, empty) = law.opened _ env opens in
      let none_open : length (law.names env) ≡ 0 = ap length empty in
      let (enough, succeeds) =
        create_all_iff x law ("seed" ∷ "address_to_index" ∷ "index_to_address" ∷ "utxos" ∷ []) env
          (rw empty refl) (omega arith) in
      rw opens (succeeds (omega arith))

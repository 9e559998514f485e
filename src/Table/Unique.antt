-- ===== src/Table/Unique.antt =====
-- Tables in which no key stands twice.
use ddk.Prelude.{◌≡◌, ◌≢◌, sym, ap, ◌∙◌, some, List, [], ◌∷◌, arith, All, All-perm}
use ddk.Table.{Key, Table, get, put, delete, put_all, delete_all}
use mathlib.Core.List.{Permᴰ}
use mathlib.Core.Path.{subst}
use mathlib.Core.Logic.{if_pos, if_neg}

module _ {K V : Type 0} where
  -- The key stands in no entry.
  abbrev pub Lacks : K → List (K × V) → Type 0
  Lacks k t = All (λ e. k ≢ e.0) t

  abbrev pub UniqueKeys : List (K × V) → Type 0
  UniqueKeys [] = Unit
  UniqueKeys (e ∷ t) = Lacks e.0 t × UniqueKeys t

  pub UniqueKeys-perm : {l m : List (K × V)} → Permᴰ l m → UniqueKeys l → UniqueKeys m
  UniqueKeys-perm Permᴰ.nil h = h
  UniqueKeys-perm (Permᴰ.cons {l₂ = m} e d) h =
      (subst (λ (x : K × V). Lacks x.0 m) e (All-perm (λ x. _ ≢ x.0) d h.0), UniqueKeys-perm d h.1)
  UniqueKeys-perm (Permᴰ.swap {l = l} e₁ e₂) h = (
    (
      (λ k. h.0.0 (ap (λ (x : K × V). x.0) e₁ ∙ sym k ∙ sym (ap (λ (x : K × V). x.0) e₂))),
      subst (λ (x : K × V). Lacks x.0 l) e₂ h.1.0,
    ),
    (subst (λ (x : K × V). Lacks x.0 l) e₁ h.0.1, h.1.1),
  )
  UniqueKeys-perm (Permᴰ.trans d₁ d₂) h = UniqueKeys-perm d₂ (UniqueKeys-perm d₁ h)

module _ {K V : Type 0} ⦃e : Key K⦄ where
  Lacks-put : (j k : K) (v : V) (t : Table K V) → j ≢ k → Lacks j t → Lacks j (put k v t)
  unfolding put
  Lacks-put j k v [] ne h = (ne, tt)
  Lacks-put j k v ((i, w) ∷ t) ne h = elim (e.discrete k i) [
    | yes same ↦ rw (if_pos _ same) (ne, h.1)
    | no other ↦ rw (if_neg _ other) (h.0, Lacks-put j k v t ne h.1)
  ]

  -- A write keeps the keys unique.
  pub put-UniqueKeys : (k : K) (v : V) (t : Table K V) → UniqueKeys t → UniqueKeys (put k v t)
  unfolding put
  put-UniqueKeys k v [] h = (tt, tt)
  put-UniqueKeys k v ((i, w) ∷ t) h = elim (e.discrete k i) [
    | yes same ↦ rw (if_pos _ same) (rw (sym same) at h.0, h.1)
    | no other ↦
        rw (if_neg _ other) (Lacks-put i k v t (λ p. other (sym p)) h.0, put-UniqueKeys k v t h.1)
  ]

  Lacks-delete : (j k : K) (t : Table K V) → Lacks j t → Lacks j (delete k t)
  unfolding delete
  Lacks-delete j k [] h = tt
  Lacks-delete j k ((i, w) ∷ t) h = elim (e.discrete k i) [
    | yes same ↦ rw (if_pos _ same) (Lacks-delete j k t h.1)
    | no other ↦ rw (if_neg _ other) (h.0, Lacks-delete j k t h.1)
  ]

  -- So does a deletion, and so do the loops over either.
  pub delete-UniqueKeys : (k : K) (t : Table K V) → UniqueKeys t → UniqueKeys (delete k t)
  unfolding delete
  delete-UniqueKeys k [] h = tt
  delete-UniqueKeys k ((i, w) ∷ t) h = elim (e.discrete k i) [
    | yes same ↦ rw (if_pos _ same) (delete-UniqueKeys k t h.1)
    | no other ↦ rw (if_neg _ other) (Lacks-delete i k t h.0, delete-UniqueKeys k t h.1)
  ]

  pub put_all-UniqueKeys :
      (l : List (K × V)) (t : Table K V) → UniqueKeys t → UniqueKeys (put_all l t)
  unfolding put_all
  put_all-UniqueKeys [] t h = h
  put_all-UniqueKeys ((k, v) ∷ l) t h = put_all-UniqueKeys l (put k v t) (put-UniqueKeys k v t h)

  pub delete_all-UniqueKeys :
      (ks : List K) (t : Table K V) → UniqueKeys t → UniqueKeys (delete_all ks t)
  unfolding delete_all
  delete_all-UniqueKeys [] t h = h
  delete_all-UniqueKeys (k ∷ ks) t h =
      delete_all-UniqueKeys ks (delete k t) (delete-UniqueKeys k t h)

  Lacks-weaken :
      (k : K) (v : V) (t l : List (K × V))
      → Lacks k l
      → All (λ p. get p.0 t ≡ some p.1) l
      → All (λ p. get p.0 ((k, v) ∷ t) ≡ some p.1) l
  unfolding get
  Lacks-weaken k v t [] a h = tt
  Lacks-weaken k v t (p ∷ l) a h = (ground (arith, h.0, a.0), Lacks-weaken k v t l a.1 h.1)

  -- Every entry of such a table is the one under its key.
  pub UniqueKeys-get : (t : Table K V) → UniqueKeys t → All (λ p. get p.0 t ≡ some p.1) t
  unfolding get
  UniqueKeys-get [] h = tt
  UniqueKeys-get ((k, v) ∷ t) h = (ground arith, Lacks-weaken k v t t h.0 (UniqueKeys-get t h.1))

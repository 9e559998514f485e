-- ===== src/Prelude/Perms.antt =====
-- What a permutation keeps: sums, and what holds of every element.
use Prim.Native.Nat.{ℕ}
use mathlib.Core.Path.{◌≡◌, refl, subst, ◌∙◌}
use mathlib.Core.List.{List, [], ◌∷◌, map}
use mathlib.Core.List.{Permᴰ}
use native.Mathlib.Omega.{arith}
use ddk.Prelude.Words.{sum}
use ddk.Prelude.Lists.{All, length}

module _ {A : Type 0} where
  pub sum-perm : (f : A → ℕ) {xs ys : List A} → Permᴰ xs ys → sum (map f xs) ≡ sum (map f ys)
  sum-perm f Permᴰ.nil = refl
  sum-perm f (Permᴰ.cons {l₁ = xs} {l₂ = ys} e d) = grind (arith, sum-perm f d)
  sum-perm f (Permᴰ.swap e₁ e₂) = grind arith
  sum-perm f (Permᴰ.trans d₁ d₂) = sum-perm f d₁ ∙ sum-perm f d₂

  pub All-perm : (P : A → Type 0) {xs ys : List A} → Permᴰ xs ys → All P xs → All P ys
  All-perm P Permᴰ.nil h = h
  All-perm P (Permᴰ.cons e d) h = (subst P e h.0, All-perm P d h.1)
  All-perm P (Permᴰ.swap e₁ e₂) h = (subst P e₂ h.1.0, (subst P e₁ h.0, h.1.1))
  All-perm P (Permᴰ.trans d₁ d₂) h = All-perm P d₂ (All-perm P d₁ h)

  ones : (xs : List A) → length xs ≡ sum (map (λ (x : A). 1) xs)
  ones [] = refl
  ones (x ∷ xs) = omega (arith, ones xs)

  pub length-perm : {xs ys : List A} → Permᴰ xs ys → length xs ≡ length ys
  length-perm {xs} {ys} d = omega (arith, sum-perm (λ (x : A). 1) d, ones xs, ones ys)

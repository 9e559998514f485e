-- ===== src/Prelude/Words.antt =====
-- Machine words: `u64` sums and `u32` counters, which wrap round as in a release build.
use Prim.Native.Nat.{ℕ, zero, suc, ◌+◌, ◌-◌, ◌/◌, ◌%◌, ◌^◌, ◌<◌}
use mathlib.Core.Path.{◌≡◌}
use mathlib.Core.List.{List, [], ◌∷◌, ◌++◌}
use native.Mathlib.Omega.{arith}

abbrev pub u64_mod : ℕ
u64_mod = 2 ^ 64

abbrev pub u32_mod : ℕ
u32_mod = 2 ^ 32

-- `a + b` on `u64`
abbrev pub add64 : ℕ → ℕ → ℕ
add64 a b = (a + b) % u64_mod

-- `a - b` on `u64`
abbrev pub sub64 : ℕ → ℕ → ℕ
sub64 a b = (a + u64_mod - b) % u64_mod

-- `a + b` on `u32`
abbrev pub add32 : ℕ → ℕ → ℕ
add32 a b = (a + b) % u32_mod

-- `a - b` on `u32`
abbrev pub sub32 : ℕ → ℕ → ℕ
sub32 a b = (a + u32_mod - b) % u32_mod

-- A `for` loop that adds up, and `Iterator::sum`: from the left, on `u64`.
unfoldable pub sum64_from : ℕ → List ℕ → ℕ
sum64_from acc [] = acc
sum64_from acc (x ∷ xs) = sum64_from (add64 acc x) xs

-- The mathematical sum.
abbrev pub sum : List ℕ → ℕ
sum [] = 0
sum (x ∷ xs) = x + sum xs

pub sum-append : (xs ys : List ℕ) → sum (xs ++ ys) ≡ sum xs + sum ys
sum-append [] ys = omega arith
sum-append (x ∷ xs) ys = omega (arith, sum-append xs ys)

-- What the loop computes, whatever overflows on the way.
pub sum64_from-mod :
    (acc : ℕ) (xs : List ℕ) → acc < u64_mod → sum64_from acc xs ≡ (acc + sum xs) % u64_mod
unfolding sum64_from
sum64_from-mod acc [] h = omega arith
sum64_from-mod acc (x ∷ xs) h = omega (arith, sum64_from-mod (add64 acc x) xs (omega arith))

-- A sum that fits the word is the mathematical sum.
pub sum64-eq-sum : (xs : List ℕ) → sum xs < u64_mod → sum64_from 0 xs ≡ sum xs
sum64-eq-sum xs h = omega (arith, sum64_from-mod 0 xs (omega arith))

-- `to_le_bytes`: the `n` low bytes, lowest first
pub le_bytes : ℕ → ℕ → List ℕ
le_bytes zero x = []
le_bytes (suc n) x = (x % 256) ∷ le_bytes n (x / 256)

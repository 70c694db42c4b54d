-- ===== src/Base/Bytes.antt =====
-- Byte strings: equality, membership in a set of strings, C strings, and a stream of `rand()`.
use Prim.Native.Nat.{ℕ, zero, suc}
use Prim.Native.Char.{code}
use Prim.Native.String.{String}
use mathlib.Core.Path.{◌≡◌, refl}
use mathlib.Core.Bool.{Bool, true, false, ◌&&◌, ◌||◌}
use mathlib.Core.List.{List, [], ◌∷◌}
use native.Mathlib.Omega.{arith}
use lproxy.Base.Tests.{◌==◌, if◌then◌else◌}
use lproxy.Base.Lists.{length}

unfoldable pub bytes_eq : List ℕ → List ℕ → Bool
bytes_eq [] [] = true
bytes_eq [] (y ∷ ys) = false
bytes_eq (x ∷ xs) [] = false
bytes_eq (x ∷ xs) (y ∷ ys) = x == y && bytes_eq xs ys

pub bytes_eq_refl : (xs : List ℕ) → bytes_eq xs xs ≡ true
unfolding bytes_eq
bytes_eq_refl [] = refl
bytes_eq_refl (x ∷ xs) = ground (arith, bytes_eq_refl xs)

pub bytes_eq→eq : (xs ys : List ℕ) → bytes_eq xs ys ≡ true → xs ≡ ys
unfolding bytes_eq
bytes_eq→eq [] [] h = refl
bytes_eq→eq [] (y ∷ ys) h = cc
bytes_eq→eq (x ∷ xs) [] h = cc
bytes_eq→eq (x ∷ xs) (y ∷ ys) h = ground (arith, bytes_eq→eq xs ys)

pub bytes_eq_sym : (xs ys : List ℕ) → bytes_eq xs ys ≡ bytes_eq ys xs
unfolding bytes_eq
bytes_eq_sym [] [] = refl
bytes_eq_sym [] (y ∷ ys) = refl
bytes_eq_sym (x ∷ xs) [] = refl
bytes_eq_sym (x ∷ xs) (y ∷ ys) = ground (arith, bytes_eq_sym xs ys)

-- The code points of a literal; its bytes, if it is ASCII.
abbrev pub codes : String → List ℕ
codes String.[] = []
codes (String.◌∷◌ c s) = code c ∷ codes s

-- `set.find(key) != set.end()`.
unfoldable pub contains : List (List ℕ) → List ℕ → Bool
contains [] key = false
contains (k ∷ ks) key = bytes_eq k key || contains ks key

-- The characters before the first NUL.
unfoldable pub c_string : List ℕ → List ℕ
c_string [] = []
c_string (x ∷ xs) = if x == 0 then [] else x ∷ c_string xs

-- `length` values of a stream, each through `f`.
unfoldable pub generate : (ℕ → ℕ) → ℕ → (ℕ → ℕ) → List ℕ
generate rand zero f = []
generate rand (suc n) f = f (rand 0) ∷ generate (λ i. rand (suc i)) n f

pub length-generate : (rand : ℕ → ℕ) (n : ℕ) (f : ℕ → ℕ) → length (generate rand n f) ≡ n
unfolding generate
length-generate rand zero f = refl
length-generate rand (suc n) f = omega (arith, length-generate (λ i. rand (suc i)) n f)

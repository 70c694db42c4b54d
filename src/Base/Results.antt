-- ===== src/Base/Results.antt =====
-- What a C++ call ends in: a value, a thrown exception, or undefined behaviour.
use Prim.Native.Nat.{ℕ, zero, suc, ◌+◌}
use native.Mathlib.Omega.{arith}
use mathlib.Core.Path.{◌≡◌}
use mathlib.Core.Bool.{Bool, true, false}
use mathlib.Core.List.{List, [], ◌∷◌, ◌++◌}
use lproxy.Base.Tests.{ltb, leb, le→leb, if◌then◌else◌}
use lproxy.Base.Lists.{
  length, take, drop, get_or, length-append, drop-length-append, take-length-append,
}

-- `fault` is an access outside of a buffer, or through a null pointer.
pub data Outcome {ℓ} (E : Type 0) (A : Type ℓ) : Type ℓ where
  ok : A → Outcome E A
  throw : E → Outcome E A
  fault : Outcome E A

infixl 5 ◌>>=◌ ◌>>◌
abbrev pub ◌>>=◌ {ℓ κ} :
    {E : Type 0} {A : Type ℓ} {B : Type κ} → Outcome E A → (A → Outcome E B) → Outcome E B
ok a >>= f = f a
throw e >>= f = throw e
fault >>= f = fault

abbrev pub ◌>>◌ {ℓ} : {E : Type 0} {B : Type ℓ} → Outcome E (Unit {0}) → Outcome E B → Outcome E B
m >> k = m >>= λ _. k

module _ {E : Type 0} where
  -- `if (! test) { throw e; }`
  abbrev pub guard : Bool → E → Outcome E (Unit {0})
  guard true e = ok tt
  guard false e = throw e

  -- `*(data_p + i)`, for a buffer of which the caller vouches for the bytes of `buf`.
  unfoldable pub byte_at : List ℕ → ℕ → Outcome E ℕ
  byte_at buf i = if ltb i (length buf) then ok (get_or buf i 0) else fault

  -- The range from `data_p + i` to `data_p + i + n`.
  unfoldable pub bytes_at : List ℕ → ℕ → ℕ → Outcome E (List ℕ)
  bytes_at buf i n = if leb (i + n) (length buf) then ok (take n (drop i buf)) else fault

  -- A byte, and a range, at a place that is known by what stands before it.
  pub byte_at-append :
      (pre : List ℕ) (x : ℕ) (post : List ℕ) (i : ℕ)
      → i ≡ length pre
      → byte_at (pre ++ x ∷ post) i ≡ ok x
  unfolding byte_at
  byte_at-append [] x post i h = rw h (ground arith)
  byte_at-append (y ∷ pre) x post zero h = absurd (omega arith)
  byte_at-append (y ∷ pre) x post (suc i) h =
      let ih = byte_at-append pre x post i (omega arith) in ground arith

  -- The byte behind it.
  pub byte_at-append' :
      (pre : List ℕ) (x y : ℕ) (post : List ℕ) (i : ℕ)
      → i ≡ suc (length pre)
      → byte_at (pre ++ x ∷ y ∷ post) i ≡ ok y
  unfolding byte_at
  byte_at-append' [] x y post i h = rw h (ground arith)
  byte_at-append' (z ∷ pre) x y post zero h = absurd (omega arith)
  byte_at-append' (z ∷ pre) x y post (suc i) h =
      let ih = byte_at-append' pre x y post i (omega arith) in ground arith

  pub bytes_at-append :
      (pre mid post : List ℕ) (i n : ℕ)
      → i ≡ length pre
      → n ≡ length mid
      → bytes_at (pre ++ (mid ++ post)) i n ≡ ok mid
  unfolding bytes_at
  bytes_at-append pre mid post i n h k = rw (
    h,
    k,
    drop-length-append pre (mid ++ post),
    take-length-append mid post,
    le→leb (length pre + length mid) (length (pre ++ (mid ++ post)))
        (omega (arith, length-append pre (mid ++ post), length-append mid post)),
  )

-- ===== src/Base/Bits.antt =====
-- Exclusive or of numbers, from its binary digits.
use Prim.Native.Nat.{
  ℕ, zero, suc, ◌+◌, ◌*◌, ◌/◌, ◌%◌, ◌≤◌, ◌<◌, bit_xor, digits, differ, bit_xor-bitwise,
}
use mathlib.Core.Path.{◌≡◌, refl, sym}
use native.Mathlib.Omega.{arith}

differ_lem : (a b : ℕ) → a < 2 → b < 2 → differ a b ≡ (a + b) % 2
differ_lem zero zero p q = refl
differ_lem zero (suc zero) p q = refl
differ_lem (suc zero) zero p q = refl
differ_lem (suc zero) (suc zero) p q = refl
differ_lem zero (suc (suc b)) p q = absurd (omega arith)
differ_lem (suc zero) (suc (suc b)) p q = absurd (omega arith)
differ_lem (suc (suc a)) b p q = absurd (omega arith)

no_digits : (b : ℕ) → bit_xor 0 b ≡ b
no_digits b = bit_xor-bitwise 0 b

-- Any count of digits to go that is not below the first number gives the same.
enough :
    (top count a b : ℕ)
    → count ≤ top
    → a ≤ count
    → digits (λ rest. rest) differ count a b ≡ bit_xor a b
enough top zero zero b h le = sym (no_digits b)
enough top (suc count) zero b h le = sym (no_digits b)
enough top zero (suc a) b h le = absurd (omega (arith, le))
enough zero (suc count) (suc a) b h le = absurd (omega (arith, h))
enough (suc top) (suc count) (suc a) b h le = omega (
  arith,
  enough top count (suc a / 2) (b / 2) (omega (arith, h)) (omega (arith, le)),
  enough top a (suc a / 2) (b / 2) (omega (arith, h, le)) (omega arith),
  bit_xor-bitwise (suc a) b,
)

-- The lowest digit and the others.
bit_xor_step : (a b : ℕ) → bit_xor a b ≡ bit_xor (a / 2) (b / 2) * 2 + (a % 2 + b % 2) % 2
bit_xor_step zero b = omega (arith, no_digits (b / 2), no_digits b)
bit_xor_step (suc a) b =
    let low = differ_lem (suc a % 2) (b % 2) (omega arith) (omega arith) in
    let high = enough a a (suc a / 2) (b / 2) (omega arith) (omega arith) in
    omega (arith, low, high, bit_xor-bitwise (suc a) b)

half-bit_xor : (a b : ℕ) → bit_xor a b / 2 ≡ bit_xor (a / 2) (b / 2)
half-bit_xor a b = omega (arith, bit_xor_step a b)

cancel_fuel : (n a k : ℕ) → a ≤ n → k ≤ n → bit_xor (bit_xor a k) k ≡ a
cancel_fuel zero zero zero p q = refl
cancel_fuel zero (suc a) k p q = absurd (omega arith)
cancel_fuel zero zero (suc k) p q = absurd (omega arith)
cancel_fuel (suc n) a k p q =
    let ih = cancel_fuel n (a / 2) (k / 2) (omega arith) (omega arith) in
    let step : bit_xor (bit_xor a k) k
        ≡ bit_xor (bit_xor (a / 2) (k / 2)) (k / 2) * 2 + (bit_xor a k % 2 + k % 2) % 2 =
      rw (← half-bit_xor a k) (bit_xor_step (bit_xor a k) k) in
    omega (arith, ih, step, bit_xor_step a k)

-- The same key twice leaves the number.
pub bit_xor_cancel : (a k : ℕ) → bit_xor (bit_xor a k) k ≡ a
bit_xor_cancel a k = cancel_fuel (a + k) a k (omega arith) (omega arith)

shared_fuel :
    (n a b k : ℕ) → a ≤ n → b ≤ n → k ≤ n → bit_xor (bit_xor a k) (bit_xor b k) ≡ bit_xor a b
shared_fuel zero zero zero zero p q r = refl
shared_fuel zero (suc a) b k p q r = absurd (omega arith)
shared_fuel zero zero (suc b) k p q r = absurd (omega arith)
shared_fuel zero zero zero (suc k) p q r = absurd (omega arith)
shared_fuel (suc n) a b k p q r =
    let ih = shared_fuel n (a / 2) (b / 2) (k / 2) (omega arith) (omega arith) (omega arith) in
    let step : bit_xor (bit_xor a k) (bit_xor b k)
        ≡ bit_xor (bit_xor (a / 2) (k / 2)) (bit_xor (b / 2) (k / 2)) * 2
          + (bit_xor a k % 2 + bit_xor b k % 2) % 2 =
      rw (← half-bit_xor a k, ← half-bit_xor b k) (bit_xor_step (bit_xor a k) (bit_xor b k)) in
    omega (arith, ih, step, bit_xor_step a k, bit_xor_step b k, bit_xor_step a b)

-- A key that two numbers share falls out of their exclusive or.
pub bit_xor_shared : (a b k : ℕ) → bit_xor (bit_xor a k) (bit_xor b k) ≡ bit_xor a b
bit_xor_shared a b k = shared_fuel (a + b + k) a b k (omega arith) (omega arith) (omega arith)

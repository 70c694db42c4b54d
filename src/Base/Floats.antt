-- ===== src/Base/Floats.antt =====
-- `float` of IEEE 754 on the numbers that are not negative: a fraction with 24 significant bits,
-- rounded to the nearest, ties to the even. Exponents of up to 200 binary places are in the range.
use Prim.Native.Nat.{ℕ, zero, suc, ◌+◌, ◌*◌, ◌/◌, ◌%◌, ◌^◌}
use mathlib.Core.Bool.{◌||◌, ◌&&◌}
use lproxy.Base.Tests.{ltb, ◌==◌, if◌then◌else◌}

pub record Float : Type 0 where
  pub num : ℕ
  pub den : ℕ

-- `num / den` to the nearest whole number.
unfoldable pub nearest : ℕ → ℕ → ℕ
nearest num den =
    let q = num / den in
    let twice = num % den * 2 in if ltb den twice || (twice == den && q % 2 == 1) then q + 1 else q

-- Where the fraction is less than `2 ^ 24`, it is made greater by powers of two until it is not less
-- than `2 ^ 23`.
unfoldable pub small : ℕ → ℕ → ℕ → ℕ → Float
unfolding nearest
small zero num den places = record { num = nearest num den; den = places }
small (suc fuel) num den places =
    let more = small fuel (num * 2) den (places * 2) in
    if ltb num (den * 2 ^ 23) then more else record { num = nearest num den; den = places }

-- Where it is not less than `2 ^ 24`, it is made smaller.
unfoldable pub large : ℕ → ℕ → ℕ → ℕ → Float
unfolding nearest
large zero num den factor = record { num = nearest num den * factor; den = 1 }
large (suc fuel) num den factor =
    let more = large fuel num (den * 2) (factor * 2) in
    if ltb num (den * 2 ^ 24) then record { num = nearest num den * factor; den = 1 } else more

unfoldable pub rounded : ℕ → ℕ → Float
unfolding small large
rounded num den = if ltb num (den * 2 ^ 24) then small 200 num den 1 else large 200 num den 1

unfoldable pub to_float : ℕ → Float
unfolding rounded
to_float n = rounded n 1

unfoldable pub float_add : Float → Float → Float
unfolding rounded
float_add a b = rounded (a.num * b.den + b.num * a.den) (a.den * b.den)

unfoldable pub float_div : Float → Float → Float
unfolding rounded
float_div a b = rounded (a.num * b.den) (a.den * b.num)

-- The cast to a whole number.
unfoldable pub truncated : Float → ℕ
truncated a = a.num / a.den

-- ===== src/Float/Fixed.antt =====
-- An instance of `Float`, for the examples: integers that count units of 1e-9. A power is taken
-- with the whole part of its exponent, and overflows past 2 ^ 1000.
pub mod Ordered
pub mod Rounded
use mathlib.Core.List.{foldl}
use hackathon_nu.Base.{
  ℕ, zero, suc, ◌+◌, ◌-◌, ◌*◌, ◌/◌, ◌^◌, ◌≤◌, ◌<◌, ◌≡◌, refl, inl, inr, Bool, Option, some, none,
  List, arith, ltb, leb, nat_beq, if◌then◌else◌, ◌&&◌,
}
use hackathon_nu.Base.Int.{
  ℤ, pos, negsuc, pos_part, neg_part, ◌+ℤ◌, ◌-ℤ◌, +ℤ_parts, -ℤ_parts, ltb_ℤ,
}
use hackathon_nu.Float.Defs.{Float}

abbrev scale : ℕ
scale = 1_000_000_000

negate : ℕ → ℤ
negate zero = pos zero
negate (suc n) = negsuc n

unfoldable pub leb_ℤ : ℤ → ℤ → Bool
leb_ℤ a b = leb (pos_part a + neg_part b) (pos_part b + neg_part a)

unfoldable pub mul : ℤ → ℤ → ℤ
unfolding negate
mul (pos x) (pos y) = pos (x * y / scale)
mul (pos x) (negsuc y) = negate (x * suc y / scale)
mul (negsuc x) (pos y) = negate (suc x * y / scale)
mul (negsuc x) (negsuc y) = pos (suc x * suc y / scale)

unfoldable pub div : ℤ → ℤ → Option ℤ
unfolding negate
div a (pos zero) = none
div (pos x) (pos (suc y)) = some (pos (x * scale / suc y))
div (negsuc x) (pos (suc y)) = some (negate (suc x * scale / suc y))
div (pos x) (negsuc y) = some (negate (x * scale / suc y))
div (negsuc x) (negsuc y) = some (pos (suc x * scale / suc y))

whole_pow : ℤ → ℕ → ℤ
unfolding mul
whole_pow a zero = pos scale
whole_pow a (suc n) = mul a (whole_pow a n)

unfoldable pub pow : ℤ → ℤ → Option ℤ
unfolding whole_pow
pow a (pos k) =
    let n = k / scale in if ltb_ℤ (pos scale) a && ltb 1000 n then none else some (whole_pow a n)
pow a (negsuc k) = none

unfoldable pub abs : ℤ → ℤ
abs (pos n) = pos n
abs (negsuc n) = pos (suc n)

unfoldable pub isclose : ℤ → ℤ → ℤ → Bool
unfolding leb_ℤ abs ◌-ℤ◌
isclose a b t = leb_ℤ (abs (a -ℤ b)) t

abbrev pub sum : List ℤ → ℤ
sum = foldl ◌+ℤ◌ (pos 0)

-- units of the last decimal that is kept; the code rounds to 2, 4 and 6 decimals
unit : ℕ → ℕ
unit n =
    if nat_beq n 2
    then 10_000_000
    else if nat_beq n 4
    then 100_000
    else if nat_beq n 6
    then 1000
    else 1

unfoldable pub round : ℤ → ℕ → ℤ
unfolding unit negate
round (pos x) n = pos ((x + unit n / 2) / unit n * unit n)
round (negsuc x) n = negate ((suc x + unit n / 2) / unit n * unit n)

unfoldable pub trunc : ℤ → Option ℕ
trunc (pos x) = some (x / scale)
trunc (negsuc x) = none

instance abbrev pub fixed_float : Float ℤ
fixed_float = record {
  lt = ltb_ℤ;
  le = leb_ℤ;
  add = ◌+ℤ◌;
  sub = ◌-ℤ◌;
  mul = mul;
  div = div;
  pow = pow;
  abs = abs;
  isclose = isclose;
  sum = sum;
  trunc = trunc;
  round = round;
  lit = λ m e. pos (m * 10 ^ (9 - e));
}

-- Opens every operation of the instance.
unfoldable pub fixed_ops : ℕ
unfolding leb_ℤ ◌+ℤ◌ ◌-ℤ◌ mul div pow abs round trunc isclose
fixed_ops = 0

-- ===== src/Float/Fixed/Rounded.antt =====
-- The instance meets the laws of rounding.
use native.Mathlib.Nat.{mul_comm as mul-comm_nat}
use hackathon_nu.Base.{
  ◌-◌, ◌^◌, ap, none, ℕ, zero, suc, ◌+◌, ◌*◌, ◌/◌, ◌≤◌, ◌<◌, ◌≡◌, refl, sym, ◌∙◌, subst, arith,
  some,
}
use hackathon_nu.Base.Int.{ℤ, pos, negsuc, ◌+ℤ◌, ◌-ℤ◌}
use hackathon_nu.Float.Defs.{◌≼◌, ◌≺◌, zero_f, one_f}
use hackathon_nu.Float.Fixed.Ordered.{scale_lt}
use mathlib.Core.Option.{some-injective}
use hackathon_nu.Float.Laws.{IsRounded}
use hackathon_nu.Float.Fixed.{
  leb_ℤ, mul, div, pow, abs, round, unit, whole_pow, trunc, negate, scale, fixed_float,
}

add_nonneg : (a b : ℤ) → zero_f ≼ a → zero_f ≼ b → (a ≼ (a +ℤ b)) × (b ≼ (a +ℤ b))
unfolding leb_ℤ ◌+ℤ◌
add_nonneg a b h k = ground arith

-- a * b / scale, for a factor a up to one
scaled-le : (x y : ℕ) → x ≤ scale → y * x / scale ≤ y
scaled-le x y h = grind arith

mul_unit : (a b : ℤ) → zero_f ≼ a → a ≼ one_f → zero_f ≼ b → (zero_f ≼ mul b a) × (mul b a ≼ b)
unfolding leb_ℤ mul
mul_unit (pos x) (pos y) h k l = ground (arith, scaled-le x y)
mul_unit (negsuc x) b h k l = ground arith
mul_unit (pos x) (negsuc y) h k l = ground arith

mul_nonneg : (a : ℤ) (c : ℕ) → zero_f ≼ a → zero_f ≼ mul a (pos c)
unfolding leb_ℤ mul
mul_nonneg (pos x) c h = ground arith
mul_nonneg (negsuc x) c h = ground arith

sub_nonneg : (a : ℤ) (c : ℕ) → pos c ≼ a → zero_f ≼ (a -ℤ pos c)
unfolding leb_ℤ ◌-ℤ◌
sub_nonneg a c h = ground arith

sub_le : (a b : ℤ) → zero_f ≼ b → (a -ℤ b) ≼ a
unfolding leb_ℤ ◌-ℤ◌
sub_le a b h = ground arith

abs_nonneg : (a : ℤ) → zero_f ≼ abs a
unfolding leb_ℤ abs
abs_nonneg (pos n) = ground arith
abs_nonneg (negsuc n) = ground arith

div_raises : (a b : ℤ) → div a b ≡ none → b ≼ zero_f
unfolding div leb_ℤ
div_raises a (pos zero) h = refl
div_raises (pos x) (pos (suc y)) h = cc
div_raises (negsuc x) (pos (suc y)) h = cc
div_raises (pos x) (negsuc y) h = cc
div_raises (negsuc x) (negsuc y) h = cc

nat_mul_comm : (x y : ℕ) → x * y / scale ≡ y * x / scale
nat_mul_comm x y = rw (mul-comm_nat x y)

mul_comm : (a b : ℤ) → mul a b ≡ mul b a
unfolding mul
mul_comm (pos x) (pos y) = ap pos (nat_mul_comm x y)
mul_comm (pos x) (negsuc y) = ap negate (nat_mul_comm x (suc y))
mul_comm (negsuc x) (pos y) = ap negate (nat_mul_comm (suc x) y)
mul_comm (negsuc x) (negsuc y) = ap pos (nat_mul_comm (suc x) (suc y))

le_refl : (a : ℤ) → a ≼ a
unfolding leb_ℤ
le_refl a = ground arith

div_nonneg : (a b q : ℤ) → zero_f ≼ a → zero_f ≺ b → div a b ≡ some q → zero_f ≼ q
unfolding div leb_ℤ
div_nonneg a (pos zero) q h k e = cc
div_nonneg (pos x) (pos (suc y)) q h k e = ground arith
div_nonneg (negsuc x) (pos (suc y)) q h k e = absurd (ground arith)
div_nonneg (pos x) (negsuc y) q h k e = absurd (ground arith)
div_nonneg (negsuc x) (negsuc y) q h k e = ground arith

quotient_le : (x y : ℕ) → x ≤ y → 0 < y → x * scale / y ≤ scale
quotient_le x y h p = grind arith

lit_mono : (m n k : ℕ) → m ≤ n → m * k ≤ n * k
lit_mono m n k h = grind arith

div_unit : (x y : ℕ) (q : ℤ) → x ≤ y → 0 < y → div (pos x) (pos y) ≡ some q → q ≼ one_f
unfolding div leb_ℤ
div_unit x zero q h p e = absurd (omega arith)
div_unit x (suc y) q h p e = ground (arith, quotient_le x (suc y))

mul_below :
    (a b : ℤ)
    → zero_f ≼ a
    → a ≼ one_f
    → zero_f ≼ b
    → b ≼ one_f
    → (zero_f ≼ mul a b) × (mul a b ≼ one_f)
unfolding leb_ℤ mul
mul_below (pos x) (pos y) h k l m = ground (arith, scaled-le x y, scaled-le y x)
mul_below (negsuc x) b h k l m = ground arith
mul_below (pos x) (negsuc y) h k l m = ground arith

lit_pos : (n e : ℕ) → 0 < n → zero_f ≺ fixed_float.lit n e
lit_pos n e h = ground (arith, scale_lt 0 n e h)

whole_pow-unit :
    (a : ℤ) (n : ℕ) → zero_f ≼ a → a ≼ one_f → (zero_f ≼ whole_pow a n) × (whole_pow a n ≼ one_f)
unfolding leb_ℤ whole_pow
whole_pow-unit a zero h k = ground arith
whole_pow-unit a (suc n) h k =
    let (low, high) = whole_pow-unit a n h k in mul_below a (whole_pow a n) h k low high

pow_unit :
    (a k : ℤ)
    → zero_f ≼ a
    → a ≼ one_f
    → zero_f ≼ k
    → (q : ℤ) × (pow a k ≡ some q) × (zero_f ≼ q) × (q ≼ one_f)
unfolding leb_ℤ pow
pow_unit a (negsuc k) h l m = absurd (ground arith)
pow_unit a (pos k) h l m =
    let (low, high) = whole_pow-unit a (k / scale) h l in
    (whole_pow a (k / scale), ground arith, low, high)

whole_pow_two : (n : ℕ) → (y : ℕ) × (whole_pow (pos 2_000_000_000) n ≡ pos y) × (scale ≤ y)
unfolding whole_pow mul
whole_pow_two zero = (scale, refl, omega arith)
whole_pow_two (suc n) =
    let (y, e, h) = whole_pow_two n in (2_000_000_000 * y / scale, rw e, omega arith)

two_pow : (k q : ℤ) → zero_f ≼ k → pow (pos 2_000_000_000) k ≡ some q → one_f ≼ q
unfolding leb_ℤ pow
two_pow (negsuc k) q h e = cc
two_pow (pos k) q h e = let (y, p, l) = whole_pow_two (k / scale) in ground arith

rounded_mono : (x y u : ℕ) → 0 < u → x ≤ y → (x + u / 2) / u * u ≤ (y + u / 2) / u * u
rounded_mono x y u p h = grind arith

unit_pos : (n : ℕ) → 0 < unit n
unfolding unit
unit_pos n = ground arith

round_mono : (a b : ℤ) (n : ℕ) → a ≼ b → round a n ≼ round b n
unfolding leb_ℤ round
round_mono (pos x) (pos y) n h = ground (arith, rounded_mono x y (unit n) (unit_pos n))
round_mono (negsuc x) (pos y) n h = ground arith
round_mono (pos x) (negsuc y) n h = absurd (ground arith)
round_mono (negsuc x) (negsuc y) n h =
    ground (arith, rounded_mono (suc y) (suc x) (unit n) (unit_pos n))

round_whole : (m n : ℕ) → round (pos (m * scale)) n ≡ pos (m * scale)
unfolding round unit
round_whole m n = ground arith

scaled_pos : (n e : ℕ) → 0 < n → 0 < n * 10 ^ (9 - e)
scaled_pos n e p = ground (arith, scale_lt 0 n e p)

parts_le :
    (k m t : ℕ)
    → k ≤ t
    → 0 < t
    → k * 1_000_000_000 * (m * 1_000_000_000 * scale / (t * 1_000_000_000)) / scale / scale ≤ m
parts_le k m t h p =
    let d = m * 1_000_000_000 * scale / (t * 1_000_000_000) in
    let whole : d * (t * 1_000_000_000) ≤ m * 1_000_000_000 * scale = grind arith in
    let fewer : k * d ≤ t * d = grind arith in
    let bound : k * 1_000_000_000 * d ≤ m * 1_000_000_000 * scale = grind arith in omega arith

div_pos : (x y : ℕ) → 0 < y → div (pos x) (pos y) ≡ some (pos (x * scale / y))
unfolding div
div_pos x zero p = absurd (omega arith)
div_pos x (suc y) p = refl

part_trunc :
    (k m t : ℕ) (q : ℤ)
    → 0 < t
    → div (pos (m * 1_000_000_000)) (pos (t * 1_000_000_000)) ≡ some q
    → (b : ℕ) × (trunc (mul (pos (k * 1_000_000_000)) q) ≡ some b) × (k ≤ t → b ≤ m)
unfolding mul trunc
part_trunc k m t q p e =
    let made = div_pos (m * 1_000_000_000) (t * 1_000_000_000) (omega arith) in
    subst (λ z. (b : ℕ) × (trunc (mul (pos (k * 1_000_000_000)) z) ≡ some b) × (k ≤ t → b ≤ m))
      (some-injective _ _ (sym made ∙ e)) (_, refl, λ h. parts_le k m t h p)

pub fixed-IsRounded : IsRounded ℤ
fixed-IsRounded = record {
  add_nonneg = add_nonneg;
  mul_unit = λ a b n e _ h k l _. mul_unit a b h k l;
  mul_lit_nonneg = λ a n e _ _ _ h. mul_nonneg a _ h;
  sub_lit_nonneg = λ a n e _ h. sub_nonneg a _ h;
  sub_le = λ a b n e _ _ h. sub_le a b h;
  abs_nonneg = λ a _. abs_nonneg a;
  abs_num = λ a _. le_refl a;
  mul_comm = mul_comm;
  sub_num = λ a b _. (le_refl a, le_refl b);
  add_num = λ a b _. (le_refl a, le_refl b);
  div_raises = div_raises;
  div_nonneg = λ a b q h k e _. div_nonneg a b q h k e;
  div_lit_nonneg = λ a q n e p _ _ h k. div_nonneg a (fixed_float.lit n e) q h (lit_pos n e p) k;
  div_unit = λ m n e q h p _ _ k.
      div_unit (m * 10 ^ (9 - e)) (n * 10 ^ (9 - e)) q (lit_mono m n (10 ^ (9 - e)) h)
        (scaled_pos n e p) k;
  part_trunc = λ k m t q _ p _ _ e. part_trunc k m t q p e;
  pow_unit = pow_unit;
  two_pow = two_pow;
  round_mono = round_mono;
  round_whole = round_whole;
}

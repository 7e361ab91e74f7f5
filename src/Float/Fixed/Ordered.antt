-- ===== src/Float/Fixed/Ordered.antt =====
-- The instance meets the laws of the order.
use native.Mathlib.Nat.{one-le-pow}
use hackathon_nu.Base.{ℕ, ◌-◌, ◌*◌, ◌^◌, ◌≤◌, ◌<◌, arith}
use hackathon_nu.Base.Int.{ℤ}
use hackathon_nu.Float.Laws.{IsOrdered}
use hackathon_nu.Float.Fixed.{leb_ℤ, fixed_float}

pow_pos : (n : ℕ) → 0 < 10 ^ n
pow_pos n = one-le-pow n 10 (omega arith)

pub scale_lt : (m n e : ℕ) → m < n → m * 10 ^ (9 - e) < n * 10 ^ (9 - e)
scale_lt m n e h = grind (arith, pow_pos (9 - e))

scale_le : (m n e : ℕ) → m ≤ n → m * 10 ^ (9 - e) ≤ n * 10 ^ (9 - e)
scale_le m n e h = grind arith

pub fixed-IsOrdered : IsOrdered ℤ
unfolding leb_ℤ
fixed-IsOrdered = record {
  lt_irrefl = λ a. ground arith;
  le_of_lt = λ a b. ground arith;
  lt-le_trans = λ a b c. ground arith;
  le-lt_trans = λ a b c. ground arith;
  le_trans = λ a b c. ground arith;
  refl_of_le = λ a b. ground arith;
  le_total = λ a b. ground arith;
  lit_le = λ m n e h. ground (arith, scale_le m n e h);
  lit_lt = λ m n e h _ _. ground (arith, scale_lt m n e h);
  lit_whole = λ m. ground arith;
  lit_zero = λ e. ground arith;
}

-- ===== src/Float/Laws.antt =====
-- What the code relies on of `float`. Every law holds of IEEE 754 numbers with NaN and infinities:
-- rounding is monotone, so sums and products keep the order that exact arithmetic gives.
use hackathon_nu.Base.{ℕ, ◌*◌, ◌^◌, ◌≤◌, ◌<◌, ◌≡◌, ◌⊎◌, some, none}
use hackathon_nu.Float.Defs.{Float, ◌≼◌, ◌≺◌, zero_f, one_f}

pub record IsOrdered (F : Type 0) ⦃f : Float F⦄ : Type 0 where
  pub lt_irrefl : (a : F) → ¬ (a ≺ a)
  pub le_of_lt : (a b : F) → a ≺ b → a ≼ b
  pub lt-le_trans : (a b c : F) → a ≺ b → b ≼ c → a ≺ c
  pub le-lt_trans : (a b c : F) → a ≼ b → b ≺ c → a ≺ c
  pub le_trans : (a b c : F) → a ≼ b → b ≼ c → a ≼ c
  -- only a NaN is not `<=` itself, and the order is total away from it
  pub refl_of_le : (a b : F) → a ≼ b → (a ≼ a) × (b ≼ b)
  pub le_total : (a b : F) → a ≼ a → b ≼ b → (a ≺ b) ⊎ (b ≼ a)
  pub lit_le : (m n e : ℕ) → m ≤ n → f.lit m e ≼ f.lit n e
  -- literals of at most fifteen digits are told apart
  pub lit_lt : (m n e : ℕ) → m < n → n < 10 ^ 15 → e ≤ 9 → f.lit m e ≺ f.lit n e
  pub lit_whole : (m : ℕ) → f.lit (m * 10) 1 ≡ f.lit m 0
  pub lit_zero : (e : ℕ) → f.lit 0 e ≡ zero_f

pub record IsRounded (F : Type 0) ⦃f : Float F⦄ : Type 0 where
  pub add_nonneg : (a b : F) → zero_f ≼ a → zero_f ≼ b → (a ≼ f.add a b) × (b ≼ f.add a b)
  -- a finite number that is not negative, scaled by a factor from 0 to 1
  pub mul_unit :
      (a b : F) (n e : ℕ)
      → n < 10 ^ 15
      → zero_f ≼ a
      → a ≼ one_f
      → zero_f ≼ b
      → b ≼ f.lit n e
      → (zero_f ≼ f.mul b a) × (f.mul b a ≼ b)
  pub mul_lit_nonneg :
      (a : F) (n e : ℕ) → 0 < n → n < 10 ^ 15 → e ≤ 9 → zero_f ≼ a → zero_f ≼ f.mul a (f.lit n e)
  pub sub_lit_nonneg :
      (a : F) (n e : ℕ) → n < 10 ^ 15 → f.lit n e ≼ a → zero_f ≼ f.sub a (f.lit n e)
  -- a number below a finite one falls when something is taken off it
  pub sub_le : (a b : F) (n e : ℕ) → n < 10 ^ 15 → a ≼ f.lit n e → zero_f ≼ b → f.sub a b ≼ a
  pub abs_nonneg : (a : F) → a ≼ a → zero_f ≼ f.abs a
  pub abs_num : (a : F) → f.abs a ≼ f.abs a → a ≼ a
  pub mul_comm : (a b : F) → f.mul a b ≡ f.mul b a
  pub sub_num : (a b : F) → f.sub a b ≼ f.sub a b → (a ≼ a) × (b ≼ b)
  pub add_num : (a b : F) → f.add a b ≼ f.add a b → (a ≼ a) × (b ≼ b)
  -- only a zero divisor raises
  pub div_raises : (a b : F) → f.div a b ≡ none → b ≼ zero_f
  -- a divisor above zero keeps the sign, unless the quotient is NaN
  pub div_nonneg : (a b q : F) → zero_f ≼ a → zero_f ≺ b → f.div a b ≡ some q → q ≼ q → zero_f ≼ q
  pub div_lit_nonneg :
      (a q : F) (n e : ℕ)
      → 0 < n
      → n < 10 ^ 15
      → e ≤ 9
      → zero_f ≼ a
      → f.div a (f.lit n e) ≡ some q
      → zero_f ≼ q
  pub div_unit :
      (m n e : ℕ) (q : F)
      → m ≤ n
      → 0 < n
      → n < 10 ^ 15
      → e ≤ 9
      → f.div (f.lit m e) (f.lit n e) ≡ some q
      → q ≼ one_f
  -- k of t parts of m whole things
  pub part_trunc :
      (k m t : ℕ) (q : F)
      → k < 10 ^ 15
      → 0 < t
      → t < 10 ^ 15
      → m < 10 ^ 15
      → f.div (f.lit m 0) (f.lit t 0) ≡ some q
      → (b : ℕ) × (f.trunc (f.mul (f.lit k 0) q) ≡ some b) × (k ≤ t → b ≤ m)
  pub pow_unit :
      (a k : F)
      → zero_f ≼ a
      → a ≼ one_f
      → zero_f ≼ k
      → (q : F) × (f.pow a k ≡ some q) × (zero_f ≼ q) × (q ≼ one_f)
  pub two_pow : (k q : F) → zero_f ≼ k → f.pow (f.lit 20 1) k ≡ some q → one_f ≼ q
  pub round_mono : (a b : F) (n : ℕ) → a ≼ b → f.round a n ≼ f.round b n
  -- a whole number is its own rounding
  pub round_whole : (m n : ℕ) → f.round (f.lit m 0) n ≡ f.lit m 0

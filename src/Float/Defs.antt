-- ===== src/Float/Defs.antt =====
-- Python's `float`, taken as a parameter: its comparisons and arithmetic are the interface's
-- operations. The laws in `Laws` are facts of IEEE 754 arithmetic as Python has it; NaN is the
-- value that is not `<=` itself. `Fixed` is a concrete instance, which the examples run.

use hackathon_nu.Base.{ℕ, Bool, Option, List, ◌≡◌, true, if◌then◌else◌}

pub record Float (F : Type 0) : Type 0 where
  pub lt : F → F → Bool
  pub le : F → F → Bool
  pub add : F → F → F
  pub sub : F → F → F
  pub mul : F → F → F
  -- `none` is ZeroDivisionError
  pub div : F → F → Option F
  -- `none` is OverflowError or ZeroDivisionError
  pub pow : F → F → Option F
  pub abs : F → F
  -- math.isclose(a, b, abs_tol=t)
  pub isclose : F → F → F → Bool
  -- the built-in `sum`, which is compensated and so not a plain chain of `add`
  pub sum : List F → F
  -- int(x) of a number that is not negative; `none` is the exception for infinity and NaN
  pub trunc : F → Option ℕ
  -- round(x, n)
  pub round : F → ℕ → F
  -- the literal n / 10 ^ e
  pub lit : ℕ → ℕ → F

module _ {F : Type 0} ⦃f : Float F⦄ where
  -- max(a, b) keeps `a` unless `b` is greater.
  abbrev pub max : F → F → F
  max a b = if f.lt a b then b else a

  abbrev pub min : F → F → F
  min a b = if f.lt b a then b else a

  infix 4 ◌≼◌ ◌≺◌
  abbrev pub ◌≼◌ : F → F → Type 0
  a ≼ b = f.le a b ≡ true

  abbrev pub ◌≺◌ : F → F → Type 0
  a ≺ b = f.lt a b ≡ true

  abbrev pub zero_f : F
  zero_f = f.lit 0 0

  abbrev pub one_f : F
  one_f = f.lit 1 0

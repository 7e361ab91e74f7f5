-- ===== src/Float/Order.antt =====
-- What follows from the order for Python's `max`, `min` and the literals.
use hackathon_nu.Base.{ℕ, ◌^◌, ◌≤◌, ◌<◌, ◌≡◌, refl, subst, some, none, Option, arith}
use hackathon_nu.Float.Defs.{Float, max, min, ◌≼◌, ◌≺◌, zero_f}
use hackathon_nu.Float.Laws.{IsOrdered, IsRounded}

module _ {F : Type 0} ⦃f : Float F⦄ (o : IsOrdered F) where
  -- A clamp holds also of NaN.
  pub clamp_bounds : (lo hi x : F) → lo ≼ hi → (lo ≼ max lo (min hi x)) × (max lo (min hi x) ≼ hi)
  clamp_bounds lo hi x h =
      ground (arith, o.le_of_lt lo x, o.le_of_lt lo hi, o.le_of_lt x hi, o.refl_of_le lo hi h)

  pub clip_bounds : (lo hi x : F) → lo ≼ hi → (lo ≼ max lo (min x hi)) × (max lo (min x hi) ≼ hi)
  clip_bounds lo hi x h = ground (
    arith,
    o.le_of_lt lo x,
    o.le_of_lt lo hi,
    o.refl_of_le lo hi h,
    o.refl_of_le lo x,
    o.le_total hi x,
  )

  pub le-max_left : (a b : F) → a ≼ a → a ≼ max a b
  le-max_left a b h = ground (arith, o.le_of_lt a b)

  pub min-le_left : (a b : F) → a ≼ a → min a b ≼ a
  min-le_left a b h = ground (arith, o.le_of_lt b a)

  pub not-le_of_lt : (a b : F) → a ≺ b → ¬ (b ≼ a)
  not-le_of_lt a b h k = o.lt_irrefl a (o.lt-le_trans a b a h k)

  pub zero-le : (n e : ℕ) → zero_f ≼ f.lit n e
  zero-le n e = subst (λ z. z ≼ f.lit n e) (o.lit_zero e) (o.lit_le 0 n e (omega arith))

  pub zero-lt : (n e : ℕ) → 0 < n → n < 10 ^ 15 → e ≤ 9 → zero_f ≺ f.lit n e
  zero-lt n e p q r = subst (λ z. z ≺ f.lit n e) (o.lit_zero e) (o.lit_lt 0 n e p q r)

  pub lit_refl : (n e : ℕ) → f.lit n e ≼ f.lit n e
  lit_refl n e = o.lit_le n n e (omega arith)

  module _ (r : IsRounded F) where
    pub div_total : (a b : F) → ¬ (b ≼ zero_f) → (q : F) × (f.div a b ≡ some q)
    div_total a b h = go (f.div a b) (r.div_raises a b)
      where
        go : (d : Option F) → (d ≡ none → b ≼ zero_f) → (q : F) × (d ≡ some q)
        go none k = absurd (h (k (refl)))
        go (some q) k = (q, refl)

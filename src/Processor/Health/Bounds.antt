-- ===== src/Processor/Health/Bounds.antt =====
-- The penalty of one sensor: it never raises, and stays within the weight of its specification.
use hackathon_nu.Base.{ℕ, ◌≤◌, ◌≡◌, refl, subst, arith, List, All, some}
use hackathon_nu.Base.Results.{ok}
use hackathon_nu.Float.{Float, max, min, ◌≼◌, ◌≺◌, zero_f, one_f}
use hackathon_nu.Float.Laws.{IsOrdered, IsRounded}
use hackathon_nu.Float.Order.{le-max_left, not-le_of_lt, zero-le, zero-lt, lit_refl, div_total}
use hackathon_nu.Shared.Enums.{LocomotiveType, te33a, kz8a, SensorType}
use hackathon_nu.Shared.Constants.{SensorSpec, crit_range, loco_specs}
use hackathon_nu.Processor.Health.Penalties.{raw_deviation, sensor_penalty}

module _ {F : Type 0} ⦃f : Float F⦄ where
  -- The weight is from 0 to 40, as the comment on the field says, and the exponent not negative.
  pub record IsSpec (spec : SensorSpec F) : Type 0 where
    pub weight_nonneg : zero_f ≼ spec.weight
    pub weight_le : spec.weight ≼ f.lit 40 0
    pub k_nonneg : zero_f ≼ spec.k

  abbrev pub AreSpecs : List (SensorType × SensorSpec F) → Type 0
  AreSpecs = All (λ p. IsSpec p.1)

  module _ (o : IsOrdered F) where
    spec_lem :
        (spec : SensorSpec F) (w k : ℕ)
        → w ≤ 40
        → spec.weight ≡ f.lit w 0
        → spec.k ≡ f.lit k 1
        → IsSpec spec
    spec_lem spec w k h p q = record {
      weight_nonneg = rw p (o.lit_le 0 w 0 (omega arith));
      weight_le = rw p (o.lit_le w 40 0 h);
      k_nonneg = rw q (zero-le o k 1);
    }

    -- Every specification of both locomotive types.
    pub loco_specs-AreSpecs : (t : LocomotiveType) → AreSpecs (loco_specs t)
    unfolding loco_specs
    loco_specs-AreSpecs te33a = (
      spec_lem _ 15 20 (omega arith) refl refl,
      (
        spec_lem _ 35 20 (omega arith) refl refl,
        (
          spec_lem _ 20 20 (omega arith) refl refl,
          (
            spec_lem _ 10 15 (omega arith) refl refl,
            (
              spec_lem _ 10 15 (omega arith) refl refl,
              (
                spec_lem _ 15 20 (omega arith) refl refl,
                (
                  spec_lem _ 40 30 (omega arith) refl refl,
                  (
                    spec_lem _ 40 30 (omega arith) refl refl,
                    (
                      spec_lem _ 20 20 (omega arith) refl refl,
                      (spec_lem _ 15 20 (omega arith) refl refl, tt),
                    ),
                  ),
                ),
              ),
            ),
          ),
        ),
      ),
    )
    loco_specs-AreSpecs kz8a = (
      spec_lem _ 25 20 (omega arith) refl refl,
      (
        spec_lem _ 15 20 (omega arith) refl refl,
        (
          spec_lem _ 20 20 (omega arith) refl refl,
          (
            spec_lem _ 30 20 (omega arith) refl refl,
            (
              spec_lem _ 5 10 (omega arith) refl refl,
              (
                spec_lem _ 20 20 (omega arith) refl refl,
                (
                  spec_lem _ 40 30 (omega arith) refl refl,
                  (
                    spec_lem _ 20 20 (omega arith) refl refl,
                    (spec_lem _ 15 20 (omega arith) refl refl, tt),
                  ),
                ),
              ),
            ),
          ),
        ),
      ),
    )

    pub crit_range_pos : (spec : SensorSpec F) → zero_f ≺ crit_range spec
    unfolding crit_range
    crit_range_pos spec =
        let low = zero-lt o 1 6 (omega arith) (omega arith) (omega arith) in
        o.lt-le_trans zero_f (f.lit 1 6) (crit_range spec) low
          (le-max_left o (f.lit 1 6) _ (lit_refl o 1 6))

    module _ (l : IsRounded F) where
      -- A ratio of numbers that are not negative, cut off at one; NaN becomes one.
      abbrev normalized : F → F
      normalized = min (f.lit 10 1)

      normalized_bounds :
          (e c q : F)
          → zero_f ≼ e
          → zero_f ≺ c
          → f.div e c ≡ some q
          → (zero_f ≼ normalized q) × (normalized q ≼ one_f)
      normalized_bounds e c q he hc hq = rw (o.lit_whole 1) (
          ground (
            arith,
            o.lit_le 0 1 0,
            lit_refl o 1 0,
            o.le_of_lt q one_f,
            o.refl_of_le q one_f,
            l.div_nonneg e c q he hc hq,
          ))

      -- For any value, NaN and infinities included, the penalty is from 0 to the weight, and the
      -- deviation from 0 to 100 per cent.
      pub sensor_penalty_bounds :
          (value : F) (spec : SensorSpec F)
          → IsSpec spec
          → (p d : F) × (sensor_penalty value spec ≡ ok (p, d))
            × (zero_f ≼ p)
            × (p ≼ spec.weight)
            × (zero_f ≼ d)
            × (d ≼ f.lit 1000 1)
      unfolding sensor_penalty
      sensor_penalty_bounds value spec h =
          let e = max (f.lit 0 1) (f.sub (raw_deviation value spec) spec.delta_safe) in
          let c = crit_range spec in
          let pos = crit_range_pos spec in
          let low : zero_f ≼ e =
            subst (λ z. z ≼ e) (o.lit_zero 1) (le-max_left o (f.lit 0 1) _ (lit_refl o 0 1)) in
          let (q, eq) = div_total o l e c (not-le_of_lt o zero_f c pos) in
          let (n0, n1) = normalized_bounds e c q low pos eq in
          let (w, pw, w0, w1) = l.pow_unit (normalized q) spec.k n0 n1 h.k_nonneg in
          let (p0, p1) =
            l.mul_unit w spec.weight 40 0 (omega arith) w0 w1 h.weight_nonneg h.weight_le in
          let (d0, d1) =
            l.mul_unit (normalized q) (f.lit 1000 1) 1000 1 (omega arith) n0 n1 (zero-le o 1000 1)
              (lit_refl o 1000 1) in
          (
            f.mul spec.weight w,
            f.mul (normalized q) (f.lit 1000 1),
            rw (eq, pw),
            p0,
            p1,
            rw (l.mul_comm (normalized q) (f.lit 1000 1)) d0,
            rw (l.mul_comm (normalized q) (f.lit 1000 1)) d1,
          )

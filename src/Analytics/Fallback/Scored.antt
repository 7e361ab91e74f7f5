-- ===== src/Analytics/Fallback/Scored.antt =====
-- The health that is computed from the latest readings.
use Prim.Native.Nat.{min as min_nat}
use hackathon_nu.Base.{
  ℕ, suc, ◌≡◌, refl, subst, ap, arith, Bool-cases, Option-cases, ◌&&◌, inl, inr, String, string_eq,
  List, [], ◌∷◌, All, length, length-take, take,
}
use hackathon_nu.Base.Dict.{get, All-get}
use hackathon_nu.Base.Results.{ok, >>=-ok}
use hackathon_nu.Float.{Float, ◌≼◌, ◌≺◌, zero_f, max}
use hackathon_nu.Float.Laws.{IsOrdered, IsRounded}
use hackathon_nu.Float.Order.{div_total, not-le_of_lt, zero-lt, lit_refl, clamp_bounds}
use hackathon_nu.Analytics.Fallback.{
  LatestRow, FactorMessage, HealthSnapshot, default_thresholds, thresholds_of, weight_of, quotient,
  inside_score, outside_score, sensor_score, score_rows, insert_factor, sort_factors, overall_of,
  band_of, type_of, compute_health_from_readings,
}

module _ {F : Type 0} ⦃f : Float F⦄ where
  -- The category that belongs to a score from 0 to 100: from 80 on, from 50 on, and below.
  pub data InBand (score : F) : String → Type 0 where
    normal : f.lit 80 0 ≼ score → InBand score "Норма"
    warning : ¬ (f.lit 80 0 ≼ score) → f.lit 50 0 ≼ score → InBand score "Внимание"
    critical : ¬ (f.lit 80 0 ≼ score) → ¬ (f.lit 50 0 ≼ score) → InBand score "Критично"

  InBand-band_of : (score : F) → InBand score (band_of score)
  unfolding band_of
  InBand-band_of score = elim (Bool-cases (f.le (f.lit 80 0) score)) [
    | inl n ↦ rw n (normal n)
    | inr n ↦ elim (Bool-cases (f.le (f.lit 50 0) score)) [
      | inl w ↦ rw (n, w) (warning (λ h. cc) w)
      | inr w ↦ rw (n, w) (critical (λ h. cc) (λ h. cc))
    ]
  ]

  length-insert_factor :
      (x : FactorMessage F) (ys : List (FactorMessage F))
      → length (insert_factor x ys) ≡ suc (length ys)
  unfolding insert_factor
  length-insert_factor x [] = refl
  length-insert_factor x (y ∷ ys) = ground (arith, length-insert_factor x ys)

  length-sort_factors : (xs : List (FactorMessage F)) → length (sort_factors xs) ≡ length xs
  unfolding sort_factors
  length-sort_factors [] = refl
  length-sort_factors (x ∷ xs) =
      omega (arith, length-insert_factor x (sort_factors xs), length-sort_factors xs)

  -- Both thresholds are numbers.
  abbrev AreNumbers : F × F → Type 0
  AreNumbers bounds = (bounds.0 ≼ bounds.0) × (bounds.1 ≼ bounds.1)

  module _ (o : IsOrdered F) (l : IsRounded F) where
    number : (n e : ℕ) → f.lit n e ≼ f.lit n e
    number n e = lit_refl o n e

    default_thresholds-AreNumbers :
        All (λ (p : String × (F × F)). AreNumbers p.1) default_thresholds
    unfolding default_thresholds
    default_thresholds-AreNumbers = (
      (number 0 1, number 10500 1),
      (
        (number 15 1, number 50 1),
        (
          (number 700 1, number 950 1),
          (
            (number 50 1, number 1000 1),
            (
              (number 100 1, number 2000 1),
              (
                (number 400 1, number 1300 1),
                (
                  (number 19000 0, number 29000 0),
                  (
                    (number 0 1, number 4000 1),
                    (
                      (number 400 1, number 900 1),
                      (
                        (number 300 1, number 850 1),
                        (
                          (number 2000 0, number 3200 0),
                          (
                            (number 0 1, number 1200 1),
                            (
                              (number 40 1, number 55 1),
                              ((number 0 1, number 5 1), ((number 0 1, number 500 1), tt)),
                            ),
                          ),
                        ),
                      ),
                    ),
                  ),
                ),
              ),
            ),
          ),
        ),
      ),
    )

    thresholds-AreNumbers : (sensor : String) → AreNumbers (thresholds_of sensor)
    thresholds-AreNumbers sensor = elim (Option-cases (get sensor (default_thresholds ⦃f = f⦄))) [
      | inl e ↦ rw e (number 0 1, number 1000 1)
      | inr (bounds, e) ↦
          rw e (All-get AreNumbers sensor bounds default_thresholds default_thresholds-AreNumbers e)
    ]

    above_one : (bound : F) → bound ≼ bound → zero_f ≺ max bound (f.lit 10 1)
    above_one bound h = elim (Bool-cases (f.lt bound (f.lit 10 1))) [
      | inl e ↦ rw e (zero-lt o 10 1 (omega arith) (omega arith) (omega arith))
      | inr e ↦ rw e (
          o.lt-le_trans zero_f (f.lit 10 1) bound
            (zero-lt o 10 1 (omega arith) (omega arith) (omega arith))
            (ground (arith, e, o.le_total bound (f.lit 10 1) h (lit_refl o 10 1))))
    ]

    quotient_total : (a b : F) → zero_f ≺ b → (q : F) × (quotient a b ≡ ok q)
    quotient_total a b h = let (q, e) = div_total o l a b (not-le_of_lt o zero_f b h) in (q, rw e)

    outside_total : (over bound : F) → bound ≼ bound → (s : F) × (outside_score over bound ≡ ok s)
    outside_total over bound h =
        let (q, e) = quotient_total over (max bound (f.lit 10 1)) (above_one bound h) in
        (max (f.lit 0 1) (f.sub (f.lit 10 1) q), rw e)

    inside_total : (lo hi value : F) → (s : F) × (inside_score lo hi value ≡ ok s)
    inside_total lo hi value =
        let two = zero-lt o 2 0 (omega arith) (omega arith) (omega arith) in
        let (mid, em) = quotient_total (f.add lo hi) (f.lit 2 0) two in
        let (span, es) = quotient_total (f.sub hi lo) (f.lit 2 0) two in
        elim (Bool-cases (f.lt (f.lit 0 0) span)) [
          | inl e ↦
              let (off, eo) = quotient_total (f.abs (f.sub value mid)) span e in
              (max (f.lit 0 1) (f.sub (f.lit 10 1) (f.mul off (f.lit 3 1))), rw (em, es, e, eo))
          | inr e ↦ (f.lit 10 1, rw (em, es, e))
        ]

    sensor_total :
        (lo hi value : F) → lo ≼ lo → hi ≼ hi → (s : F) × (sensor_score lo hi value ≡ ok s)
    unfolding sensor_score
    sensor_total lo hi value h k = elim (Bool-cases (f.le lo value && f.le value hi)) [
      | inl e ↦ rw e (inside_total lo hi value)
      | inr e ↦ elim (Bool-cases (f.lt value lo)) [
        | inl low ↦ rw (e, low) (outside_total (f.sub lo value) lo h)
        | inr high ↦ rw (e, high) (outside_total (f.sub value hi) hi k)
      ]
    ]

    score_rows_total :
        (total : F) (rows : List (LatestRow F))
        → (sum : F) × (factors : List (FactorMessage F)) × (score_rows total rows
            ≡ ok (sum, factors))
          × (length factors ≡ length rows)
    unfolding score_rows
    score_rows_total total [] = (total, [], refl, refl)
    score_rows_total total (row ∷ rows) =
        let bounds = thresholds_of row.sensor_type in
        let (low, high) = thresholds-AreNumbers row.sensor_type in
        let (score, e) = sensor_total bounds.0 bounds.1 row.value low high in
        let penalty = f.mul (f.sub (f.lit 10 1) score) (weight_of row.sensor_type) in
        let (sum, factors, k, count) = score_rows_total (f.add total penalty) rows in
        (
          sum,
          record {
            sensor_type = row.sensor_type;
            value = row.value;
            unit = row.unit;
            penalty = f.round penalty 4;
          }
              ∷ factors,
          >>=-ok (sensor_score bounds.0 bounds.1 row.value) _ e
              (>>=-ok (score_rows (f.add total penalty) rows) _ k refl),
          ap suc count,
        )

    -- The health computed from readings, whatever their values and sensors, is always returned. Its
    -- score is the rounding of a number from 0 to 100 and lies from 0 to 100 itself. The category
    -- belongs to the number before the rounding: "Норма" from 80 on, "Внимание" from 50 up to 80, and
    -- "Критично" below. Five factors are shown, or one for each reading where there
    -- are fewer. The float arithmetic obeys `IsOrdered` and `IsRounded`.
    pub compute_health_from_readings-InBand :
        (now : ℕ) (locomotive_id : String) (rows : List (LatestRow F))
        → (h : HealthSnapshot F) × (compute_health_from_readings now locomotive_id rows ≡ ok h)
          × (overall : F) × (h.overall_score ≡ f.round overall 1)
          × (f.lit 0 1 ≼ overall)
          × (overall ≼ f.lit 1000 1)
          × InBand overall h.category
          × (f.lit 0 0 ≼ h.overall_score)
          × (h.overall_score ≼ f.lit 100 0)
          × (length h.top_factors ≡ min_nat 5 (length rows))
    unfolding compute_health_from_readings
    compute_health_from_readings-InBand now locomotive_id rows =
        let (total, factors, e, count) = score_rows_total (f.lit 0 1) rows in
        let overall = overall_of total in
        let (low, high) =
          clamp_bounds o (f.lit 0 1) (f.lit 1000 1)
            (f.sub (f.lit 1000 1) (f.mul total (f.lit 1000 1))) (o.lit_le 0 1000 1 (omega arith)) in
        let floor =
          l.round_mono (f.lit 0 0) overall 1 (subst (λ z. z ≼ overall) (o.lit_whole 0) low) in
        let ceiling =
          l.round_mono overall (f.lit 100 0) 1 (subst (λ z. overall ≼ z) (o.lit_whole 100) high) in
        (
          record {
            locomotive_id = locomotive_id;
            locomotive_type = type_of rows;
            overall_score = f.round overall 1;
            category = band_of overall;
            top_factors = take 5 (sort_factors factors);
            damage_penalty = f.lit 0 1;
            calculated_at = now;
          },
          >>=-ok (score_rows (f.lit 0 1) rows) _ e refl,
          overall,
          refl,
          low,
          high,
          InBand-band_of overall,
          subst (λ z. z ≼ f.round overall 1) (l.round_whole 0 1) floor,
          subst (λ z. f.round overall 1 ≼ z) (l.round_whole 100 1) ceiling,
          omega (arith, length-take 5 (sort_factors factors), length-sort_factors factors, count),
        )

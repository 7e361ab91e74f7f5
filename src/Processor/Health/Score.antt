-- ===== src/Processor/Health/Score.antt =====
-- The score and its category.
use hackathon_nu.Base.{ℕ, ◌≡◌, subst, arith, Bool-cases, inl, inr, List, String}
use hackathon_nu.Base.Results.{ok, >>=-eq-ok}
use hackathon_nu.Float.{Float, ◌≼◌}
use hackathon_nu.Float.Laws.{IsOrdered, IsRounded}
use hackathon_nu.Float.Order.{clamp_bounds}
use hackathon_nu.Shared.Constants.{hi_category_normal, hi_category_warning}
use hackathon_nu.Shared.Schemas.{TelemetryReading, HealthIndex}
use hackathon_nu.Processor.Health.Penalties.{DamageState, Penalty}
use hackathon_nu.Processor.Health.Index.{
  score_of, category_of, sort_desc, health_of, penalties_of, calculate_health,
}

module _ {F : Type 0} ⦃f : Float F⦄ where
  -- The category that belongs to a score, band by band.
  pub data InBand (score : F) : String → Type 0 where
    normal : hi_category_normal ≼ score → InBand score "Норма"
    warning : ¬ (hi_category_normal ≼ score) → hi_category_warning ≼ score → InBand score "Внимание"
    critical :
        ¬ (hi_category_normal ≼ score) → ¬ (hi_category_warning ≼ score) → InBand score "Критично"

  InBand-category_of : (score : F) → InBand score (category_of score)
  unfolding category_of
  InBand-category_of score = elim (Bool-cases (f.le hi_category_normal score)) [
    | inl n ↦ rw n (normal n)
    | inr n ↦ elim (Bool-cases (f.le hi_category_warning score)) [
      | inl w ↦ rw (n, w) (warning (λ h. cc) w)
      | inr w ↦ rw (n, w) (critical (λ h. cc) (λ h. cc))
    ]
  ]

  health_of_fields :
      (r : TelemetryReading F) (now : ℕ) (total : F) (ps : List (Penalty F)) (h : HealthIndex F)
      → health_of r now total ps ≡ ok h
      → (h.overall_score ≡ f.round (score_of (sort_desc ps)) 2)
        × (h.category ≡ category_of (score_of (sort_desc ps)))
  unfolding health_of
  health_of_fields r now total ps h e = ground arith

  module _ (o : IsOrdered F) (l : IsRounded F) where
    score_of_bounds :
        (ps : List (Penalty F)) → (f.lit 0 1 ≼ score_of ps) × (score_of ps ≼ f.lit 1000 1)
    unfolding score_of
    score_of_bounds ps =
        clamp_bounds o (f.lit 0 1) (f.lit 1000 1) _ (o.lit_le 0 1000 1 (omega arith))

    round_bounds :
        (x : F)
        → f.lit 0 1 ≼ x
        → x ≼ f.lit 1000 1
        → (f.lit 0 0 ≼ f.round x 2) × (f.round x 2 ≼ f.lit 100 0)
    round_bounds x low high = (
      subst (λ z. z ≼ f.round x 2) (l.round_whole 0 2)
          (l.round_mono (f.lit 0 0) x 2 (rw (← o.lit_whole 0) low)),
      subst (λ z. f.round x 2 ≼ z) (l.round_whole 100 2)
          (l.round_mono x (f.lit 100 0) 2 (rw (← o.lit_whole 100) high)),
    )

    -- Whatever the reading and the damage, NaN and infinities included: a health index that is
    -- returned has a score from 0 to 100, which is the rounding of a score within [0, 100] that
    -- lies in the band of the category.
    pub calculate_health-InBand :
        (r : TelemetryReading F) (now : ℕ) (st : DamageState F) (h : HealthIndex F)
        → (calculate_health r now st).0 ≡ ok h
        → (f.lit 0 0 ≼ h.overall_score)
          × (h.overall_score ≼ f.lit 100 0)
          × ((score : F) × (f.lit 0 1 ≼ score)
              × (score ≼ f.lit 1000 1)
              × (h.overall_score ≡ f.round score 2)
              × InBand score h.category)
    unfolding calculate_health
    calculate_health-InBand r now st h e =
        let out = penalties_of r st in
        let (ps, _, q) = >>=-eq-ok out.penalties (health_of r now out.total_damage) e in
        let (scored, categorised) = health_of_fields r now out.total_damage ps h q in
        let score = score_of (sort_desc ps) in
        let (low, high) = score_of_bounds (sort_desc ps) in
        let (low', high') = round_bounds score low high in
        (
          rw scored low',
          rw scored high',
          (score, low, high, scored, rw categorised (InBand-category_of score)),
        )

-- ===== src/Processor/Health/Index.antt =====
-- health_service.py, `calculate_health` from the loop on: score, category and top factors.
use hackathon_nu.Base.{ℕ, List, [], ◌∷◌, map, take, nat_eq, pair_eq, String, if◌then◌else◌}
use hackathon_nu.Base.Results.{Result, ok, zero_division, or_raise, ◌>>=◌}
use hackathon_nu.Float.{Float, max, min}
use hackathon_nu.Shared.Enums.{sensor_eq}
use hackathon_nu.Shared.Constants.{loco_specs, hi_category_normal, hi_category_warning}
use hackathon_nu.Shared.Schemas.{TelemetryReading, HealthFactor, HealthIndex}
use hackathon_nu.Processor.Health.Penalties.{
  DamageState, Penalty, Penalties, penalty_loop, sensor_map,
}

module _ {F : Type 0} ⦃f : Float F⦄ where
  -- penalties.sort(key=lambda x: x[1], reverse=True), which is stable
  unfoldable pub insert_desc : Penalty F → List (Penalty F) → List (Penalty F)
  insert_desc p [] = p ∷ []
  insert_desc p (q ∷ qs) = if f.lt p.penalty q.penalty then q ∷ insert_desc p qs else p ∷ q ∷ qs

  unfoldable pub sort_desc : List (Penalty F) → List (Penalty F)
  unfolding insert_desc
  sort_desc [] = []
  sort_desc (p ∷ ps) = insert_desc p (sort_desc ps)

  unfoldable pub score_of : List (Penalty F) → F
  score_of ps =
      let raw_score = f.sub (f.lit 1000 1) (f.sum (map (λ p. p.penalty) ps)) in
      max (f.lit 0 1) (min (f.lit 1000 1) raw_score)

  unfoldable pub category_of : F → String
  category_of score =
      if f.le hi_category_normal score
      then "Норма"
      else if f.le hi_category_warning score
      then "Внимание"
      else "Критично"

  unfoldable pub factor_of : F → Penalty F → Result (HealthFactor F)
  factor_of base p = do
    share ← or_raise zero_division (f.div p.penalty base)
    ok (record {
      sensor_type = p.sensor_key;
      value = p.value;
      unit = p.unit;
      penalty = f.round p.penalty 4;
      contribution_pct = f.round (f.mul share (f.lit 1000 1)) 2;
      deviation_pct = f.round p.dev_pct 2;
    })

  unfoldable pub factors_of : F → List (Penalty F) → Result (List (HealthFactor F))
  unfolding factor_of
  factors_of base [] = ok []
  factors_of base (p ∷ ps) = do
    factor ← factor_of base p
    factors ← factors_of base ps
    ok (factor ∷ factors)

  -- The part after the loop, on the penalties in order of the specifications.
  unfoldable pub health_of : TelemetryReading F → ℕ → F → List (Penalty F) → Result (HealthIndex F)
  unfolding sort_desc score_of category_of factors_of
  health_of r now total_damage ps = do
    let sorted = sort_desc ps
    let score = score_of sorted
    let base = max (f.sum (map (λ p. p.penalty) sorted)) (f.lit 1 6)
    factors ← factors_of base (take 5 sorted)
    ok (record {
      locomotive_id = r.locomotive_id;
      locomotive_type = r.locomotive_type;
      overall_score = f.round score 2;
      category = category_of score;
      top_factors = factors;
      damage_penalty = f.round total_damage 6;
      calculated_at = now;
    })

  -- The loop at its start.
  abbrev pub penalties_of : TelemetryReading F → DamageState F → Penalties F
  penalties_of r st =
      penalty_loop r.locomotive_id (sensor_map r.sensors) (loco_specs r.locomotive_type) (f.lit 0 1)
        st

  unfoldable pub calculate_health :
      TelemetryReading F → ℕ → DamageState F → Result (HealthIndex F) × DamageState F
  unfolding penalty_loop health_of sensor_map
  calculate_health r now st =
      let out = penalties_of r st in
      (out.penalties >>= health_of r now out.total_damage, out.damage)

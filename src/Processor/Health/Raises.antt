-- ===== src/Processor/Health/Raises.antt =====
-- When `calculate_health` raises.
use hackathon_nu.Base.{
  ℕ, ◌≡◌, ◌⊎◌, refl, arith, Option-cases, inl, inr, true, List, [], ◌∷◌, Any, take, map,
}
use hackathon_nu.Base.Dict.{Dict, get}
use hackathon_nu.Base.Results.{ok, err, >>=-eq-err, Result-cases, ok_of_no_err, Error, overflow}
use hackathon_nu.Float.{Float, max, ◌≼◌, zero_f}
use hackathon_nu.Float.Laws.{IsOrdered, IsRounded}
use hackathon_nu.Float.Order.{not-le_of_lt, zero-lt, div_total}
use hackathon_nu.Shared.Enums.{LocomotiveType, te33a, kz8a, SensorType, sensor_eq}
use hackathon_nu.Shared.Constants.{SensorSpec, loco_specs, montsinger_degree_step}
use hackathon_nu.Shared.Schemas.{TelemetryReading, SensorPayload, HealthIndex}
use hackathon_nu.Processor.Health.Penalties.{
  DamageState, Penalty, damage_increment, update_damage, round_of, penalty_loop,
}
use hackathon_nu.Processor.Health.Index.{
  factor_of, factors_of, health_of, sort_desc, penalties_of, calculate_health,
}
use hackathon_nu.Processor.Health.Bounds.{
  IsSpec, AreSpecs, loco_specs-AreSpecs, sensor_penalty_bounds,
}

module _ {F : Type 0} ⦃f : Float F⦄ (o : IsOrdered F) (l : IsRounded F) where
  damage_increment-err :
      (value ref : F) (e : Error) → damage_increment value ref ≡ err e → e ≡ overflow
  unfolding damage_increment
  damage_increment-err value ref e h =
      let pos = zero-lt o 60 1 (omega arith) (omega arith) (omega arith) in
      let (q, eq) =
        div_total o l (f.sub value ref) montsinger_degree_step (not-le_of_lt o zero_f _ pos) in
      ground (arith, eq)

  update_damage-err :
      (loco : ℕ) (s : SensorType) (value : F) (spec : SensorSpec F) (st : DamageState F) (e : Error)
      → (update_damage loco s value spec st).0 ≡ err e
      → e ≡ overflow
  unfolding update_damage
  update_damage-err loco s value spec st e h =
      ground (arith, damage_increment-err value spec.montsinger_ref_temp e)

  round_of-err :
      (loco : ℕ) (sensors : Dict SensorType (SensorPayload F)) (key : SensorType)
      (spec : SensorSpec F) (total : F) (st : DamageState F) (e : Error)
      → IsSpec spec
      → (round_of loco sensors key spec total st).penalty ≡ err e
      → (e ≡ overflow) × (spec.is_aging_param ≡ true)
  unfolding round_of
  round_of-err loco sensors key spec total st e k h = elim (Option-cases (get key sensors)) [
    | inl absent ↦ ground (arith, absent)
    | inr (p, found) ↦
        let (pen, dev, eq, _, _, _, _) = sensor_penalty_bounds o l p.value spec k in
        ground (arith, found, eq, update_damage-err loco key p.value spec st e)
  ]

  penalty_loop-err :
      (loco : ℕ) (sensors : Dict SensorType (SensorPayload F))
      (specs : List (SensorType × SensorSpec F)) (total : F) (st : DamageState F) (e : Error)
      → AreSpecs specs
      → (penalty_loop loco sensors specs total st).penalties ≡ err e
      → (e ≡ overflow) × Any (λ p. p.1.is_aging_param ≡ true) specs
  unfolding penalty_loop
  penalty_loop-err loco sensors [] total st e k h = cc
  penalty_loop-err loco sensors ((key, spec) ∷ specs) total st e (k, ks) h =
      let this = round_of loco sensors key spec total st in
      ground (
        arith,
        round_of-err loco sensors key spec total st e k,
        penalty_loop-err loco sensors specs this.total_damage this.damage e ks,
      )

  factor_of-ne-err :
      (base : F) (p : Penalty F) (e : Error) → ¬ (base ≼ zero_f) → ¬ (factor_of base p ≡ err e)
  unfolding factor_of
  factor_of-ne-err base p e h k = let (q, eq) = div_total o l p.penalty base h in ground (arith, eq)

  factors_of-ne-err :
      (base : F) (ps : List (Penalty F)) (e : Error)
      → ¬ (base ≼ zero_f)
      → ¬ (factors_of base ps ≡ err e)
  unfolding factors_of
  factors_of-ne-err base [] e h k = cc
  factors_of-ne-err base (p ∷ ps) e h k =
      ground (arith, factor_of-ne-err base p e h, factors_of-ne-err base ps e h)

  not-base-le : (x : F) → ¬ (max x (f.lit 1 6) ≼ zero_f)
  not-base-le x h =
      let pos = zero-lt o 1 6 (omega arith) (omega arith) (omega arith) in
      ground (arith, not-le_of_lt o zero_f (f.lit 1 6) pos, o.le-lt_trans x zero_f (f.lit 1 6))

  health_of-ne-err :
      (r : TelemetryReading F) (now : ℕ) (total : F) (ps : List (Penalty F)) (e : Error)
      → ¬ (health_of r now total ps ≡ err e)
  unfolding health_of
  health_of-ne-err r now total ps e k =
      let sorted = sort_desc ps in
      let sum = f.sum (map (λ p. p.penalty) sorted) in
      ground (arith, factors_of-ne-err (max sum (f.lit 1 6)) (take 5 sorted) e (not-base-le sum))

  no_aging_te33a : ¬ Any (λ p. p.1.is_aging_param ≡ true) (loco_specs {F = F} te33a)
  unfolding loco_specs
  no_aging_te33a h = ground arith

  aging-kz8a :
      (t : LocomotiveType) → Any (λ p. p.1.is_aging_param ≡ true) (loco_specs {F = F} t) → t ≡ kz8a
  aging-kz8a te33a h = absurd (no_aging_te33a h)
  aging-kz8a kz8a h = refl

  pub calculate_health_errors :
      (r : TelemetryReading F) (now : ℕ) (st : DamageState F)
      → ((e : Error)
          → (calculate_health r now st).0 ≡ err e
          → (e ≡ overflow) × (r.locomotive_type ≡ kz8a))
        × (r.locomotive_type ≡ te33a → (h : HealthIndex F) × ((calculate_health r now st).0 ≡ ok h))
  unfolding calculate_health
  calculate_health_errors r now st =
      (only, λ t. ok_of_no_err _ (λ e h. ground (arith, only e h, t)))
    where
      only :
          (e : Error)
          → (calculate_health r now st).0 ≡ err e
          → (e ≡ overflow) × (r.locomotive_type ≡ kz8a)
      only e h =
          elim (>>=-eq-err (penalties_of r st).penalties
            (health_of r now (penalties_of r st).total_damage) h) [
              | inl q ↦
                  let (over, aging) =
                    penalty_loop-err _ _ (loco_specs r.locomotive_type) (f.lit 0 1) st e
                      (loco_specs-AreSpecs o r.locomotive_type) q in
                  (over, aging-kz8a r.locomotive_type aging)
              | inr (ps, _, q) ↦ absurd (health_of-ne-err r now _ ps e q)
            ]

  -- For any reading and damage, `calculate_health` returns an index, or the reading is of a KZ8A
  -- and it raises the OverflowError of the aging rate. The float arithmetic obeys `IsOrdered` and
  -- `IsRounded`.
  pub calculate_health-err :
      (r : TelemetryReading F) (now : ℕ) (st : DamageState F)
      → ((h : HealthIndex F) × ((calculate_health r now st).0 ≡ ok h))
        ⊎ (((calculate_health r now st).0 ≡ err overflow) × (r.locomotive_type ≡ kz8a))
  calculate_health-err r now st = elim (Result-cases (calculate_health r now st).0) [
    | inr index ↦ inl index
    | inl (e, h) ↦
        let (over, kz) = (calculate_health_errors r now st).0 e h in inr (rw over at h, kz)
  ]

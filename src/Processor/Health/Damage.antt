-- ===== src/Processor/Health/Damage.antt =====
-- The damage after a whole reading.
use hackathon_nu.Base.{
  ℕ, ◌≡◌, refl, Bool-cases, Option-cases, inl, inr, List, [], ◌∷◌, All, some, map, nat_eq, pair_eq,
  ◌⊎◌,
}
use hackathon_nu.Base.Dict.{Dict, get, get-put_all-All}
use hackathon_nu.Base.Results.{Result, Result-cases, ok, err}
use hackathon_nu.Float.{Float, ◌≼◌}
use hackathon_nu.Float.Laws.{IsOrdered, IsRounded}
use hackathon_nu.Shared.Enums.{SensorType, sensor_eq}
use hackathon_nu.Shared.Constants.{SensorSpec, loco_specs}
use hackathon_nu.Shared.Schemas.{TelemetryReading, SensorPayload}
use hackathon_nu.Processor.Health.Penalties.{
  DamageState, age, penalise, sensor_penalty, round_of, penalty_loop, sensor_map,
}
use hackathon_nu.Processor.Health.Index.{calculate_health}
use hackathon_nu.Processor.Health.Aging.{
  IsNonneg, Ages, IsRef, loco_specs-IsRef, Ages-refl, Ages-trans, Ages-IsNonneg, update_damage-Ages,
}

module _ {F : Type 0} ⦃f : Float F⦄ (o : IsOrdered F) (l : IsRounded F) where
  damage-age :
      (key : SensorType) (pen dev : F) (sensor : SensorPayload F) (total : F)
      (u : Result F × DamageState F)
      → (age key pen dev sensor total u).damage ≡ u.1
  damage-age key pen dev sensor total (err e, st) = refl
  damage-age key pen dev sensor total (ok d, st) = refl

  penalise-Ages :
      (loco : ℕ) (key : SensorType) (spec : SensorSpec F) (sensor : SensorPayload F) (total : F)
      (st : DamageState F) (r : Result (F × F))
      → IsRef spec
      → sensor.value ≼ sensor.value
      → IsNonneg st
      → Ages loco st (penalise loco key spec sensor total st r).damage
  penalise-Ages loco key spec sensor total st (err e) ref num h = Ages-refl o l loco st h
  penalise-Ages loco key spec sensor total st (ok (pen, dev)) ref num h =
      elim (Bool-cases spec.is_aging_param) [
        | inl aging ↦
            simp (aging, damage-age)
              (update_damage-Ages o l loco key sensor.value spec st ref num h)
        | inr fresh ↦ simp fresh (Ages-refl o l loco st h)
      ]

  round_of-Ages :
      (loco : ℕ) (sensors : Dict SensorType (SensorPayload F)) (key : SensorType)
      (spec : SensorSpec F) (total : F) (st : DamageState F)
      → IsRef spec
      → ((k : SensorType) (p : SensorPayload F) → get k sensors ≡ some p → p.value ≼ p.value)
      → IsNonneg st
      → Ages loco st (round_of loco sensors key spec total st).damage
  round_of-Ages loco sensors key spec total st ref num h = elim (Option-cases (get key sensors)) [
    | inl absent ↦ unfold round_of in rw (absent, round_of) (Ages-refl o l loco st h)
    | inr (p, found) ↦
        unfold round_of in
        rw (found, round_of)
          (penalise-Ages loco key spec p total st (sensor_penalty p.value spec) ref
            (num key p found) h)
  ]

  -- The damage is that of the first round, if it raised, or that of the rounds after it.
  damage-penalty_loop :
      (loco : ℕ) (sensors : Dict SensorType (SensorPayload F)) (key : SensorType)
      (spec : SensorSpec F) (specs : List (SensorType × SensorSpec F)) (total : F)
      (st : DamageState F)
      → let this = round_of loco sensors key spec total st in
        let out = penalty_loop loco sensors ((key, spec) ∷ specs) total st in
        (out.damage ≡ this.damage)
        ⊎ (out.damage ≡ (penalty_loop loco sensors specs this.total_damage this.damage).damage)
  unfolding penalty_loop
  damage-penalty_loop loco sensors key spec specs total st =
      elim (Result-cases (round_of loco sensors key spec total st).penalty) [
        | inl (e, raised) ↦ inl (rw (raised, penalty_loop))
        | inr (a, done) ↦ inr (rw (done, penalty_loop))
      ]

  penalty_loop-Ages :
      (loco : ℕ) (sensors : Dict SensorType (SensorPayload F))
      (specs : List (SensorType × SensorSpec F)) (total : F) (st : DamageState F)
      → All (λ p. IsRef p.1) specs
      → ((k : SensorType) (p : SensorPayload F) → get k sensors ≡ some p → p.value ≼ p.value)
      → IsNonneg st
      → Ages loco st (penalty_loop loco sensors specs total st).damage
  penalty_loop-Ages loco sensors [] total st refs num h =
      unfold penalty_loop in Ages-refl o l loco st h
  penalty_loop-Ages loco sensors ((key, spec) ∷ specs) total st (ref, refs) num h =
      let this = round_of loco sensors key spec total st in
      let first = round_of-Ages loco sensors key spec total st ref num h in
      let later =
        penalty_loop-Ages loco sensors specs this.total_damage this.damage refs num
          (Ages-IsNonneg o l loco st this.damage h first) in
      elim (damage-penalty_loop loco sensors key spec specs total st) [
        | inl e ↦ rw e first
        | inr e ↦ rw e (Ages-trans o l loco st this.damage _ first later)
      ]

  All-map :
      (ps : List (SensorPayload F))
      → All (λ p. p.value ≼ p.value) ps
      → All
          (λ (q : SensorType × SensorPayload F). q.1.value ≼ q.1.value)
          (map (λ (p : SensorPayload F). (p.sensor_type, p)) ps)
  All-map [] h = tt
  All-map (p ∷ ps) (h, hs) = (h, All-map ps hs)

  -- For readings without NaN and damage that is not negative: whether the index is returned or an
  -- exception raised, no damage entry of any locomotive and sensor falls or becomes negative or
  -- NaN, and the entries of the other locomotives are unchanged.
  pub calculate_health-Ages :
      (r : TelemetryReading F) (now : ℕ) (st : DamageState F)
      → All (λ p. p.value ≼ p.value) r.sensors
      → IsNonneg st
      → Ages r.locomotive_id st (calculate_health r now st).1
        × IsNonneg (calculate_health r now st).1
  unfolding calculate_health sensor_map
  calculate_health-Ages r now st num h =
      let numbers =
        get-put_all-All (λ (p : SensorPayload F). p.value ≼ p.value)
          (map (λ (p : SensorPayload F). (p.sensor_type, p)) r.sensors) [] (All-map r.sensors num)
          (λ k p e. unfold get in cc) in
      let ages =
        penalty_loop-Ages r.locomotive_id (sensor_map r.sensors) (loco_specs r.locomotive_type)
          (f.lit 0 1) st (loco_specs-IsRef o l r.locomotive_type) numbers h in
      (ages, Ages-IsNonneg o l r.locomotive_id st _ h ages)

-- ===== src/Processor/Health/Penalties.antt =====
-- health_service.py, up to the loop of `calculate_health`: deviations, penalties and damage.
use hackathon_nu.Base.{
  ℕ, Option, none, some, List, [], ◌∷◌, map, nat_eq, nat_beq, pair_eq, String, if◌then◌else◌,
}
use hackathon_nu.Base.Dict.{Dict, get, put, put_all}
use hackathon_nu.Base.Results.{Result, ok, err, zero_division, overflow, or_raise, ◌>>=◌}
use hackathon_nu.Float.{Float, max, min}
use hackathon_nu.Shared.Enums.{
  SensorType, sensor_eq, ThresholdType, bidirectional, upper_bound, lower_bound, exact_match,
}
use hackathon_nu.Shared.Constants.{
  SensorSpec, crit_range, montsinger_degree_step, montsinger_base_damage,
}
use hackathon_nu.Shared.Schemas.{SensorPayload}
use hackathon_nu.Processor.Filter.{Key}

abbrev pub DamageState : Type 0 → Type 0
DamageState F = Dict Key F

-- A tuple of the list `penalties`.
pub record Penalty (F : Type 0) : Type 0 where
  pub sensor_key : SensorType
  pub penalty : F
  pub dev_pct : F
  pub value : F
  pub unit : String

-- {s.sensor_type.value: s for s in reading.sensors}
unfoldable pub sensor_map :
    {F : Type 0} → List (SensorPayload F) → Dict SensorType (SensorPayload F)
unfolding put_all
sensor_map ps = put_all (map (λ p. (p.sensor_type, p)) ps) []

-- What one round of the loop over the specifications leaves; no penalty where the sensor is absent.
pub record Round (F : Type 0) : Type 0 where
  pub penalty : Result (Option (Penalty F))
  pub total_damage : F
  pub damage : DamageState F

pub record Penalties (F : Type 0) : Type 0 where
  pub penalties : Result (List (Penalty F))
  pub total_damage : F
  pub damage : DamageState F

abbrev pub add_penalty :
    {F : Type 0} → Option (Penalty F) → Result (List (Penalty F)) → Result (List (Penalty F))
add_penalty o (err e) = err e
add_penalty none (ok ps) = ok ps
add_penalty (some p) (ok ps) = ok (p ∷ ps)

module _ {F : Type 0} ⦃f : Float F⦄ where
  abbrev deviation_by : ThresholdType → F → SensorSpec F → F
  deviation_by bidirectional value spec = f.abs (f.sub value spec.p_nom)
  deviation_by upper_bound value spec = max (f.lit 0 1) (f.sub value spec.p_nom)
  deviation_by lower_bound value spec = max (f.lit 0 1) (f.sub spec.p_nom value)
  deviation_by exact_match value spec =
      if f.isclose value spec.p_nom (f.lit 1 6) then f.lit 0 1 else f.abs (crit_range spec)

  unfoldable pub raw_deviation : F → SensorSpec F → F
  raw_deviation value spec = deviation_by spec.threshold_type value spec

  unfoldable pub sensor_penalty : F → SensorSpec F → Result (F × F)
  unfolding raw_deviation
  sensor_penalty value spec = do
    let exceedance = max (f.lit 0 1) (f.sub (raw_deviation value spec) spec.delta_safe)
    ratio ← or_raise zero_division (f.div exceedance (crit_range spec))
    let normalized = min (f.lit 10 1) ratio
    power ← or_raise overflow (f.pow normalized spec.k)
    ok (f.mul spec.weight power, f.mul normalized (f.lit 1000 1))

  -- `_damage_state.get(key, 0.0)`
  abbrev pub damage_or : Option F → F
  damage_or none = f.lit 0 1
  damage_or (some d) = d

  abbrev pub damage_of : Key → DamageState F → F
  damage_of key st = damage_or (get key st)

  unfoldable pub damage_increment : F → F → Result F
  damage_increment value ref = do
    exponent ← or_raise zero_division (f.div (f.sub value ref) montsinger_degree_step)
    aging_rate ← or_raise overflow (f.pow (f.lit 20 1) exponent)
    ok (f.mul (f.sub aging_rate (f.lit 10 1)) montsinger_base_damage)

  abbrev pub add_damage : Key → Result F → DamageState F → Result F × DamageState F
  add_damage key (err e) st = (err e, st)
  add_damage key (ok increment) st =
      let total = f.add (damage_of key st) increment in (ok total, put key total st)

  unfoldable pub update_damage :
      ℕ → SensorType → F → SensorSpec F → DamageState F → Result F × DamageState F
  unfolding damage_increment
  update_damage loco s value spec st =
      if f.le value spec.montsinger_ref_temp
      then (ok (damage_of (loco, s) st), st)
      else add_damage (loco, s) (damage_increment value spec.montsinger_ref_temp) st

  abbrev pub make_penalty : SensorType → F → F → SensorPayload F → Penalty F
  make_penalty key penalty dev_pct sensor = record {
    sensor_key = key;
    penalty = penalty;
    dev_pct = dev_pct;
    value = sensor.value;
    unit = sensor.unit;
  }

  -- The body's part on aging sensors, after the penalty is known.
  abbrev pub age : SensorType → F → F → SensorPayload F → F → Result F × DamageState F → Round F
  age key penalty dev_pct sensor total (err e, st) = record {
    penalty = err e;
    total_damage = total;
    damage = st;
  }
  age key penalty dev_pct sensor total (ok damage, st) = record {
    penalty = ok (some (make_penalty key (f.add penalty damage) dev_pct sensor));
    total_damage = f.add total damage;
    damage = st;
  }

  abbrev pub penalise :
      ℕ → SensorType → SensorSpec F → SensorPayload F → F → DamageState F → Result (F × F) → Round F
  penalise loco key spec sensor total st (err e) = record {
    penalty = err e;
    total_damage = total;
    damage = st;
  }
  penalise loco key spec sensor total st (ok (penalty, dev_pct)) =
      if spec.is_aging_param
      then age key penalty dev_pct sensor total (update_damage loco key sensor.value spec st)
      else record {
        penalty = ok (some (make_penalty key penalty dev_pct sensor));
        total_damage = total;
        damage = st;
      }

  unfoldable pub round_of :
      ℕ
      → Dict SensorType (SensorPayload F)
      → SensorType
      → SensorSpec F
      → F
      → DamageState F
      → Round F
  unfolding update_damage sensor_penalty
  round_of loco sensors key spec total st = elim (get key sensors) [
    | none ↦ record { penalty = ok none; total_damage = total; damage = st }
    | some sensor ↦ penalise loco key spec sensor total st (sensor_penalty sensor.value spec)
  ]

  -- The loop over `specs.items()`.
  unfoldable pub penalty_loop :
      ℕ
      → Dict SensorType (SensorPayload F)
      → Dict SensorType (SensorSpec F)
      → F
      → DamageState F
      → Penalties F
  unfolding round_of
  penalty_loop loco sensors [] total st = record {
    penalties = ok [];
    total_damage = total;
    damage = st;
  }
  penalty_loop loco sensors ((key, spec) ∷ specs) total st =
      let this = round_of loco sensors key spec total st in
      let rest = penalty_loop loco sensors specs this.total_damage this.damage in
      elim this.penalty [
        | err e ↦ record {
          penalties = err e;
          total_damage = this.total_damage;
          damage = this.damage;
        }
        | ok o ↦ record {
          penalties = add_penalty o rest.penalties;
          total_damage = rest.total_damage;
          damage = rest.damage;
        }
      ]

-- The dict comprehension of `get_damage_state`.
unfoldable pub get_damage_state : {F : Type 0} → ℕ → DamageState F → Dict SensorType F
get_damage_state loco [] = []
get_damage_state loco (((l, s), d) ∷ st) =
    let rest = get_damage_state loco st in if nat_beq l loco then (s, d) ∷ rest else rest

-- ===== src/Analytics/Fallback.antt =====
-- servicer.py, `_compute_health_from_readings`: the health that is computed from the latest readings
-- where no index is cached, with DEFAULT_THRESHOLDS and HEALTH_WEIGHTS of shared/shared/constants.py.
use hackathon_nu.Base.{
  ℕ, Bool, true, false, ◌&&◌, Option, none, some, String, string_eq, List, [], ◌∷◌, take,
  if◌then◌else◌,
}
use hackathon_nu.Base.Dict.{Dict, get}
use hackathon_nu.Base.Results.{Result, ok, err, Error, zero_division, or_raise, ◌>>=◌}
use hackathon_nu.Float.{Float, max, min}
pub mod Scored

-- A row of `get_latest_readings`.
pub record LatestRow (F : Type 0) : Type 0 where
  pub sensor_type : String
  pub value : F
  pub unit : String
  pub locomotive_type : String

-- `HealthFactor` of the protocol; the shares that are not set are 0.
pub record FactorMessage (F : Type 0) : Type 0 where
  pub sensor_type : String
  pub value : F
  pub unit : String
  pub penalty : F

pub record HealthSnapshot (F : Type 0) : Type 0 where
  pub locomotive_id : String
  pub locomotive_type : String
  pub overall_score : F
  pub category : String
  pub top_factors : List (FactorMessage F)
  pub damage_penalty : F
  pub calculated_at : ℕ

-- The penalty that is added up, with the factor that shows it.
abbrev pub Scoring : Type 0 → Type 0
Scoring F = F × List (FactorMessage F)

-- table.get(key, default)
abbrev pub or_fallback : {A : Type 0} → A → Option A → A
or_fallback d none = d
or_fallback d (some v) = v

module _ {F : Type 0} ⦃f : Float F⦄ where
  unfoldable pub default_thresholds : Dict String (F × F)
  default_thresholds =
      ("diesel_rpm", (f.lit 0 1, f.lit 10_500 1))
      ∷ ("oil_pressure", (f.lit 15 1, f.lit 50 1))
      ∷ ("coolant_temp", (f.lit 700 1, f.lit 950 1))
      ∷ ("fuel_level", (f.lit 50 1, f.lit 1000 1))
      ∷ ("fuel_rate", (f.lit 100 1, f.lit 2000 1))
      ∷ ("traction_motor_temp", (f.lit 400 1, f.lit 1300 1))
      ∷ ("catenary_voltage", (f.lit 19_000 0, f.lit 29_000 0))
      ∷ ("pantograph_current", (f.lit 0 1, f.lit 4000 1))
      ∷ ("transformer_temp", (f.lit 400 1, f.lit 900 1))
      ∷ ("igbt_temp", (f.lit 300 1, f.lit 850 1))
      ∷ ("dc_link_voltage", (f.lit 2000 0, f.lit 3200 0))
      ∷ ("speed_actual", (f.lit 0 1, f.lit 1200 1))
      ∷ ("brake_pipe_pressure", (f.lit 40 1, f.lit 55 1))
      ∷ ("wheel_slip_ratio", (f.lit 0 1, f.lit 5 1))
      ∷ ("crankcase_pressure", (f.lit 0 1, f.lit 500 1))
      ∷ []

  unfoldable pub health_weights : Dict String F
  health_weights =
      ("brake_pipe_pressure", f.lit 40 2)
      ∷ ("crankcase_pressure", f.lit 40 2)
      ∷ ("oil_pressure", f.lit 35 2)
      ∷ ("igbt_temp", f.lit 30 2)
      ∷ ("catenary_voltage", f.lit 25 2)
      ∷ ("coolant_temp", f.lit 20 2)
      ∷ ("transformer_temp", f.lit 20 2)
      ∷ ("wheel_slip_ratio", f.lit 20 2)
      ∷ ("dc_link_voltage", f.lit 20 2)
      ∷ ("traction_motor_temp", f.lit 15 2)
      ∷ ("diesel_rpm", f.lit 15 2)
      ∷ ("speed_actual", f.lit 15 2)
      ∷ ("pantograph_current", f.lit 15 2)
      ∷ ("fuel_level", f.lit 10 2)
      ∷ ("fuel_rate", f.lit 10 2)
      ∷ ("recuperation_current", f.lit 5 2)
      ∷ []

  abbrev pub thresholds_of : String → F × F
  thresholds_of sensor = or_fallback (f.lit 0 1, f.lit 1000 1) (get sensor default_thresholds)

  abbrev pub weight_of : String → F
  weight_of sensor = or_fallback (f.lit 5 2) (get sensor health_weights)

  -- a / b
  abbrev pub quotient : F → F → Result F
  quotient a b = or_raise zero_division (f.div a b)

  -- lo <= value <= hi
  abbrev pub inside_score : F → F → F → Result F
  inside_score lo hi value = do
    mid ← quotient (f.add lo hi) (f.lit 2 0)
    span ← quotient (f.sub hi lo) (f.lit 2 0)
    (if f.lt (f.lit 0 0) span
        then quotient (f.abs (f.sub value mid)) span
          >>= (λ off. ok (max (f.lit 0 1) (f.sub (f.lit 10 1) (f.mul off (f.lit 3 1)))))
        else ok (f.lit 10 1))

  -- A value that is `over` past the bound.
  abbrev pub outside_score : F → F → Result F
  outside_score over bound = do
    share ← quotient over (max bound (f.lit 10 1))
    ok (max (f.lit 0 1) (f.sub (f.lit 10 1) share))

  unfoldable pub sensor_score : F → F → F → Result F
  sensor_score lo hi value =
      if f.le lo value && f.le value hi
      then inside_score lo hi value
      else if f.lt value lo
      then outside_score (f.sub lo value) lo
      else outside_score (f.sub value hi) hi

  unfoldable pub score_rows : F → List (LatestRow F) → Result (Scoring F)
  score_rows total [] = ok (total, [])
  score_rows total (row ∷ rows) = do
    let bounds = thresholds_of row.sensor_type
    score ← sensor_score bounds.0 bounds.1 row.value
    let penalty = f.mul (f.sub (f.lit 10 1) score) (weight_of row.sensor_type)
    (sum, factors) ← score_rows (f.add total penalty) rows
    ok (
      sum,
      record {
        sensor_type = row.sensor_type;
        value = row.value;
        unit = row.unit;
        penalty = f.round penalty 4;
      }
          ∷ factors,
    )

  -- factors.sort(key=lambda f: f.penalty, reverse=True)
  unfoldable pub insert_factor : FactorMessage F → List (FactorMessage F) → List (FactorMessage F)
  insert_factor x [] = x ∷ []
  insert_factor x (y ∷ ys) = if f.lt x.penalty y.penalty then y ∷ insert_factor x ys else x ∷ y ∷ ys

  unfoldable pub sort_factors : List (FactorMessage F) → List (FactorMessage F)
  unfolding insert_factor
  sort_factors [] = []
  sort_factors (x ∷ xs) = insert_factor x (sort_factors xs)

  abbrev pub overall_of : F → F
  overall_of total =
      max (f.lit 0 1) (min (f.lit 1000 1) (f.sub (f.lit 1000 1) (f.mul total (f.lit 1000 1))))

  abbrev pub band_of : F → String
  band_of overall =
      if f.le (f.lit 80 0) overall
      then "Норма"
      else if f.le (f.lit 50 0) overall
      then "Внимание"
      else "Критично"

  abbrev pub type_of : List (LatestRow F) → String
  type_of [] = "TE33A"
  type_of (row ∷ rows) = row.locomotive_type

  unfoldable pub compute_health_from_readings :
      ℕ → String → List (LatestRow F) → Result (HealthSnapshot F)
  compute_health_from_readings now locomotive_id rows = do
    (total, factors) ← score_rows (f.lit 0 1) rows
    let overall = overall_of total
    ok (record {
      locomotive_id = locomotive_id;
      locomotive_type = type_of rows;
      overall_score = f.round overall 1;
      category = band_of overall;
      top_factors = take 5 (sort_factors factors);
      damage_penalty = f.lit 0 1;
      calculated_at = now;
    })

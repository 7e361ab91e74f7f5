-- ===== src/Processor/Tests/Examples.antt =====
-- The theorems on the services of the processor, at the concrete readings.
use hackathon_nu.Base.{nat_eq, pair_eq, ◌≤◌, ◌⊎◌, ◌≡◌, refl, none, some, List, [], ◌∷◌, All, false}
use hackathon_nu.Base.Dict.{get}
use hackathon_nu.Base.Int.{ℤ}
use hackathon_nu.Base.Results.{ok, err, overflow}
use hackathon_nu.Float.{◌≼◌, zero_f}
use hackathon_nu.Float.Fixed.{fixed_float, fixed_ops}
use hackathon_nu.Float.Fixed.Ordered.{fixed-IsOrdered}
use hackathon_nu.Float.Fixed.Rounded.{fixed-IsRounded}
use hackathon_nu.Shared.Enums.{
  sensor_eq, SensorType, diesel_rpm, oil_pressure, coolant_temp, igbt_temp, catenary_voltage,
  LocomotiveType, te33a, kz8a, sensor_beq,
}
use hackathon_nu.Shared.Constants.{SensorSpec, loco_specs, aess_masked, crit_range}
use hackathon_nu.Shared.Schemas.{AlertEvent, HealthIndex}
use hackathon_nu.Processor.Filter.{ema_filter, reset_filter}
use hackathon_nu.Processor.Filter.Reset.{ema_filter-reset_filter}
use hackathon_nu.Processor.Filter.Traces.{run, get-run}
use hackathon_nu.Processor.Ingestion.{FilterState, flatten_reading}
use hackathon_nu.Processor.Ingestion.Rows.{IsFlattened, flatten_reading-IsFlattened}
use hackathon_nu.Processor.Health.Penalties.{Penalty, sensor_penalty}
use hackathon_nu.Processor.Health.Index.{calculate_health, health_of}
use hackathon_nu.Processor.Health.Score.{InBand, calculate_health-InBand}
use hackathon_nu.Processor.Health.Bounds.{IsSpec, sensor_penalty_bounds}
use hackathon_nu.Processor.Health.Raises.{calculate_health-err}
use hackathon_nu.Processor.Health.Aging.{Ages, IsNonneg}
use hackathon_nu.Processor.Health.Damage.{calculate_health-Ages}
use hackathon_nu.Processor.Health.Factors.{AreNumbers, IsTopFive, health_of-IsTopFive}
use hackathon_nu.Processor.Alerts.Evaluate.{
  value_map, normalized_deviation, severity_from_spec, evaluate_alerts,
}
use hackathon_nu.Processor.Alerts.Selection.{IsAsleep, Alerted, evaluate_alerts-Alerted}
use hackathon_nu.Processor.Alerts.Masked.{evaluate_alerts-unmasked}
use hackathon_nu.Processor.Alerts.Severity.{severity_from_spec-grows}
use hackathon_nu.Processor.Tests.{num, asleep_reading, hot_reading}
use hackathon_nu.Processor.Tests.Runs.{hot_index, hot_run, env}

evaluate_alerts-Alerted_example :
    (alerts : List (AlertEvent ℤ)) × (evaluate_alerts env asleep_reading ≡ ok alerts)
    × Alerted env asleep_reading 0 (loco_specs te33a) alerts
evaluate_alerts-Alerted_example =
    evaluate_alerts-Alerted fixed-IsOrdered fixed-IsRounded env asleep_reading

asleep : IsAsleep asleep_reading
unfolding value_map fixed_ops get sensor_beq
asleep = record { diesel = refl; rpm = num 40 0; measured = refl; slow = refl }

evaluate_alerts-unmasked_example :
    (alerts : List (AlertEvent ℤ)) × (evaluate_alerts env asleep_reading ≡ ok alerts)
    × All (λ a. aess_masked a.sensor_type ≡ false) alerts
evaluate_alerts-unmasked_example =
    evaluate_alerts-unmasked fixed-IsOrdered fixed-IsRounded env asleep_reading asleep

abbrev voltage_spec : SensorSpec ℤ
voltage_spec = record {
  weight = num 25 0;
  p_nom = num 25000 0;
  delta_safe = num 4000 0;
  p_crit = num 19000 0;
  threshold_type = hackathon_nu.Shared.Enums.bidirectional;
  k = num 20 1;
  is_aging_param = false;
  montsinger_ref_temp = num 0 1;
}

voltage_spec-IsSpec : IsSpec voltage_spec
unfolding fixed_ops
voltage_spec-IsSpec = record { weight_nonneg = refl; weight_le = refl; k_nonneg = refl }

deviation_low : normalized_deviation (num 20500 0) voltage_spec ≡ ok (num 25 2)
unfolding normalized_deviation fixed_ops crit_range
deviation_low = refl

deviation_high : normalized_deviation (num 19500 0) voltage_spec ≡ ok (num 75 2)
unfolding normalized_deviation fixed_ops crit_range
deviation_high = refl

severity_low : severity_from_spec (num 20500 0) voltage_spec ≡ ok hackathon_nu.Shared.Enums.info
unfolding severity_from_spec fixed_ops crit_range
severity_low = refl

severity_high :
    severity_from_spec (num 19500 0) voltage_spec ≡ ok hackathon_nu.Shared.Enums.critical
unfolding severity_from_spec fixed_ops crit_range
severity_high = refl

low_high : num 25 2 ≼ num 75 2
unfolding fixed_ops
low_high = refl

same_weight : voltage_spec.weight ≼ voltage_spec.weight
unfolding fixed_ops
same_weight = refl

severity_from_spec-grows_example : 0 ≤ 2
severity_from_spec-grows_example =
    severity_from_spec-grows fixed-IsOrdered (num 20500 0) (num 19500 0) voltage_spec voltage_spec
      (num 25 2) (num 75 2) hackathon_nu.Shared.Enums.info hackathon_nu.Shared.Enums.critical
      deviation_low deviation_high low_high same_weight severity_low severity_high

calculate_health-InBand_example :
    (num 0 0 ≼ hot_index.overall_score)
    × (hot_index.overall_score ≼ num 100 0)
    × ((score : ℤ) × (num 0 1 ≼ score)
        × (score ≼ num 1000 1)
        × (hot_index.overall_score ≡ fixed_float.round score 2)
        × InBand score "Норма")
calculate_health-InBand_example =
    calculate_health-InBand fixed-IsOrdered fixed-IsRounded hot_reading 5 [] hot_index hot_run

sensor_penalty_bounds_example :
    (p d : ℤ) × (sensor_penalty (num 19500 0) voltage_spec ≡ ok (p, d))
    × (zero_f ≼ p)
    × (p ≼ num 25 0)
    × (zero_f ≼ d)
    × (d ≼ num 1000 1)
sensor_penalty_bounds_example =
    sensor_penalty_bounds fixed-IsOrdered fixed-IsRounded (num 19500 0) voltage_spec
      voltage_spec-IsSpec

calculate_health-err_example :
    ((h : HealthIndex ℤ) × ((calculate_health hot_reading 5 []).0 ≡ ok h))
    ⊎ (((calculate_health hot_reading 5 []).0 ≡ err overflow) × (kz8a ≡ kz8a))
calculate_health-err_example = calculate_health-err fixed-IsOrdered fixed-IsRounded hot_reading 5 []

hot_numbers : All (λ p. p.value ≼ p.value) hot_reading.sensors
unfolding fixed_ops
hot_numbers = (refl, (refl, tt))

no_damage : IsNonneg {F = ℤ} []
unfolding fixed_ops get
no_damage k = refl

calculate_health-Ages_example :
    Ages 7 [] (calculate_health hot_reading 5 []).1 × IsNonneg (calculate_health hot_reading 5 []).1
calculate_health-Ages_example =
    calculate_health-Ages fixed-IsOrdered fixed-IsRounded hot_reading 5 [] hot_numbers no_damage

abbrev hot_penalties : List (Penalty ℤ)
hot_penalties =
    record {
      sensor_key = catenary_voltage;
      penalty = num 140625 4;
      dev_pct = num 75 0;
      value = num 19500 0;
      unit = "u";
    }
    ∷ record {
      sensor_key = igbt_temp;
      penalty = num 3 3;
      dev_pct = num 0 0;
      value = num 69 0;
      unit = "u";
    }
    ∷ []

hot_penalties-AreNumbers : AreNumbers hot_penalties
unfolding fixed_ops
hot_penalties-AreNumbers = (refl, (refl, tt))

hot_health : health_of hot_reading 5 (num 3 3) hot_penalties ≡ ok hot_index
unfolding health_of fixed_ops
hot_health = refl

health_of-IsTopFive_example : IsTopFive hot_penalties hot_index.top_factors
health_of-IsTopFive_example =
    health_of-IsTopFive fixed-IsOrdered hot_reading 5 (num 3 3) hot_penalties hot_index
      hot_penalties-AreNumbers hot_health

ema_filter-reset_filter_example :
    (ema_filter 7 igbt_temp (num 60 0) (reset_filter 7 none (((7, igbt_temp), num 50 0) ∷ []))).0
    ≡ num 60 0
unfolding fixed_ops
ema_filter-reset_filter_example =
    ema_filter-reset_filter 7 none 7 igbt_temp (num 60 0) (((7, igbt_temp), num 50 0) ∷ [])

get-run_example :
    get
      (7, igbt_temp)
      (run
        (((7, igbt_temp), num 60 0) ∷ ((8, igbt_temp), num 90 0) ∷ ((7, igbt_temp), num 70 0) ∷ [])
        [])
    ≡ some (num 615 1)
unfolding fixed_ops get sensor_beq hackathon_nu.Processor.Filter.smooth
    hackathon_nu.Shared.Constants.ema_gain
get-run_example =
    get-run
      (((7, igbt_temp), num 60 0) ∷ ((8, igbt_temp), num 90 0) ∷ ((7, igbt_temp), num 70 0) ∷ [])
      (7, igbt_temp) []

abbrev start : FilterState ℤ
start = record { ema = []; last_persisted = [] }

flatten_reading-IsFlattened_example :
    IsFlattened hot_reading hot_reading.sensors start (flatten_reading hot_reading start)
flatten_reading-IsFlattened_example =
    flatten_reading-IsFlattened fixed-IsOrdered fixed-IsRounded hot_reading start

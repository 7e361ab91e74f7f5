-- ===== src/Processor/Tests/Runs.antt =====
-- Runs of the services on the concrete readings.
use hackathon_nu.Base.{◌≡◌, refl, List, [], ◌∷◌, map}
use hackathon_nu.Base.Int.{ℤ}
use hackathon_nu.Base.Results.{Result, ok}
use hackathon_nu.Float.Fixed.{fixed_float, fixed_ops}
use hackathon_nu.Base.Dict.{get}
use hackathon_nu.Shared.Enums.{
  sensor_beq, SensorType, coolant_temp, igbt_temp, catenary_voltage, AlertSeverity, emergency, kz8a,
}
use hackathon_nu.Shared.Constants.{loco_specs, crit_range, aess_masked}
use hackathon_nu.Shared.Schemas.{AlertEvent, HealthIndex}
use hackathon_nu.Processor.Health.Index.{calculate_health}
use hackathon_nu.Processor.Alerts.Evaluate.{
  Environment, evaluate_alerts, spec_alert, value_map, is_aess_active, threshold_violated,
  pressure_expected, severity_from_spec, make_alert,
}
use hackathon_nu.Processor.Tests.{num, hot_reading, asleep_reading}

abbrev pub hot_index : HealthIndex ℤ
hot_index = record {
  locomotive_id = 7;
  locomotive_type = kz8a;
  overall_score = num 8593 2;
  category = "Норма";
  top_factors =
      record {
        sensor_type = catenary_voltage;
        value = num 19500 0;
        unit = "u";
        penalty = num 140625 4;
        contribution_pct = num 9998 2;
        deviation_pct = num 75 0;
      }
      ∷ record {
        sensor_type = igbt_temp;
        value = num 69 0;
        unit = "u";
        penalty = num 3 3;
        contribution_pct = num 2 2;
        deviation_pct = num 0 0;
      }
      ∷ [];
  damage_penalty = num 3 3;
  calculated_at = 5;
}

pub hot_run : (calculate_health hot_reading 5 []).0 ≡ ok hot_index
unfolding calculate_health fixed_ops loco_specs get sensor_beq crit_range
hot_run = refl

abbrev pub env : Environment ℤ
env = record { now = 1; ids = λ n. n; show = λ x. "x" }

-- Asleep, the engine's speed and oil pressure raise no alert; the coolant's does.
severities : Result (List (AlertEvent ℤ)) → List (SensorType × AlertSeverity)
severities (ok alerts) = map (λ (a : AlertEvent ℤ). (a.sensor_type, a.severity)) alerts
severities _ = []

asleep_run : severities (evaluate_alerts env asleep_reading) ≡ (coolant_temp, emergency) ∷ []
unfolding severities evaluate_alerts fixed_ops loco_specs get sensor_beq crit_range spec_alert
    value_map is_aess_active threshold_violated pressure_expected severity_from_spec make_alert
    aess_masked
asleep_run = refl

-- ===== src/Processor/Alerts/Evaluate.antt =====
-- alert_evaluator.py, thresholds, severities and the loop of `evaluate_alerts`. The clock, the
-- supply of ids and the two-decimal format of a float are parameters.
use Prim.Native.String.{◌++◌ as str_append}
use hackathon_nu.Base.{
  ℕ, suc, Bool, true, false, not, ◌&&◌, ◌||◌, Option, none, some, List, [], ◌∷◌, map, nat_eq,
  String, if◌then◌else◌, ◌==◌,
}
use hackathon_nu.Base.Dict.{Dict, get, put_all}
use hackathon_nu.Base.Results.{Result, ok, err, zero_division, or_raise, ◌>>=◌}
use hackathon_nu.Float.{Float, max, min}
use hackathon_nu.Shared.Enums.{
  SensorType, sensor_eq, sensor_value, type_value, LocomotiveType, te33a, kz8a, diesel_rpm,
  oil_pressure, ThresholdType, bidirectional, upper_bound, lower_bound, exact_match, AlertSeverity,
  info, warning, critical, emergency,
}
use hackathon_nu.Shared.Constants.{
  SensorSpec, crit_range, loco_specs, aess_rpm_threshold, aess_masked,
}
use hackathon_nu.Shared.Schemas.{TelemetryReading, SensorPayload, AlertEvent}
use hackathon_nu.Processor.Alerts.Recommendations.{get_recommendation}

-- What the evaluator asks of its environment.
pub record Environment (F : Type 0) : Type 0 where
  pub now : ℕ
  -- the n-th result of `generate_id` in this call
  pub ids : ℕ → ℕ
  -- f"{x:.2f}"
  pub show : F → String

-- {s.sensor_type.value: s.value for s in reading.sensors}
unfoldable pub value_map : {F : Type 0} → List (SensorPayload F) → Dict SensorType F
unfolding put_all
value_map ps = put_all (map (λ p. (p.sensor_type, p.value)) ps) []

unfoldable pub unit_map : {F : Type 0} → List (SensorPayload F) → Dict SensorType String
unfolding put_all
unit_map ps = put_all (map (λ p. (p.sensor_type, p.unit)) ps) []

abbrev pub or_else : {A : Type 0} → A → Option A → A
or_else a none = a
or_else a (some b) = b

abbrev pub is_te33a : LocomotiveType → Bool
is_te33a te33a = true
is_te33a kz8a = false

module _ {F : Type 0} ⦃f : Float F⦄ where
  unfoldable pub is_aess_active : Dict SensorType F → Bool
  is_aess_active sensors = elim (get diesel_rpm sensors) [
    | none ↦ false
    | some rpm ↦ f.le rpm aess_rpm_threshold
  ]

  abbrev pub violated_by : ThresholdType → F → SensorSpec F → Bool
  violated_by bidirectional value spec = f.lt spec.delta_safe (f.abs (f.sub value spec.p_nom))
  violated_by upper_bound value spec = f.lt (f.add spec.p_nom spec.delta_safe) value
  violated_by lower_bound value spec = f.lt value (f.sub spec.p_nom spec.delta_safe)
  violated_by exact_match value spec = not (f.lt (f.abs (f.sub value spec.p_nom)) (f.lit 1 6))

  unfoldable pub threshold_violated : F → SensorSpec F → Bool
  threshold_violated value spec = violated_by spec.threshold_type value spec

  abbrev pub severity_deviation : ThresholdType → F → SensorSpec F → F
  severity_deviation bidirectional value spec = f.abs (f.sub value spec.p_nom)
  severity_deviation upper_bound value spec = max (f.lit 0 1) (f.sub value spec.p_nom)
  severity_deviation lower_bound value spec = max (f.lit 0 1) (f.sub spec.p_nom value)
  severity_deviation exact_match value spec = f.abs (crit_range spec)

  -- The deviation as a share of the critical range, at most 1.
  unfoldable pub normalized_deviation : F → SensorSpec F → Result F
  normalized_deviation value spec =
      let exceedance =
        max (f.lit 0 1)
          (f.sub (severity_deviation spec.threshold_type value spec) spec.delta_safe) in
      if f.lt (f.lit 0 0) (crit_range spec)
      then (do
        ratio ← or_raise zero_division (f.div exceedance (crit_range spec))
        ok (min (f.lit 10 1) ratio))
      else ok (f.lit 10 1)

  unfoldable pub severity_of : F → F → AlertSeverity
  severity_of normalized weight =
      if f.le (f.lit 9 1) normalized || f.le (f.lit 35 0) weight
      then emergency
      else if f.le (f.lit 6 1) normalized
      then critical
      else if f.le (f.lit 3 1) normalized
      then warning
      else info

  unfoldable pub severity_from_spec : F → SensorSpec F → Result AlertSeverity
  unfolding normalized_deviation severity_of
  severity_from_spec value spec = do
    normalized ← normalized_deviation value spec
    ok (severity_of normalized spec.weight)

  abbrev bounds_by : ThresholdType → SensorSpec F → F × F
  bounds_by upper_bound spec = (f.sub spec.p_nom spec.delta_safe, spec.p_crit)
  bounds_by lower_bound spec = (spec.p_crit, f.add spec.p_nom spec.delta_safe)
  bounds_by _ spec =
      let half = f.abs (f.sub spec.p_crit spec.p_nom) in
      (f.sub spec.p_nom half, f.add spec.p_nom half)

  -- thr_min, thr_max
  unfoldable pub alert_bounds : SensorSpec F → F × F
  alert_bounds spec = bounds_by spec.threshold_type spec

  unfoldable pub alert_message :
      Environment F → LocomotiveType → SensorType → F → String → F × F → String
  alert_message env t s value unit (low, high) = str_append "[" (
      str_append (type_value t) (
        str_append "] " (
          str_append (sensor_value s) (
            str_append " = " (
              str_append (env.show value) (
                str_append " " (
                  str_append unit (
                    str_append " (допустимо: " (
                      str_append (env.show low) (
                        str_append "–" (
                          str_append (env.show high)
                            (str_append " " (str_append unit ")")))))))))))))

  -- 1.5 + (rpm / 1050.0) * 1.5
  unfoldable pub min_expected_pressure : Dict SensorType F → Result F
  min_expected_pressure sensors = do
    share ←
        or_raise zero_division
          (f.div (or_else (f.lit 0 1) (get diesel_rpm sensors)) (f.lit 10500 1))
    ok (f.add (f.lit 15 1) (f.mul share (f.lit 15 1)))

  -- Whether the cross-check against the engine speed clears the oil pressure.
  unfoldable pub pressure_expected : Dict SensorType F → SensorType → F → Result Bool
  pressure_expected sensors s value =
      if s == oil_pressure
      then (do least ← min_expected_pressure sensors; ok (f.le least value))
      else ok false

  unfoldable pub make_alert :
      Environment F
      → TelemetryReading F
      → SensorType
      → SensorSpec F
      → F
      → AlertSeverity
      → ℕ
      → AlertEvent F
  make_alert env r s spec value severity n =
      let bounds = alert_bounds spec in
      record {
        id = env.ids n;
        locomotive_id = r.locomotive_id;
        sensor_type = s;
        severity = severity;
        value = value;
        threshold_min = bounds.0;
        threshold_max = bounds.1;
        message =
            alert_message env r.locomotive_type s value (or_else "" (get s (unit_map r.sensors)))
              bounds;
        recommendation = get_recommendation s severity;
        timestamp = env.now;
        acknowledged = false;
      }

  -- The body of the loop past the tests on the sensor; `n` ids are used so far.
  abbrev pub judge :
      Environment F
      → TelemetryReading F
      → SensorType
      → SensorSpec F
      → F
      → ℕ
      → Result Bool
      → Result (Option (AlertEvent F))
  judge env r s spec value n (err e) = err e
  judge env r s spec value n (ok true) = ok none
  judge env r s spec value n (ok false) =
      if not (threshold_violated value spec) then ok none else (do
        severity ← severity_from_spec value spec
        ok (some (make_alert env r s spec value severity n)))

  -- The tests on the value of the sensor; `asleep` is `aess_active` and the sensor masked.
  abbrev pub judge_value :
      Environment F
      → TelemetryReading F
      → SensorType
      → SensorSpec F
      → ℕ
      → Bool
      → Option F
      → Result (Option (AlertEvent F))
  judge_value env r s spec n asleep none = ok none
  judge_value env r s spec n true (some value) = ok none
  judge_value env r s spec n false (some value) =
      judge env r s spec value n (pressure_expected (value_map r.sensors) s value)

  unfoldable pub spec_alert :
      Environment F
      → TelemetryReading F
      → SensorType
      → SensorSpec F
      → ℕ
      → Result (Option (AlertEvent F))
  spec_alert env r s spec n =
      let sensors = value_map r.sensors in
      let aess_active = is_te33a r.locomotive_type && is_aess_active sensors in
      judge_value env r s spec n (aess_active && aess_masked s) (get s sensors)

  -- One more id is used where there is an alert.
  abbrev pub used : ℕ → Option (AlertEvent F) → ℕ
  used n none = n
  used n (some a) = suc n

  abbrev pub add_alert : Option (AlertEvent F) → List (AlertEvent F) → List (AlertEvent F)
  add_alert none rest = rest
  add_alert (some a) rest = a ∷ rest

  unfoldable pub alert_loop :
      Environment F
      → TelemetryReading F
      → List (SensorType × SensorSpec F)
      → ℕ
      → Result (List (AlertEvent F))
  alert_loop env r [] n = ok []
  alert_loop env r ((s, spec) ∷ specs) n = do
    alert ← spec_alert env r s spec n
    rest ← alert_loop env r specs (used n alert)
    ok (add_alert alert rest)

  unfoldable pub evaluate_alerts : Environment F → TelemetryReading F → Result (List (AlertEvent F))
  unfolding alert_loop
  evaluate_alerts env r = alert_loop env r (loco_specs r.locomotive_type) 0

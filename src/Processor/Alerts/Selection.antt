-- ===== src/Processor/Alerts/Selection.antt =====
-- Which sensors of a reading raise an alert.
use hackathon_nu.Base.{
  ℕ, suc, ◌≡◌, refl, subst, arith, Bool-cases, Option-cases, inl, inr, true, false, ◌&&◌, none,
  some, List, [], ◌∷◌, ◌⊎◌, ◌==◌,
}
use hackathon_nu.Base.Dict.{Dict, get}
use hackathon_nu.Base.Results.{ok, ok_of_no_err}
use hackathon_nu.Float.{Float, max, ◌≼◌, zero_f}
use hackathon_nu.Float.Laws.{IsOrdered, IsRounded}
use hackathon_nu.Float.Order.{not-le_of_lt, zero-lt, div_total}
use hackathon_nu.Shared.Enums.{
  SensorType, sensor_eq, sensor_beq_iff, te33a, diesel_rpm, oil_pressure, AlertSeverity,
}
use hackathon_nu.Shared.Constants.{
  SensorSpec, crit_range, loco_specs, aess_rpm_threshold, aess_masked,
}
use hackathon_nu.Shared.Schemas.{TelemetryReading, AlertEvent}
use hackathon_nu.Processor.Alerts.Evaluate.{
  Environment, value_map, is_te33a, is_aess_active, threshold_violated, normalized_deviation,
  severity_from_spec, min_expected_pressure, pressure_expected, or_else, severity_deviation,
  make_alert, spec_alert, alert_loop, evaluate_alerts,
}

module _ {F : Type 0} ⦃f : Float F⦄ where
  -- A TE33A whose engine is in AESS sleep.
  pub record IsAsleep (r : TelemetryReading F) : Type 0 where
    pub diesel : r.locomotive_type ≡ te33a
    pub rpm : F
    pub measured : get diesel_rpm (value_map r.sensors) ≡ some rpm
    pub slow : rpm ≼ aess_rpm_threshold

  -- The value calls for an alert of the sensor.
  pub record Fires (r : TelemetryReading F) (s : SensorType) (spec : SensorSpec F) (v : F)
      : Type 0 where
    pub present : get s (value_map r.sensors) ≡ some v
    pub awake : IsAsleep r → aess_masked s ≡ false
    pub low_pressure :
        s ≡ oil_pressure
        → (least : F) → min_expected_pressure (value_map r.sensors) ≡ ok least
        → ¬ (least ≼ v)
    pub violated : threshold_violated v spec ≡ true

  -- The alerts that belong to the specifications, the ids being used from the n-th on: one, in
  -- order, for each sensor that fires, and none for the others.
  pub data Alerted (env : Environment F) (r : TelemetryReading F)
      : ℕ → List (SensorType × SensorSpec F) → List (AlertEvent F) → Type 0 where
    nil : (n : ℕ) → Alerted env r n [] []
    quiet :
        (n : ℕ) (s : SensorType) (spec : SensorSpec F) (specs : List (SensorType × SensorSpec F))
        (alerts : List (AlertEvent F))
        → ((v : F) → ¬ Fires r s spec v)
        → Alerted env r n specs alerts
        → Alerted env r n ((s, spec) ∷ specs) alerts
    alarm :
        (n : ℕ) (s : SensorType) (spec : SensorSpec F) (specs : List (SensorType × SensorSpec F))
        (a : AlertEvent F) (alerts : List (AlertEvent F)) (v : F) (severity : AlertSeverity)
        → Fires r s spec v
        → severity_from_spec v spec ≡ ok severity
        → a ≡ make_alert env r s spec v severity n
        → Alerted env r (suc n) specs alerts
        → Alerted env r n ((s, spec) ∷ specs) (a ∷ alerts)

  is_aess_active-IsAsleep :
      (r : TelemetryReading F)
      → (is_te33a r.locomotive_type && is_aess_active (value_map r.sensors)) ≡ true
      → IsAsleep r
  unfolding is_aess_active
  is_aess_active-IsAsleep r h = elim (Option-cases (get diesel_rpm (value_map r.sensors))) [
    | inl e ↦ absurd (ground (arith, e))
    | inr (rpm, e) ↦ record {
      diesel = ground arith;
      rpm = rpm;
      measured = e;
      slow = ground (arith, e);
    }
  ]

  IsAsleep-is_aess_active :
      (r : TelemetryReading F)
      → IsAsleep r
      → (is_te33a r.locomotive_type && is_aess_active (value_map r.sensors)) ≡ true
  unfolding is_aess_active
  IsAsleep-is_aess_active r a = ground (arith, a.diesel, a.measured, a.slow)

  module _ (o : IsOrdered F) (l : IsRounded F) where
    min_expected_pressure_total :
        (sensors : Dict SensorType F) → (x : F) × (min_expected_pressure sensors ≡ ok x)
    unfolding min_expected_pressure
    min_expected_pressure_total sensors =
        let pos = zero-lt o 10500 1 (omega arith) (omega arith) (omega arith) in
        let divided =
          div_total o l (or_else (f.lit 0 1) (get diesel_rpm sensors)) (f.lit 10500 1)
            (not-le_of_lt o zero_f (f.lit 10500 1) pos) in
        let (q, e) = divided in ok_of_no_err _ (λ e' k. ground (arith, e))

    normalized_total :
        (v : F) (spec : SensorSpec F) → (x : F) × (normalized_deviation v spec ≡ ok x)
    unfolding normalized_deviation
    normalized_total v spec = elim (Bool-cases (f.lt (f.lit 0 0) (crit_range spec))) [
      | inr e ↦ ok_of_no_err _ (λ e' k. ground (arith, e))
      | inl e ↦
          let (q, h) =
            div_total o l
              (max (f.lit 0 1)
                (f.sub (severity_deviation spec.threshold_type v spec) spec.delta_safe))
              (crit_range spec) (not-le_of_lt o zero_f (crit_range spec) e) in
          ok_of_no_err _ (λ e' k. ground (arith, e, h))
    ]

    severity_from_spec_total :
        (v : F) (spec : SensorSpec F) → (sev : AlertSeverity) × (severity_from_spec v spec ≡ ok sev)
    unfolding severity_from_spec
    severity_from_spec_total v spec =
        let (x, h) = normalized_total v spec in ok_of_no_err _ (λ e' k. ground (arith, h))

    -- The two tests on the sensor past the AESS mask: the outcome of the cross-check is a Boolean,
    -- true for the oil pressure at a sufficient pressure.
    pub pressure_cases :
        (sensors : Dict SensorType F) (s : SensorType) (v : F)
        → ((pressure_expected sensors s v ≡ ok true)
            × (s ≡ oil_pressure)
            × ((least : F) × (min_expected_pressure sensors ≡ ok least) × (least ≼ v)))
          ⊎ ((pressure_expected sensors s v ≡ ok false)
              × (s ≡ oil_pressure
                  → (least : F) → min_expected_pressure sensors ≡ ok least
                  → ¬ (least ≼ v)))
    unfolding pressure_expected
    pressure_cases sensors s v =
        let (least, h) = min_expected_pressure_total sensors in
        elim (Bool-cases (s == oil_pressure)) [
          | inr e ↦ inr (rw e, λ q. absurd (ground (arith, e, (sensor_beq_iff s oil_pressure).1 q)))
          | inl e ↦ elim (Bool-cases (f.le least v)) [
            | inl k ↦ inl (rw (e, h, k), (sensor_beq_iff s oil_pressure).0 e, (least, h, k))
            | inr k ↦ inr (rw (e, h, k), λ q l' h'. ground (arith, h, h', k))
          ]
        ]

    pub spec_alert_cases :
        (env : Environment F) (r : TelemetryReading F) (s : SensorType) (spec : SensorSpec F)
        (n : ℕ)
        → (((v : F) → ¬ Fires r s spec v) × (spec_alert env r s spec n ≡ ok none))
          ⊎ ((v : F) × (severity : AlertSeverity) × Fires r s spec v
              × (severity_from_spec v spec ≡ ok severity)
              × (spec_alert env r s spec n ≡ ok (some (make_alert env r s spec v severity n))))
    unfolding spec_alert
    spec_alert_cases env r s spec n = elim (Option-cases (get s (value_map r.sensors))) [
      | inl e ↦ inl (λ v fires. ground (arith, e, fires.present), rw e)
      | inr (v, e) ↦
          let same : (w : F) → Fires r s spec w → v ≡ w =
            λ w fires. ground (arith, e, fires.present) in
          elim (Bool-cases (
            (is_te33a r.locomotive_type && is_aess_active (value_map r.sensors))
            && aess_masked s)) [
              | inl m ↦ inl (
                λ w fires.
                    ground (arith, m, fires.awake (is_aess_active-IsAsleep r (ground (arith, m)))),
                rw (spec_alert, e, m),
              )
              | inr m ↦ elim (pressure_cases (value_map r.sensors) s v) [
                | inl (p, so, (least, h, k)) ↦ inl (
                  λ w fires.
                      fires.low_pressure so least h (subst (λ x. least ≼ x) (same w fires) k),
                  rw (spec_alert, e, m, p),
                )
                | inr (p, low) ↦ elim (Bool-cases (threshold_violated v spec)) [
                  | inr t ↦ inl (
                    λ w fires. ground (arith, t, fires.violated, same w fires),
                    rw (spec_alert, e, m, p, t),
                  )
                  | inl t ↦
                      let (severity, sv) = severity_from_spec_total v spec in
                      inr (
                        v,
                        severity,
                        record {
                          present = e;
                          awake = λ a. ground (arith, m, IsAsleep-is_aess_active r a);
                          low_pressure = low;
                          violated = t;
                        },
                        sv,
                        rw (spec_alert, e, m, p, t, sv),
                      )
                ]
              ]
            ]
    ]

    pub alert_loop-Alerted :
        (env : Environment F) (r : TelemetryReading F) (specs : List (SensorType × SensorSpec F))
        (n : ℕ)
        → (alerts : List (AlertEvent F)) × (alert_loop env r specs n ≡ ok alerts)
          × Alerted env r n specs alerts
    unfolding alert_loop
    alert_loop-Alerted env r [] n = ([], refl, nil n)
    alert_loop-Alerted env r ((s, spec) ∷ specs) n = elim (spec_alert_cases env r s spec n) [
      | inl (unfired, e) ↦
          let (alerts, h, a) = alert_loop-Alerted env r specs n in
          (alerts, rw (e, h), quiet n s spec specs alerts unfired a)
      | inr (v, severity, fires, sv, e) ↦
          let (alerts, h, a) = alert_loop-Alerted env r specs (suc n) in
          (
            make_alert env r s spec v severity n ∷ alerts,
            rw (e, h),
            alarm n s spec specs _ alerts v severity fires sv refl a,
          )
    ]

    -- `evaluate_alerts` never raises. Its alerts are, in the order of the specifications of the
    -- locomotive's type, one for each sensor whose value is present and outside the safe zone,
    -- which the AESS sleep does not mask and which, for the oil pressure, lies below the pressure
    -- expected at the engine's speed; it has the severity of that value and a fresh id. No other
    -- sensor has one. The float arithmetic obeys `IsOrdered` and `IsRounded`.
    pub evaluate_alerts-Alerted :
        (env : Environment F) (r : TelemetryReading F)
        → (alerts : List (AlertEvent F)) × (evaluate_alerts env r ≡ ok alerts)
          × Alerted env r 0 (loco_specs r.locomotive_type) alerts
    unfolding evaluate_alerts
    evaluate_alerts-Alerted env r = alert_loop-Alerted env r (loco_specs r.locomotive_type) 0

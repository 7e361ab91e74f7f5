-- ===== src/Processor/Alerts/Masked.antt =====
-- What the selection of the alerts gives: the AESS sleep, the number of the alerts, their content.
use hackathon_nu.Base.{ℕ, ◌≤◌, ◌≡◌, arith, false, List, All, length}
use hackathon_nu.Base.Results.{ok}
use hackathon_nu.Float.{Float}
use hackathon_nu.Float.Laws.{IsOrdered, IsRounded}
use hackathon_nu.Shared.Enums.{SensorType}
use hackathon_nu.Shared.Constants.{SensorSpec, aess_masked}
use hackathon_nu.Shared.Schemas.{TelemetryReading, AlertEvent}
use hackathon_nu.Processor.Alerts.Evaluate.{Environment, make_alert, evaluate_alerts}
use hackathon_nu.Processor.Alerts.Selection.{
  IsAsleep, Alerted, nil, quiet, alarm, evaluate_alerts-Alerted,
}

module _ {F : Type 0} ⦃f : Float F⦄ where
  Alerted-unmasked :
      {env : Environment F} {r : TelemetryReading F} {n : ℕ}
      {specs : List (SensorType × SensorSpec F)} {alerts : List (AlertEvent F)}
      → IsAsleep r
      → Alerted env r n specs alerts
      → All (λ a. aess_masked a.sensor_type ≡ false) alerts
  unfolding make_alert
  Alerted-unmasked asleep (nil n) = tt
  Alerted-unmasked asleep (quiet n s spec specs alerts unfired rest) = Alerted-unmasked asleep rest
  Alerted-unmasked asleep (alarm n s spec specs a alerts v severity fires sv e rest) =
      (rw (e, fires.awake asleep), Alerted-unmasked asleep rest)

  Alerted-length :
      {env : Environment F} {r : TelemetryReading F} {n : ℕ}
      {specs : List (SensorType × SensorSpec F)} {alerts : List (AlertEvent F)}
      → Alerted env r n specs alerts
      → length alerts ≤ length specs
  Alerted-length (nil n) = omega arith
  Alerted-length (quiet n s spec specs alerts unfired rest) =
      let bound = Alerted-length rest in omega arith
  Alerted-length (alarm n s spec specs a alerts v severity fires sv e rest) =
      let bound = Alerted-length rest in omega arith

  module _ (o : IsOrdered F) (l : IsRounded F) where
    -- For a TE33A in AESS sleep, `evaluate_alerts` returns alerts, none of which is about a sensor
    -- that the sleep masks. The float arithmetic obeys `IsOrdered` and `IsRounded`.
    pub evaluate_alerts-unmasked :
        (env : Environment F) (r : TelemetryReading F)
        → IsAsleep r
        → (alerts : List (AlertEvent F)) × (evaluate_alerts env r ≡ ok alerts)
          × All (λ a. aess_masked a.sensor_type ≡ false) alerts
    evaluate_alerts-unmasked env r asleep =
        let (alerts, e, alerted) = evaluate_alerts-Alerted o l env r in
        (alerts, e, Alerted-unmasked asleep alerted)

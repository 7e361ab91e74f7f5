-- ===== src/Processor/Router/Counts.antt =====
-- Every reading of a batch is counted once, as a result or as an error.
use hackathon_nu.Base.{
  ℕ, suc, ◌+◌, ◌≡◌, arith, Option, none, some, List, [], ◌∷◌, length, length-append,
}
use hackathon_nu.Base.Results.{Result, ok, err, Error}
use hackathon_nu.Float.{Float}
use hackathon_nu.Shared.Schemas.{TelemetryReading, AlertEvent, HealthIndex}
use hackathon_nu.Processor.Ingestion.{Row, flatten_reading}
use hackathon_nu.Processor.Health.Index.{calculate_health}
use hackathon_nu.Processor.Alerts.Evaluate.{evaluate_alerts}
use hackathon_nu.Processor.Router.{
  Services, Batch, fail, after_publish, after_health, after_alerts, after_rows, publish_all,
  messages_of, process_reading, process_readings,
}

module _ {F P : Type 0} where
  -- The readings that a batch has accounted for.
  abbrev pub accounted : Batch F P → ℕ
  accounted b = length b.results + length b.errors

  fail_counts :
      (r : TelemetryReading F) (e : Error) (b : Batch F P)
      → accounted (fail r e b) ≡ suc (accounted b)
  fail_counts r e b = omega (arith, length-append b.errors ((r.locomotive_id, e) ∷ []))

  after_publish_counts :
      (r : TelemetryReading F) (rows : List (Row F)) (alerts : List (AlertEvent F))
      (h : HealthIndex F) (o : Option Error) (b : Batch F P)
      → accounted (after_publish r rows alerts h o b) ≡ suc (accounted b)
  after_publish_counts r rows alerts h (some e) b = fail_counts r e b
  after_publish_counts r rows alerts h none b = omega (arith, length-append b.results (_ ∷ []))

  after_health_counts :
      (sv : Services F P) (n : ℕ) (r : TelemetryReading F) (rows : List (Row F))
      (alerts : List (AlertEvent F)) (h : Result (HealthIndex F)) (b : Batch F P)
      → accounted (after_health sv n r rows alerts h b) ≡ suc (accounted b)
  after_health_counts sv n r rows alerts (err e) b = fail_counts r e b
  after_health_counts sv n r rows alerts (ok h) b =
      after_publish_counts r rows alerts h
        (publish_all sv (messages_of r h alerts) b.publish_items).0 _

module _ {F P : Type 0} ⦃f : Float F⦄ where
  after_rows_counts :
      (sv : Services F P) (n : ℕ) (r : TelemetryReading F) (rows : Result (List (Row F)))
      (b : Batch F P)
      → accounted (after_rows sv n r rows b) ≡ suc (accounted b)
  after_rows_counts sv n r (err e) b = fail_counts r e b
  after_rows_counts sv n r (ok rows) b = alerted (evaluate_alerts (sv.env n) r) _
    where
      alerted :
          (alerts : Result (List (AlertEvent F))) (c : Batch F P)
          → accounted (after_alerts sv n r rows alerts c) ≡ suc (accounted c)
      alerted (err e) c = fail_counts r e c
      alerted (ok alerts) c =
          after_health_counts sv n r rows alerts (calculate_health r (sv.now n) c.damage).0 _

  process_reading_counts :
      (sv : Services F P) (n : ℕ) (r : TelemetryReading F) (b : Batch F P)
      → accounted (process_reading sv n r b) ≡ suc (accounted b)
  unfolding process_reading
  process_reading_counts sv n r b = after_rows_counts sv n _ (flatten_reading r b.filter).rows _

  -- `_process_readings_sync` never drops a reading and never counts one twice: the results and the
  -- errors that it adds are together as many as the readings, whatever the services raise.
  pub process_readings_counts :
      (sv : Services F P) (n : ℕ) (rs : List (TelemetryReading F)) (b : Batch F P)
      → accounted (process_readings sv n rs b) ≡ accounted b + length rs
  unfolding process_readings
  process_readings_counts sv n [] b = omega arith
  process_readings_counts sv n (r ∷ rs) b =
      let next = process_reading_counts sv n r b in
      let rest = process_readings_counts sv (suc n) rs (process_reading sv n r b) in
      omega (arith, next, rest)

-- ===== src/Processor/Router.antt =====
-- services/processor/processor/api/router_ingest.py: the pipeline of one reading and of a batch.
-- `ormsgpack.packb`, the clock and the supply of ids are parameters; the Redis calls that deliver
-- what is returned here, and the metrics, are left out.
pub mod Counts
pub mod Single
pub mod Failures
use hackathon_nu.Base.{ℕ, suc, Bool, Option, none, some, List, [], ◌∷◌, ◌++◌, map, length, String}
use hackathon_nu.Base.Results.{Result, ok, err, Error, ◌>>=◌}
use hackathon_nu.Float.{Float}
use hackathon_nu.Shared.Enums.{LocomotiveType, SensorType, AlertSeverity}
use hackathon_nu.Shared.Schemas.{
  TelemetryReading, SensorPayload, AlertEvent, HealthFactor, HealthIndex,
}
use hackathon_nu.Processor.Ingestion.{FilterState, Row, Flattened, flatten_reading}
use hackathon_nu.Processor.Health.Penalties.{DamageState}
use hackathon_nu.Processor.Health.Index.{calculate_health}
use hackathon_nu.Processor.Alerts.Evaluate.{Environment, evaluate_alerts}

-- What is encoded, and the channel that it is for.
pub data Message (F : Type 0) : Type 0 where
  telemetry_message : TelemetryReading F → Message F
  health_message : HealthIndex F → Message F
  event_message : AlertEvent F → Message F

pub data Channel : Type 0 where
  telemetry_channel : ℕ → Channel
  health_channel : ℕ → Channel
  alert_channel : Channel

-- Indexed by the place of the reading in the batch.
pub record Services (F : Type 0) (P : Type 0) : Type 0 where
  pub encode : Message F → Result P
  pub env : ℕ → Environment F
  pub health_id : ℕ → ℕ
  pub now : ℕ → ℕ

-- The dicts for the streams and the response.
pub record AlertRecord (F : Type 0) : Type 0 where
  pub event : AlertEvent F
  pub locomotive_type : LocomotiveType

pub record HealthRecord (F : Type 0) : Type 0 where
  pub id : ℕ
  pub locomotive_id : ℕ
  pub locomotive_type : LocomotiveType
  pub score : F
  pub category : String
  pub top_factors : List (HealthFactor F)
  pub damage_penalty : F
  pub calculated_at : ℕ

pub record Summary (F : Type 0) : Type 0 where
  pub locomotive_id : ℕ
  pub rows_written : ℕ
  pub alerts_raised : ℕ
  pub health_score : F
  pub health_category : String

-- The lists of `_process_readings_sync`, and the state of the services.
pub record Batch (F : Type 0) (P : Type 0) : Type 0 where
  pub results : List (Summary F)
  pub telemetry_rows : List (Row F)
  pub alert_records : List (AlertRecord F)
  pub health_records : List (HealthRecord F)
  pub publish_items : List (Channel × P)
  pub errors : List (ℕ × Error)
  pub filter : FilterState F
  pub damage : DamageState F

-- What `_process_single` sends and answers.
pub record Sent (F : Type 0) (P : Type 0) : Type 0 where
  pub summary : Summary F
  pub telemetry_rows : List (Row F)
  pub alert_records : List (AlertRecord F)
  pub health_record : HealthRecord F
  pub published : List (Channel × P)

pub record Response (F : Type 0) (P : Type 0) : Type 0 where
  pub outcome : Result (Sent F P)
  pub filter : FilterState F
  pub damage : DamageState F

module _ {F : Type 0} where
  abbrev pub alert_record : TelemetryReading F → AlertEvent F → AlertRecord F
  alert_record r a = record { event = a; locomotive_type = r.locomotive_type }

  abbrev pub health_record : TelemetryReading F → ℕ → HealthIndex F → HealthRecord F
  health_record r id h = record {
    id = id;
    locomotive_id = r.locomotive_id;
    locomotive_type = r.locomotive_type;
    score = h.overall_score;
    category = h.category;
    top_factors = h.top_factors;
    damage_penalty = h.damage_penalty;
    calculated_at = h.calculated_at;
  }

  abbrev pub summary_of :
      TelemetryReading F → List (Row F) → List (AlertEvent F) → HealthIndex F → Summary F
  summary_of r rows alerts h = record {
    locomotive_id = r.locomotive_id;
    rows_written = length rows;
    alerts_raised = length alerts;
    health_score = h.overall_score;
    health_category = h.category;
  }

  abbrev pub messages_of :
      TelemetryReading F → HealthIndex F → List (AlertEvent F) → List (Channel × Message F)
  messages_of r h alerts =
      (telemetry_channel r.locomotive_id, telemetry_message r)
      ∷ (health_channel r.locomotive_id, health_message h)
      ∷ map (λ a. (alert_channel, event_message a)) alerts

-- The appends to `publish_items`: those before an exception stay.
abbrev pub publish_one :
    {P : Type 0} → List (Channel × P) → Channel → Result P → Option Error × List (Channel × P)
publish_one items c (err e) = (some e, items)
publish_one items c (ok payload) = (none, items ++ (c, payload) ∷ [])

abbrev pub stop_or {ℓ} : {A : Type ℓ} → Option Error × A → Option Error × A → Option Error × A
stop_or (some e, before) rest = (some e, before)
stop_or (none, before) rest = rest

module _ {F P : Type 0} where
  abbrev pub publish_all :
      Services F P
      → List (Channel × Message F)
      → List (Channel × P)
      → Option Error × List (Channel × P)
  publish_all sv [] items = (none, items)
  publish_all sv ((c, m) ∷ ms) items =
      let first = publish_one items c (sv.encode m) in stop_or first (publish_all sv ms first.1)

  -- The lists of payloads of `_process_single`.
  abbrev pub encode_all : Services F P → List (Channel × Message F) → Result (List (Channel × P))
  encode_all sv [] = ok []
  encode_all sv ((c, m) ∷ ms) = do
    payload ← sv.encode m
    rest ← encode_all sv ms
    ok ((c, payload) ∷ rest)

  abbrev pub fail : TelemetryReading F → Error → Batch F P → Batch F P
  fail r e b = record b { errors = b.errors ++ (r.locomotive_id, e) ∷ [] }

  abbrev pub after_publish :
      TelemetryReading F
      → List (Row F)
      → List (AlertEvent F)
      → HealthIndex F
      → Option Error
      → Batch F P
      → Batch F P
  after_publish r rows alerts h (some e) b = fail r e b
  after_publish r rows alerts h none b = record b {
    results = b.results ++ summary_of r rows alerts h ∷ [];
  }

  abbrev pub after_health :
      Services F P
      → ℕ
      → TelemetryReading F
      → List (Row F)
      → List (AlertEvent F)
      → Result (HealthIndex F)
      → Batch F P
      → Batch F P
  after_health sv n r rows alerts (err e) b = fail r e b
  after_health sv n r rows alerts (ok h) b =
      let out = publish_all sv (messages_of r h alerts) b.publish_items in
      after_publish r rows alerts h out.0 (record b {
        health_records = b.health_records ++ health_record r (sv.health_id n) h ∷ [];
        publish_items = out.1;
      })

  abbrev pub single_health :
      Services F P
      → ℕ
      → TelemetryReading F
      → List (Row F)
      → List (AlertEvent F)
      → Result (HealthIndex F)
      → Result (Sent F P)
  single_health sv n r rows alerts (err e) = err e
  single_health sv n r rows alerts (ok h) = do
    published ← encode_all sv (messages_of r h alerts)
    ok (record {
      summary = summary_of r rows alerts h;
      telemetry_rows = rows;
      alert_records = map (alert_record r) alerts;
      health_record = health_record r (sv.health_id n) h;
      published = published;
    })

module _ {F P : Type 0} ⦃f : Float F⦄ where
  abbrev pub after_alerts :
      Services F P
      → ℕ
      → TelemetryReading F
      → List (Row F)
      → Result (List (AlertEvent F))
      → Batch F P
      → Batch F P
  after_alerts sv n r rows (err e) b = fail r e b
  after_alerts sv n r rows (ok alerts) b =
      let out = calculate_health r (sv.now n) b.damage in
      after_health sv n r rows alerts out.0 (record b {
        alert_records = b.alert_records ++ map (alert_record r) alerts;
        damage = out.1;
      })

  abbrev pub after_rows :
      Services F P → ℕ → TelemetryReading F → Result (List (Row F)) → Batch F P → Batch F P
  after_rows sv n r (err e) b = fail r e b
  after_rows sv n r (ok rows) b =
      after_alerts sv n r rows (evaluate_alerts (sv.env n) r)
        (record b { telemetry_rows = b.telemetry_rows ++ rows })

  -- The body of the loop: the reading that goes on is the one `flatten_reading` has changed.
  unfoldable pub process_reading : Services F P → ℕ → TelemetryReading F → Batch F P → Batch F P
  process_reading sv n r b =
      let flat = flatten_reading r b.filter in
      after_rows sv n (record r { sensors = flat.sensors }) flat.rows
        (record b { filter = flat.state })

  -- `_process_readings_sync`
  unfoldable pub process_readings :
      Services F P → ℕ → List (TelemetryReading F) → Batch F P → Batch F P
  process_readings sv n [] b = b
  process_readings sv n (r ∷ rs) b = process_readings sv (suc n) rs (process_reading sv n r b)

  abbrev pub single_alerts :
      Services F P
      → ℕ
      → TelemetryReading F
      → List (Row F)
      → Result (List (AlertEvent F))
      → FilterState F
      → DamageState F
      → Response F P
  single_alerts sv n r rows (err e) filter damage = record {
    outcome = err e;
    filter = filter;
    damage = damage;
  }
  single_alerts sv n r rows (ok alerts) filter damage =
      let out = calculate_health r (sv.now n) damage in
      record { outcome = single_health sv n r rows alerts out.0; filter = filter; damage = out.1 }

  abbrev pub single_rows :
      Services F P
      → ℕ
      → TelemetryReading F
      → Result (List (Row F))
      → FilterState F
      → DamageState F
      → Response F P
  single_rows sv n r (err e) filter damage = record {
    outcome = err e;
    filter = filter;
    damage = damage;
  }
  single_rows sv n r (ok rows) filter damage =
      single_alerts sv n r rows (evaluate_alerts (sv.env n) r) filter damage

  -- `_process_single`
  unfoldable pub process_single :
      Services F P → ℕ → TelemetryReading F → FilterState F → DamageState F → Response F P
  process_single sv n r filter damage =
      let flat = flatten_reading r filter in
      single_rows sv n (record r { sensors = flat.sensors }) flat.rows flat.state damage

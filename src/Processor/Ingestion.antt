-- ===== src/Processor/Ingestion.antt =====
pub mod Steps
pub mod Rows
-- services/processor/processor/services/ingestion_service.py: rows from a reading, EMA-filtered,
-- with the high-frequency readings that hardly changed left out.
use hackathon_nu.Base.{
  ℕ, Bool, true, false, Option, none, some, List, [], ◌∷◌, nat_eq, pair_eq, String, if◌then◌else◌,
}
use hackathon_nu.Base.Dict.{get, put}
use hackathon_nu.Base.Results.{Result, ok, err, Error, zero_division}
use hackathon_nu.Float.{Float}
use hackathon_nu.Shared.Enums.{SensorType, sensor_eq, LocomotiveType}
use hackathon_nu.Shared.Schemas.{TelemetryReading, SensorPayload, GpsCoordinate}
use hackathon_nu.Processor.Filter.{Key, EmaState, ema_filter}
use mathlib.Core.Option

-- `_ema_state` of filter_service and `_last_persisted`.
pub record FilterState (F : Type 0) : Type 0 where
  pub ema : EmaState F
  pub last_persisted : EmaState F

-- The dict that `flatten_reading` builds for a sensor.
pub record Row (F : Type 0) : Type 0 where
  pub time : ℕ
  pub locomotive_id : ℕ
  pub locomotive_type : LocomotiveType
  pub sensor_type : SensorType
  pub value : F
  pub filtered_value : F
  pub unit : String
  pub sample_rate_hz : F
  pub latitude : Option F
  pub longitude : Option F

-- The rows or the exception, the sensors as they are left, and the state.
pub record Flattened (F : Type 0) : Type 0 where
  pub rows : Result (List (Row F))
  pub sensors : List (SensorPayload F)
  pub state : FilterState F

-- What one sensor yields: a row, no row, or an exception.
pub record Step (F : Type 0) : Type 0 where
  pub row : Result (Option (Row F))
  pub sensor : SensorPayload F
  pub state : FilterState F

abbrev pub add_row : {F : Type 0} → Option (Row F) → Result (List (Row F)) → Result (List (Row F))
add_row o (err e) = err e
add_row none (ok rows) = ok rows
add_row (some r) (ok rows) = ok (r ∷ rows)

module _ {F : Type 0} ⦃f : Float F⦄ where
  abbrev pub hf_noise_floor : F
  hf_noise_floor = f.lit 5 3

  unfoldable pub is_hf : TelemetryReading F → Bool
  is_hf r = f.le (f.lit 100 1) r.sample_rate_hz

  -- abs(filtered - last) / (abs(last) + 1e-9)
  unfoldable pub relative_change : F → F → Option F
  relative_change filtered last =
      f.div (f.abs (f.sub filtered last)) (f.add (f.abs last) (f.lit 1 9))

  unfoldable pub make_row : TelemetryReading F → SensorPayload F → F → Row F
  make_row r p filtered = record {
    time = r.timestamp;
    locomotive_id = r.locomotive_id;
    locomotive_type = r.locomotive_type;
    sensor_type = p.sensor_type;
    value = p.value;
    filtered_value = filtered;
    unit = p.unit;
    sample_rate_hz = r.sample_rate_hz;
    latitude = Option.map (λ (g : GpsCoordinate F). g.latitude) r.gps;
    longitude = Option.map (λ (g : GpsCoordinate F). g.longitude) r.gps;
  }

  -- Whether the noise floor suppresses the reading: `last` is the value persisted last.
  unfoldable pub is_suppressed : F → Option F → Result Bool
  unfolding relative_change
  is_suppressed filtered none = ok false
  is_suppressed filtered (some last) = elim (relative_change filtered last) [
    | none ↦ err zero_division
    | some change ↦ ok (f.lt change hf_noise_floor)
  ]

  -- The rest of the loop's body, once the value is filtered.
  unfoldable pub dedup_sensor : TelemetryReading F → SensorPayload F → F → FilterState F → Step F
  dedup_sensor r p filtered st =
      let key : Key = (r.locomotive_id, p.sensor_type) in
      let p' = record p { value = filtered } in
      if is_hf r
      then elim (is_suppressed filtered (get key st.last_persisted)) [
        | err e ↦ record { row = err e; sensor = p'; state = st }
        | ok true ↦ record { row = ok none; sensor = p'; state = st }
        | ok false ↦ record {
          row = ok (some (make_row r p filtered));
          sensor = p';
          state = record st { last_persisted = put key filtered st.last_persisted };
        }
      ]
      else record { row = ok (some (make_row r p filtered)); sensor = p'; state = st }

  unfoldable pub flatten_sensor : TelemetryReading F → SensorPayload F → FilterState F → Step F
  unfolding dedup_sensor
  flatten_sensor r p st =
      let (filtered, ema) = ema_filter r.locomotive_id p.sensor_type p.value st.ema in
      dedup_sensor r p filtered (record st { ema = ema })

  -- A step in front of what the rest of the loop gives; an exception leaves the sensors that are
  -- still to come as they were.
  unfoldable pub join_step : Step F → List (SensorPayload F) → Flattened F → Flattened F
  join_step step ps rest = elim step.row [
    | err e ↦ record { rows = err e; sensors = step.sensor ∷ ps; state = step.state }
    | ok row ↦ record {
      rows = add_row row rest.rows;
      sensors = step.sensor ∷ rest.sensors;
      state = rest.state;
    }
  ]

  unfoldable pub flatten_loop :
      TelemetryReading F → List (SensorPayload F) → FilterState F → Flattened F
  unfolding join_step
  flatten_loop r [] st = record { rows = ok []; sensors = []; state = st }
  flatten_loop r (p ∷ ps) st =
      let step = flatten_sensor r p st in join_step step ps (flatten_loop r ps step.state)

  unfoldable pub flatten_reading : TelemetryReading F → FilterState F → Flattened F
  unfolding flatten_loop
  flatten_reading r st = flatten_loop r r.sensors st

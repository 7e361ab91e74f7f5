-- ===== src/Processor/Ingestion/Rows.antt =====
-- What `flatten_reading` returns and leaves behind.
use mathlib.Core.List.{Sublist}
use mathlib.Core.List.Sublist
use mathlib.Core.Option
use hackathon_nu.Base.{
  ◌≡◌, refl, ap, Option, some, List, [], ◌∷◌, nat_eq, pair_eq, ◌==◌, if◌then◌else◌,
}
use hackathon_nu.Base.Dict.{get, put, get-put}
use hackathon_nu.Base.Results.{ok}
use hackathon_nu.Float.{Float, ◌≼◌}
use hackathon_nu.Float.Laws.{IsOrdered, IsRounded}
use hackathon_nu.Shared.Enums.{sensor_eq}
use hackathon_nu.Shared.Schemas.{TelemetryReading, SensorPayload, GpsCoordinate}
use hackathon_nu.Processor.Filter.{Key, EmaState, ema_filter}
use hackathon_nu.Processor.Filter.Traces.{run}
use hackathon_nu.Processor.Ingestion.{
  FilterState, Row, Flattened, is_hf, make_row, flatten_sensor, Step, join_step, flatten_loop,
  flatten_reading,
}
use hackathon_nu.Processor.Ingestion.Steps.{
  low_rate, kept, dropped, outcome, filtered_of, ema_after, IsNoiseOf,
}

module _ {F : Type 0} ⦃f : Float F⦄ where
  -- The filter along the sensors of a reading.
  abbrev pub filtered_sensors :
      TelemetryReading F → List (SensorPayload F) → EmaState F → List (SensorPayload F)
  filtered_sensors r [] ema = []
  filtered_sensors r (p ∷ ps) ema =
      let (y, ema') = ema_filter r.locomotive_id p.sensor_type p.value ema in
      record p { value = y } ∷ filtered_sensors r ps ema'

  -- The row with the raw value of a sensor and its filtered one; the position is that of the reading.
  abbrev pub row_of : TelemetryReading F → SensorPayload F → F → Row F
  row_of r p filtered = record {
    time = r.timestamp;
    locomotive_id = r.locomotive_id;
    locomotive_type = r.locomotive_type;
    sensor_type = p.sensor_type;
    value = p.value;
    filtered_value = filtered;
    unit = p.unit;
    sample_rate_hz = r.sample_rate_hz;
    latitude = Option.map (λ (g : GpsCoordinate F). g.latitude) r.gps;
    longitude = Option.map (λ (g : GpsCoordinate F). g.longitude) r.gps;
  }

  -- A row for each sensor, with the raw and the filtered value.
  abbrev pub all_rows : TelemetryReading F → List (SensorPayload F) → EmaState F → List (Row F)
  all_rows r [] ema = []
  all_rows r (p ∷ ps) ema =
      let (y, ema') = ema_filter r.locomotive_id p.sensor_type p.value ema in
      row_of r p y ∷ all_rows r ps ema'

  abbrev pub trace_of : TelemetryReading F → List (SensorPayload F) → List (Key × F)
  trace_of r [] = []
  trace_of r (p ∷ ps) = ((r.locomotive_id, p.sensor_type), p.value) ∷ trace_of r ps

  -- The filtered value in the last of the rows with this key, or else the old value.
  abbrev pub latest : Key → Option F → List (Row F) → Option F
  latest k old [] = old
  latest k old (row ∷ rows) =
      latest k (if (row.locomotive_id, row.sensor_type) == k then some row.filtered_value else old)
        rows

  -- The rows of a reading of 10 Hz or more, over the values persisted last. A sensor without noise
  -- has its row, and its value is the one persisted last for the sensors after it.
  pub data Deduplicated (r : TelemetryReading F)
      : List (SensorPayload F) → FilterState F → List (Row F) → Type 0 where
    done : (st : FilterState F) → Deduplicated r [] st []
    skip :
        (p : SensorPayload F) (ps : List (SensorPayload F)) (st : FilterState F)
        (rows : List (Row F))
        → IsNoiseOf r p st
        → Deduplicated r ps (record st { ema = ema_after r p st }) rows
        → Deduplicated r (p ∷ ps) st rows
    keep :
        (p : SensorPayload F) (ps : List (SensorPayload F)) (st : FilterState F)
        (rows : List (Row F))
        → ¬ IsNoiseOf r p st
        → Deduplicated r ps
            (record {
              ema = ema_after r p st;
              last_persisted =
                  put {K = Key}
                    (r.locomotive_id, p.sensor_type)
                    (filtered_of r p st)
                    st.last_persisted;
            })
            rows
        → Deduplicated r (p ∷ ps) st (row_of r p (filtered_of r p st) ∷ rows)

  pub record IsFlattened (r : TelemetryReading F) (ps : List (SensorPayload F)) (st : FilterState F)
      (out : Flattened F) : Type 0 where
    pub rows : List (Row F)
    pub returned : out.rows ≡ ok rows
    pub sensors : out.sensors ≡ filtered_sensors r ps st.ema
    pub ema : out.state.ema ≡ run (trace_of r ps) st.ema
    pub some_rows : Sublist rows (all_rows r ps st.ema)
    pub low_rate_rows : ¬ (f.lit 100 1 ≼ r.sample_rate_hz) → rows ≡ all_rows r ps st.ema
    pub low_rate_persisted :
        ¬ (f.lit 100 1 ≼ r.sample_rate_hz) → out.state.last_persisted ≡ st.last_persisted
    pub high_rate_rows : f.lit 100 1 ≼ r.sample_rate_hz → Deduplicated r ps st rows
    pub high_rate_persisted :
        f.lit 100 1 ≼ r.sample_rate_hz
        → (k : Key) → get k out.state.last_persisted ≡ latest k (get k st.last_persisted) rows

  flatten_loop-cons :
      (r : TelemetryReading F) (p : SensorPayload F) (ps : List (SensorPayload F))
      (st : FilterState F) (s : Step F)
      → flatten_sensor r p st ≡ s
      → flatten_loop r (p ∷ ps) st ≡ join_step s ps (flatten_loop r ps s.state)
  unfolding flatten_loop
  flatten_loop-cons r p ps st s e = ap (λ z. join_step z ps (flatten_loop r ps z.state)) e

  module _ (o : IsOrdered F) (l : IsRounded F) where
    flatten_loop-IsFlattened :
        (r : TelemetryReading F) (ps : List (SensorPayload F)) (st : FilterState F)
        → IsFlattened r ps st (flatten_loop r ps st)
    unfolding flatten_loop make_row is_hf
    flatten_loop-IsFlattened r [] st = record {
      rows = [];
      returned = refl;
      sensors = refl;
      ema = refl;
      some_rows = Sublist.refl [];
      low_rate_rows = λ _. refl;
      low_rate_persisted = λ _. refl;
      high_rate_rows = λ _. done st;
      high_rate_persisted = λ _ k. refl;
    }
    flatten_loop-IsFlattened r (p ∷ ps) st = elim (outcome o l r p st) [
      | low_rate low e ↦
          let rest = flatten_loop-IsFlattened r ps (record st { ema = ema_after r p st }) in
          rw (flatten_loop-cons r p ps st _ e) (record {
            rows = make_row r p (filtered_of r p st) ∷ rest.rows;
            returned = rw rest.returned;
            sensors = ap (λ z. record p { value = filtered_of r p st } ∷ z) rest.sensors;
            ema = rest.ema;
            some_rows = Sublist.cons-cons _ rest.some_rows;
            low_rate_rows =
                λ h. ap (λ z. make_row r p (filtered_of r p st) ∷ z) (rest.low_rate_rows h);
            low_rate_persisted = rest.low_rate_persisted;
            high_rate_rows = λ h. cc;
            high_rate_persisted = λ h. cc;
          })
      | kept high loud e ↦
          let y = filtered_of r p st in
          let key : Key = (r.locomotive_id, p.sensor_type) in
          let last = put key y st.last_persisted in
          let rest =
            flatten_loop-IsFlattened r ps
              (record { ema = ema_after r p st; last_persisted = last }) in
          rw (flatten_loop-cons r p ps st _ e) (record {
            rows = make_row r p y ∷ rest.rows;
            returned = rw rest.returned;
            sensors = ap (λ z. record p { value = y } ∷ z) rest.sensors;
            ema = rest.ema;
            some_rows = Sublist.cons-cons _ rest.some_rows;
            low_rate_rows = λ h. absurd (h high);
            low_rate_persisted = λ h. absurd (h high);
            high_rate_rows = λ h. keep p ps st rest.rows loud (rest.high_rate_rows h);
            high_rate_persisted =
                λ h k. rw (← get-put key k y st.last_persisted) (rest.high_rate_persisted h k);
          })
      | dropped high quiet e ↦
          let rest = flatten_loop-IsFlattened r ps (record st { ema = ema_after r p st }) in
          rw (flatten_loop-cons r p ps st _ e) (record {
            rows = rest.rows;
            returned = rw rest.returned;
            sensors = ap (λ z. record p { value = filtered_of r p st } ∷ z) rest.sensors;
            ema = rest.ema;
            some_rows = Sublist.cons _ rest.some_rows;
            low_rate_rows = λ h. absurd (h high);
            low_rate_persisted = λ h. absurd (h high);
            high_rate_rows = λ h. skip p ps st rest.rows quiet (rest.high_rate_rows h);
            high_rate_persisted = rest.high_rate_persisted;
          })
    ]

    -- `flatten_reading` never raises. Each sensor is left with its filtered value, and the filter's
    -- state is that of the trace of the reading's raw values. A row pairs the raw with the filtered
    -- value. Unless the rate is 10 Hz or more, every sensor has its row and the values persisted last
    -- stay. From 10 Hz on a sensor has no row exactly where a value was persisted for it and
    -- abs(filtered - last) / (abs(last) + 1e-9) is below 0.005; a kept value is the last one for the
    -- sensors after it. The value persisted last is, for every key, that of the key's last row, or
    -- the old one where there is no row. The float arithmetic obeys `IsOrdered` and `IsRounded`.
    pub flatten_reading-IsFlattened :
        (r : TelemetryReading F) (st : FilterState F)
        → IsFlattened r r.sensors st (flatten_reading r st)
    unfolding flatten_reading
    flatten_reading-IsFlattened r st = flatten_loop-IsFlattened r r.sensors st

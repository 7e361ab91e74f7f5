-- ===== src/Analytics/Servicer.antt =====
-- services/analytics-service/analytics/servicer.py: the requests for charts, raw readings and alerts.
-- A row of a chart and of raw_telemetry holds the text that `str` makes of its ids and times; a row of
-- alert_events holds the database's values. What a handler raises,
-- and the status that it aborts with, is an error.
use hackathon_nu.Base.{
  ℕ, zero, suc, Bool, true, false, ◌&&◌, Option, none, some, String, string_eq, ◌==◌, List, [], ◌∷◌,
  length, map, if◌then◌else◌,
}
use hackathon_nu.Base.Int.{ℤ, pos, negsuc}
use hackathon_nu.Base.Results.{Result, ok, ◌>>=◌}
use hackathon_nu.Float.{Float}
use hackathon_nu.Analytics.Telemetry.{Filters}
use hackathon_nu.Analytics.Telemetry.Rows.{BucketRow}
use hackathon_nu.Analytics.Messages.{
  TelemetryPoint, TelemetryBucketedRequest, TelemetryBucketedResponse, TelemetryRawPoint,
  TelemetryRawRequest, AlertMessage, AlertsListRequest, AlertsListResponse,
}

-- A row of raw_telemetry.
pub record RawRow (F : Type 0) : Type 0 where
  pub time : String
  pub locomotive_id : String
  pub locomotive_type : String
  pub sensor_type : String
  pub value : F
  pub filtered_value : Option F
  pub unit : String
  pub latitude : Option F
  pub longitude : Option F

-- The filters of `find_many`.
pub record AlertFilters : Type 0 where
  pub locomotive_id : Option String
  pub severity : Option String
  pub acknowledged : Option Bool
  pub start : Option ℕ
  pub end : Option ℕ

-- A row of alert_events, over the values that the driver gives; the recommendation may be NULL.
pub record AlertRow (V : Type 0) : Type 0 where
  pub id : V
  pub locomotive_id : V
  pub sensor_type : String
  pub severity : V
  pub value : V
  pub threshold_min : V
  pub threshold_max : V
  pub message : String
  pub recommendation : Option String
  pub timestamp : V
  pub acknowledged : V

-- datetime.fromisoformat, the queries of the repositories, Python's `str`, `float` and `bool` on the
-- values of a row, and what protobuf does with an integer for an int32 field.
pub record Repositories (F B V : Type 0) : Type 0 where
  pub int32 : ℤ → Result ℤ
  pub str : V → String
  pub float : V → Result F
  pub bool : V → Bool
  pub fromisoformat : String → Result ℕ
  pub bucket_text : B → String
  pub query_bucketed : Filters → ℤ → ℤ → Option String → ℤ → Result (List (BucketRow F B) × String)
  pub query_raw : Filters → ℤ → ℤ → Result (List (RawRow F))
  pub find_many : AlertFilters → ℤ → ℤ → Result (List (AlertRow V))

-- text or None
abbrev pub or_none : String → Option String
or_none text = if text == "" then none else some text

-- limit or default
abbrev pub or_limit : ℤ → ℤ → ℤ
or_limit default (pos zero) = default
or_limit default (pos (suc n)) = pos (suc n)
or_limit default (negsuc n) = negsuc n

-- text or ""
abbrev pub or_empty_text : Option String → String
or_empty_text none = ""
or_empty_text (some text) = text

-- `request.acknowledged if request.filter_acknowledged else None`
abbrev pub wanted_acknowledged : Bool → Bool → Option Bool
wanted_acknowledged false acknowledged = none
wanted_acknowledged true acknowledged = some acknowledged

abbrev pub parse_some : (String → Result ℕ) → Option String → Result (Option ℕ)
parse_some fromisoformat none = ok none
parse_some fromisoformat (some text) = do time ← fromisoformat text; ok (some time)

unfoldable pub parse_dt : (String → Result ℕ) → String → Result (Option ℕ)
parse_dt fromisoformat text = parse_some fromisoformat (or_none text)

abbrev pub is_none : {F : Type 0} → Option F → Bool
is_none none = true
is_none (some v) = false

module _ {F B V : Type 0} where
  unfoldable pub row_to_alert_proto : Repositories F B V → AlertRow V → Result (AlertMessage F)
  row_to_alert_proto repo r = do
    value ← repo.float r.value
    threshold_min ← repo.float r.threshold_min
    threshold_max ← repo.float r.threshold_max
    ok (record {
      id = repo.str r.id;
      locomotive_id = repo.str r.locomotive_id;
      sensor_type = r.sensor_type;
      severity = repo.str r.severity;
      value = value;
      threshold_min = threshold_min;
      threshold_max = threshold_max;
      message = r.message;
      recommendation = or_empty_text r.recommendation;
      timestamp = repo.str r.timestamp;
      acknowledged = repo.bool r.acknowledged;
    })

  -- [_row_to_alert_proto(r) for r in rows]
  unfoldable pub rows_to_alert_protos :
      Repositories F B V → List (AlertRow V) → Result (List (AlertMessage F))
  unfolding row_to_alert_proto
  rows_to_alert_protos repo [] = ok []
  rows_to_alert_protos repo (r ∷ rows) = do
    alert ← row_to_alert_proto repo r
    alerts ← rows_to_alert_protos repo rows
    ok (alert ∷ alerts)

  unfoldable pub serve_alerts :
      Repositories F B V → AlertsListRequest → Result (AlertsListResponse F)
  unfolding rows_to_alert_protos
  serve_alerts repo request = do
    start ← parse_dt repo.fromisoformat request.start
    end ← parse_dt repo.fromisoformat request.end
    rows ←
        repo.find_many
          (record {
            locomotive_id = or_none request.locomotive_id;
            severity = or_none request.severity;
            acknowledged = wanted_acknowledged request.filter_acknowledged request.acknowledged;
            start = start;
            end = end;
          })
          request.offset (or_limit (pos 50) request.limit)
    alerts ← rows_to_alert_protos repo rows
    total ← repo.int32 (pos (length alerts))
    ok (record { alerts = alerts; total = total })

module _ {F : Type 0} ⦃f : Float F⦄ where
  -- `float(v) if v is not None else 0.0`
  abbrev pub or_zero : Option F → F
  or_zero none = f.lit 0 1
  or_zero (some v) = v

  -- not v
  abbrev pub is_zero : F → Bool
  is_zero v = f.le v (f.lit 0 0) && f.le (f.lit 0 0) v

  -- float(v or 0)
  abbrev pub truthy_or_zero : Option F → F
  truthy_or_zero none = f.lit 0 0
  truthy_or_zero (some v) = if is_zero v then f.lit 0 0 else v

  unfoldable pub row_to_raw_proto : RawRow F → TelemetryRawPoint F
  row_to_raw_proto r = record {
    time = r.time;
    locomotive_id = r.locomotive_id;
    locomotive_type = r.locomotive_type;
    sensor_type = r.sensor_type;
    value = r.value;
    filtered_value = truthy_or_zero r.filtered_value;
    unit = r.unit;
    latitude = truthy_or_zero r.latitude;
    longitude = truthy_or_zero r.longitude;
  }

module _ {F B V : Type 0} ⦃f : Float F⦄ where
  unfoldable pub row_to_point : Repositories F B V → BucketRow F B → TelemetryPoint F
  row_to_point repo r = record {
    bucket = repo.bucket_text r.bucket;
    locomotive_id = r.locomotive_id;
    sensor_type = r.sensor_type;
    avg_value = or_zero r.avg_value;
    min_value = or_zero r.min_value;
    max_value = or_zero r.max_value;
    last_value = or_zero r.last_value;
    unit = or_empty_text r.unit;
    is_gap = is_none r.avg_value;
  }

  unfoldable pub serve_bucketed :
      Repositories F B V → TelemetryBucketedRequest → Result (TelemetryBucketedResponse F)
  serve_bucketed repo request = do
    start ← parse_dt repo.fromisoformat request.start
    end ← parse_dt repo.fromisoformat request.end
    (rows, data_source) ←
        repo.query_bucketed
          (record {
            locomotive_id = or_none request.locomotive_id;
            sensor_type = or_none request.sensor_type;
            start = start;
            end = end;
          })
          request.offset (or_limit (pos 500) request.limit) (or_none request.bucket_interval)
          request.max_points
    let points = map (row_to_point repo) rows
    total_points ← repo.int32 (pos (length points))
    ok (record { points = points; data_source = data_source; total_points = total_points })

  unfoldable pub serve_raw :
      Repositories F B V → TelemetryRawRequest → Result (List (TelemetryRawPoint F))
  serve_raw repo request = do
    start ← parse_dt repo.fromisoformat request.start
    end ← parse_dt repo.fromisoformat request.end
    rows ←
        repo.query_raw
          (record {
            locomotive_id = or_none request.locomotive_id;
            sensor_type = or_none request.sensor_type;
            start = start;
            end = end;
          })
          request.offset (or_limit (pos 200) request.limit)
    ok (map row_to_raw_proto rows)

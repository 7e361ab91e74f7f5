-- ===== src/Analytics/Client.antt =====
-- shared/shared/grpc_client.py, `AnalyticsClient`: the calls for charts, raw readings and alerts, over a
-- servicer that answers each request. The channel, the time limit and the encoding are left out.
use hackathon_nu.Base.{
  ℕ, Bool, true, false, Option, none, some, String, List, [], ◌∷◌, map, if◌then◌else◌,
}
use hackathon_nu.Base.Int.{ℤ}
use hackathon_nu.Base.Results.{Result, ok, err, ◌>>=◌}
use hackathon_nu.Float.{Float}
use hackathon_nu.Analytics.Messages.{
  TelemetryPoint, TelemetryBucketedRequest, TelemetryBucketedResponse, TelemetryRawPoint,
  TelemetryRawRequest, AlertMessage, AlertsListRequest, AlertsListResponse,
}
use hackathon_nu.Analytics.Servicer.{Repositories, serve_bucketed, serve_raw, serve_alerts, is_zero}
pub mod Exact
pub mod Tests

-- The dict of a point: None in a gap.
pub record ChartPoint (F : Type 0) : Type 0 where
  pub bucket : String
  pub locomotive_id : String
  pub sensor_type : String
  pub avg_value : Option F
  pub min_value : Option F
  pub max_value : Option F
  pub last_value : Option F
  pub unit : String
  pub is_gap : Bool

pub record Chart (F : Type 0) : Type 0 where
  pub points : List (ChartPoint F)
  pub data_source : String
  pub total_points : ℤ

pub record RawDict (F : Type 0) : Type 0 where
  pub time : String
  pub locomotive_id : String
  pub locomotive_type : String
  pub sensor_type : String
  pub value : F
  pub filtered_value : F
  pub unit : String
  pub latitude : Option F
  pub longitude : Option F

-- None if p.is_gap else value
abbrev pub unless_gap : {F : Type 0} → Bool → F → Option F
unless_gap true v = none
unless_gap false v = some v

abbrev pub is_some : Option Bool → Bool
is_some none = false
is_some (some b) = true

-- acknowledged or False
abbrev pub or_false : Option Bool → Bool
or_false none = false
or_false (some b) = b

module _ {F : Type 0} where
  unfoldable pub point_to_dict : TelemetryPoint F → ChartPoint F
  point_to_dict p = record {
    bucket = p.bucket;
    locomotive_id = p.locomotive_id;
    sensor_type = p.sensor_type;
    avg_value = unless_gap p.is_gap p.avg_value;
    min_value = unless_gap p.is_gap p.min_value;
    max_value = unless_gap p.is_gap p.max_value;
    last_value = unless_gap p.is_gap p.last_value;
    unit = p.unit;
    is_gap = p.is_gap;
  }

  unfoldable pub alert_to_dict : AlertMessage F → AlertMessage F
  alert_to_dict a = record {
    id = a.id;
    locomotive_id = a.locomotive_id;
    sensor_type = a.sensor_type;
    severity = a.severity;
    value = a.value;
    threshold_min = a.threshold_min;
    threshold_max = a.threshold_max;
    message = a.message;
    recommendation = a.recommendation;
    timestamp = a.timestamp;
    acknowledged = a.acknowledged;
  }

module _ {F : Type 0} ⦃f : Float F⦄ where
  -- v or None
  abbrev pub truthy : F → Option F
  truthy v = if is_zero v then none else some v

  unfoldable pub raw_point_to_dict : TelemetryRawPoint F → RawDict F
  raw_point_to_dict p = record {
    time = p.time;
    locomotive_id = p.locomotive_id;
    locomotive_type = p.locomotive_type;
    sensor_type = p.sensor_type;
    value = p.value;
    filtered_value = p.filtered_value;
    unit = p.unit;
    latitude = truthy p.latitude;
    longitude = truthy p.longitude;
  }

module _ {F B V : Type 0} ⦃f : Float F⦄ where
  unfoldable pub get_telemetry_bucketed :
      Repositories F B V
      → (locomotive_id sensor_type start end : String) → (offset limit : ℤ)
      → (bucket_interval : String) → (max_points : ℤ) → Result (Chart F)
  get_telemetry_bucketed repo locomotive_id sensor_type start end offset limit bucket_interval
        max_points =
      do
        offset32 ← repo.int32 offset
        limit32 ← repo.int32 limit
        max_points32 ← repo.int32 max_points
        resp ← serve_bucketed repo (record {
          locomotive_id = locomotive_id;
          sensor_type = sensor_type;
          start = start;
          end = end;
          offset = offset32;
          limit = limit32;
          bucket_interval = bucket_interval;
          max_points = max_points32;
        })
        ok (record {
          points = map point_to_dict resp.points;
          data_source = resp.data_source;
          total_points = resp.total_points;
        })

  unfoldable pub get_telemetry_raw :
      Repositories F B V
      → (locomotive_id sensor_type start end : String) → (offset limit : ℤ)
      → Result (List (RawDict F))
  get_telemetry_raw repo locomotive_id sensor_type start end offset limit = do
    offset32 ← repo.int32 offset
    limit32 ← repo.int32 limit
    points ← serve_raw repo (record {
      locomotive_id = locomotive_id;
      sensor_type = sensor_type;
      start = start;
      end = end;
      offset = offset32;
      limit = limit32;
    })
    ok (map raw_point_to_dict points)

  unfoldable pub list_alerts :
      Repositories F B V
      → (locomotive_id severity : String) → (acknowledged : Option Bool) → (start end : String)
      → (offset limit : ℤ) → Result (List (AlertMessage F) × ℤ)
  list_alerts repo locomotive_id severity acknowledged start end offset limit = do
    offset32 ← repo.int32 offset
    limit32 ← repo.int32 limit
    resp ← serve_alerts repo (record {
      locomotive_id = locomotive_id;
      severity = severity;
      filter_acknowledged = is_some acknowledged;
      acknowledged = or_false acknowledged;
      start = start;
      end = end;
      offset = offset32;
      limit = limit32;
    })
    ok (map alert_to_dict resp.alerts, resp.total)

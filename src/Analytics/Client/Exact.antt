-- ===== src/Analytics/Client/Exact.antt =====
-- What comes back from the database through the servicer and the client.
use hackathon_nu.Base.{
  ℕ, suc, ap, ◌≡◌, refl, Bool, true, false, Option, none, some, String, List, [], ◌∷◌, All, map,
  length, length-map,
}
use hackathon_nu.Base.Int.{ℤ, pos}
use hackathon_nu.Base.Results.{Result, ok}
use hackathon_nu.Float.{Float}
use hackathon_nu.Analytics.Telemetry.Rows.{BucketRow}
use hackathon_nu.Analytics.Messages.{IsInt32, AlertMessage}
use hackathon_nu.Analytics.Servicer.{
  Repositories, AlertRow, rows_to_alert_protos, parse_dt, or_none, or_limit, or_empty_text, is_none,
  or_zero, row_to_point, row_to_alert_proto, serve_bucketed, serve_alerts, wanted_acknowledged,
}
use hackathon_nu.Analytics.Client.{
  ChartPoint, point_to_dict, alert_to_dict, get_telemetry_bucketed, list_alerts, unless_gap,
  is_some, or_false,
}

wanted-is_some :
    (acknowledged : Option Bool)
    → wanted_acknowledged (is_some acknowledged) (or_false acknowledged) ≡ acknowledged
wanted-is_some none = refl
wanted-is_some (some b) = refl

-- What protobuf promises for an int32 field.
abbrev pub TakesInt32 : (ℤ → Result ℤ) → Type 0
TakesInt32 int32 = (n : ℤ) → IsInt32 n → int32 n ≡ ok n

module _ {F : Type 0} where
  map-alert_to_dict : (alerts : List (AlertMessage F)) → map alert_to_dict alerts ≡ alerts
  unfolding alert_to_dict
  map-alert_to_dict [] = refl
  map-alert_to_dict (a ∷ alerts) = rw (map-alert_to_dict alerts)

module _ {F B V : Type 0} where
  -- The alert shows the row: the texts of its ids, severity and time, its three numbers as floats,
  -- whether it is acknowledged, and the empty text for no recommendation.
  abbrev pub IsShown : Repositories F B V → AlertRow V → AlertMessage F → Type 0
  IsShown repo r a =
      (value : F) × (low : F) × (high : F) × (repo.float r.value ≡ ok value)
      × (repo.float r.threshold_min ≡ ok low)
      × (repo.float r.threshold_max ≡ ok high)
      × (a ≡ record {
        id = repo.str r.id;
        locomotive_id = repo.str r.locomotive_id;
        sensor_type = r.sensor_type;
        severity = repo.str r.severity;
        value = value;
        threshold_min = low;
        threshold_max = high;
        message = r.message;
        recommendation = or_empty_text r.recommendation;
        timestamp = repo.str r.timestamp;
        acknowledged = repo.bool r.acknowledged;
      })

  -- An alert for each row, in order.
  abbrev pub AreShown : Repositories F B V → List (AlertRow V) → List (AlertMessage F) → Type 0
  AreShown repo [] [] = Unit
  AreShown repo [] (a ∷ alerts) = ⊥
  AreShown repo (r ∷ rows) [] = ⊥
  AreShown repo (r ∷ rows) (a ∷ alerts) = IsShown repo r a × AreShown repo rows alerts

  rows_to_alert_protos-shown :
      (repo : Repositories F B V) (rows : List (AlertRow V)) (alerts : List (AlertMessage F))
      → AreShown repo rows alerts
      → (rows_to_alert_protos repo rows ≡ ok alerts) × (length alerts ≡ length rows)
  unfolding rows_to_alert_protos row_to_alert_proto
  rows_to_alert_protos-shown repo [] [] h = (refl, refl)
  rows_to_alert_protos-shown repo [] (a ∷ alerts) h = absurd h
  rows_to_alert_protos-shown repo (r ∷ rows) [] h = absurd h
  rows_to_alert_protos-shown repo (r ∷ rows) (a ∷ alerts) ((value, low, high, v, x, y, e), hs) =
      let (k, count) = rows_to_alert_protos-shown repo rows alerts hs in
      (rw (v, x, y, k, e), ap suc count)

module _ {F : Type 0} ⦃f : Float F⦄ where
  unless_gap-or_zero : (b : Bool) (v : Option F) → is_none v ≡ b → unless_gap b (or_zero v) ≡ v
  unless_gap-or_zero true none h = refl
  unless_gap-or_zero false none h = cc
  unless_gap-or_zero true (some v) h = cc
  unless_gap-or_zero false (some v) h = refl

module _ {F B : Type 0} where
  -- A bucket has all its values or none.
  abbrev pub IsCoherent : BucketRow F B → Type 0
  IsCoherent r =
      (is_none r.min_value ≡ is_none r.avg_value)
      × (is_none r.max_value ≡ is_none r.avg_value)
      × (is_none r.last_value ≡ is_none r.avg_value)

module _ {F B V : Type 0} ⦃f : Float F⦄ where
  -- The row as a point: the same values, None for None.
  abbrev pub shown : Repositories F B V → BucketRow F B → ChartPoint F
  shown repo r = record {
    bucket = repo.bucket_text r.bucket;
    locomotive_id = r.locomotive_id;
    sensor_type = r.sensor_type;
    avg_value = r.avg_value;
    min_value = r.min_value;
    max_value = r.max_value;
    last_value = r.last_value;
    unit = or_empty_text r.unit;
    is_gap = is_none r.avg_value;
  }

  point_to_dict-row_to_point :
      (repo : Repositories F B V) (r : BucketRow F B)
      → IsCoherent r
      → point_to_dict (row_to_point repo r) ≡ shown repo r
  unfolding point_to_dict row_to_point
  point_to_dict-row_to_point repo r (a, b, c) = rw (
    unless_gap-or_zero (is_none r.avg_value) r.avg_value refl,
    unless_gap-or_zero (is_none r.avg_value) r.min_value a,
    unless_gap-or_zero (is_none r.avg_value) r.max_value b,
    unless_gap-or_zero (is_none r.avg_value) r.last_value c,
  )

  map-shown :
      (repo : Repositories F B V) (rows : List (BucketRow F B))
      → All IsCoherent rows
      → map point_to_dict (map (row_to_point repo) rows) ≡ map (shown repo) rows
  map-shown repo [] h = refl
  map-shown repo (r ∷ rows) (h, hs) =
      rw (point_to_dict-row_to_point repo r h, map-shown repo rows hs)

  length-map_points :
      (repo : Repositories F B V) (rows : List (BucketRow F B))
      → length (map (row_to_point repo) rows) ≡ length rows
  length-map_points repo rows = length-map (row_to_point repo) rows

  -- A call for a chart gives what the database answers to the same filters, the empty texts left out
  -- and a limit of 0 taken as 500: a point for each row, in order, with exactly the row's values, and
  -- None for every value of a gap, and the number of the rows. The times of the call are valid or
  -- empty, every row has all its values or none, and the three integers of the call and the number of
  -- rows are those of an int32, which protobuf takes as they are.
  pub get_telemetry_bucketed-shown :
      (repo : Repositories F B V) (locomotive_id sensor_type start end : String) (offset limit : ℤ)
      (bucket_interval : String) (max_points : ℤ) (from to : Option ℕ) (rows : List (BucketRow F B))
      (source : String)
      → TakesInt32 repo.int32
      → IsInt32 offset
      → IsInt32 limit
      → IsInt32 max_points
      → IsInt32 (pos (length rows))
      → parse_dt repo.fromisoformat start ≡ ok from
      → parse_dt repo.fromisoformat end ≡ ok to
      → repo.query_bucketed
          (record {
            locomotive_id = or_none locomotive_id;
            sensor_type = or_none sensor_type;
            start = from;
            end = to;
          })
          offset
          (or_limit (pos 500) limit)
          (or_none bucket_interval)
          max_points
        ≡ ok (rows, source)
      → All IsCoherent rows
      → get_telemetry_bucketed repo locomotive_id sensor_type start end offset limit bucket_interval
          max_points
        ≡ ok (record {
          points = map (shown repo) rows;
          data_source = source;
          total_points = pos (length rows);
        })
  unfolding get_telemetry_bucketed serve_bucketed
  get_telemetry_bucketed-shown repo locomotive_id sensor_type start end offset limit bucket_interval
        max_points from to rows source fits i j m t h k q c =
      rw (
        fits offset i,
        fits limit j,
        fits max_points m,
        h,
        k,
        q,
        length-map_points repo rows,
        fits (pos (length rows)) t,
        map-shown repo rows c,
      )

  -- A call for alerts gives an alert for each row that the database finds for the same filters, in
  -- order, and the number of the rows. An alert has the texts of the row's ids, severity and time, its
  -- numbers as floats, whether it is acknowledged, its message, and its recommendation or the empty
  -- text. A filter on acknowledged, on not acknowledged and none at all arrive as such, the empty
  -- texts are left out, and a limit of 0 is taken as 50. The times of the call are valid or empty, the
  -- numbers of the rows are floats, and offset, limit and the number of rows are those of an int32,
  -- which protobuf takes as they are.
  pub list_alerts-shown :
      (repo : Repositories F B V) (locomotive_id severity : String) (acknowledged : Option Bool)
      (start end : String) (offset limit : ℤ) (from to : Option ℕ) (rows : List (AlertRow V))
      (alerts : List (AlertMessage F))
      → TakesInt32 repo.int32
      → IsInt32 offset
      → IsInt32 limit
      → IsInt32 (pos (length rows))
      → parse_dt repo.fromisoformat start ≡ ok from
      → parse_dt repo.fromisoformat end ≡ ok to
      → repo.find_many
          (record {
            locomotive_id = or_none locomotive_id;
            severity = or_none severity;
            acknowledged = acknowledged;
            start = from;
            end = to;
          })
          offset
          (or_limit (pos 50) limit)
        ≡ ok rows
      → AreShown repo rows alerts
      → list_alerts repo locomotive_id severity acknowledged start end offset limit
        ≡ ok (alerts, pos (length rows))
  unfolding list_alerts serve_alerts
  list_alerts-shown repo locomotive_id severity acknowledged start end offset limit from to rows
        alerts fits i j t h k q s =
      let (converted, count) = rows_to_alert_protos-shown repo rows alerts s in
      rw (
        fits offset i,
        fits limit j,
        h,
        k,
        wanted-is_some acknowledged,
        q,
        converted,
        count,
        fits (pos (length rows)) t,
        map-alert_to_dict alerts,
      )

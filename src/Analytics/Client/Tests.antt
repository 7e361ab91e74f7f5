-- ===== src/Analytics/Client/Tests.antt =====
-- The theorems on the calls, at a database with a chart of a point and a gap, and on the computed
-- health.
use hackathon_nu.Base.{
  ℕ, String, Bool, true, arith, ltb, if◌then◌else◌, ◌≡◌, refl, false, none, some, [], ◌∷◌, map,
  length, List,
}
use hackathon_nu.Base.Int.{ℤ, pos, negsuc}
use hackathon_nu.Base.Results.{Result, ok, err, value_error}
use hackathon_nu.Float.{◌≼◌}
use hackathon_nu.Float.Fixed.Ordered.{fixed-IsOrdered}
use hackathon_nu.Float.Fixed.Rounded.{fixed-IsRounded}
use hackathon_nu.Analytics.Fallback.{LatestRow, HealthSnapshot, compute_health_from_readings}
use hackathon_nu.Analytics.Fallback.Scored.{InBand, compute_health_from_readings-InBand}
use hackathon_nu.Float.Fixed.{fixed_float}
use hackathon_nu.Analytics.Telemetry.Rows.{BucketRow}
use hackathon_nu.Analytics.Messages.{AlertMessage}
use hackathon_nu.Analytics.Servicer.{Repositories, AlertRow, RawRow, parse_dt, row_to_raw_proto}
use hackathon_nu.Analytics.Client.{get_telemetry_bucketed, list_alerts, raw_point_to_dict, RawDict}
use hackathon_nu.Analytics.Client.Exact.{
  TakesInt32, shown, get_telemetry_bucketed-shown, list_alerts-shown,
}

abbrev full : BucketRow ℤ ℕ
full = record {
  bucket = 60;
  locomotive_id = "A";
  sensor_type = "igbt_temp";
  avg_value = some (pos 0);
  min_value = some (pos 0);
  max_value = some (pos 7);
  last_value = some (pos 5);
  unit = none;
}

abbrev hollow : BucketRow ℤ ℕ
hollow = record full {
  bucket = 120;
  avg_value = none;
  min_value = none;
  max_value = none;
  last_value = none;
}

-- The values of the driver: texts, numbers and flags.
data Value : Type 0 where
  text : String → Value
  number : ℤ → Value
  flag : Bool → Value

abbrev value_text : Value → String
value_text (text t) = t
value_text (number n) = "number"
value_text (flag b) = "flag"

abbrev value_float : Value → Result ℤ
value_float (number n) = ok n
value_float _ = err value_error

abbrev value_bool : Value → Bool
value_bool (flag b) = b
value_bool _ = true

abbrev check_int32 : ℤ → Result ℤ
check_int32 (pos n) = if ltb n 2_147_483_648 then ok (pos n) else err value_error
check_int32 (negsuc n) = if ltb n 2_147_483_648 then ok (negsuc n) else err value_error

check_int32-TakesInt32 : TakesInt32 check_int32
check_int32-TakesInt32 (pos n) h = ground (arith, h)
check_int32-TakesInt32 (negsuc n) h = ground (arith, h)

abbrev alarm_row : AlertRow Value
alarm_row = record {
  id = text "1";
  locomotive_id = text "A";
  sensor_type = "igbt_temp";
  severity = text "critical";
  value = number (pos 9);
  threshold_min = number (pos 0);
  threshold_max = number (pos 8);
  message = "hot";
  recommendation = none;
  timestamp = text "2026-01-01";
  acknowledged = flag false;
}

abbrev alarm : AlertMessage ℤ
alarm = record {
  id = "1";
  locomotive_id = "A";
  sensor_type = "igbt_temp";
  severity = "critical";
  value = pos 9;
  threshold_min = pos 0;
  threshold_max = pos 8;
  message = "hot";
  recommendation = "";
  timestamp = "2026-01-01";
  acknowledged = false;
}

abbrev backend : Repositories ℤ ℕ Value
backend = record {
  int32 = check_int32;
  str = value_text;
  float = value_float;
  bool = value_bool;
  fromisoformat = λ text. ok 5;
  bucket_text = λ b. "t";
  query_bucketed = λ q offset limit bucket max_points. ok (full ∷ hollow ∷ [], "1min aggregate");
  query_raw = λ q offset limit. ok [];
  find_many = λ q offset limit. ok (alarm_row ∷ []);
}

no_time : parse_dt backend.fromisoformat "" ≡ ok none
unfolding parse_dt
no_time = refl

a_time : parse_dt backend.fromisoformat "2026-01-01" ≡ ok (some 5)
unfolding parse_dt
a_time = refl

get_telemetry_bucketed-shown_example :
    get_telemetry_bucketed backend "A" "" "2026-01-01" "" (pos 0) (pos 0) "" (pos 0)
    ≡ ok (record {
      points = map (shown backend) (full ∷ hollow ∷ []);
      data_source = "1min aggregate";
      total_points = pos 2;
    })
get_telemetry_bucketed-shown_example =
    get_telemetry_bucketed-shown backend "A" "" "2026-01-01" "" (pos 0) (pos 0) "" (pos 0) (some 5)
      none (full ∷ hollow ∷ []) "1min aggregate" check_int32-TakesInt32 (omega arith) (omega arith)
      (omega arith) (omega arith) a_time no_time refl ((refl, refl, refl), ((refl, refl, refl), tt))

list_alerts-shown_example :
    list_alerts backend "" "critical" (some false) "" "" (pos 0) (pos 20) ≡ ok (alarm ∷ [], pos 1)
list_alerts-shown_example =
    list_alerts-shown backend "" "critical" (some false) "" "" (pos 0) (pos 20) none none
      (alarm_row ∷ []) (alarm ∷ []) check_int32-TakesInt32 (omega arith) (omega arith) (omega arith)
      no_time no_time refl ((pos 9, pos 0, pos 8, refl, refl, refl, refl), tt)

-- An offset of 2 ^ 31 is refused before the servicer is asked.
far_offset_raises :
    get_telemetry_bucketed backend "A" "" "" "" (pos 2_147_483_648) (pos 0) "" (pos 0)
    ≡ err value_error
unfolding get_telemetry_bucketed
far_offset_raises = refl

abbrev equator : RawRow ℤ
equator = record {
  time = "2026-01-01";
  locomotive_id = "A";
  locomotive_type = "TE33A";
  sensor_type = "igbt_temp";
  value = pos 9;
  filtered_value = none;
  unit = "C";
  latitude = some (pos 0);
  longitude = some (pos 3);
}

-- A coordinate of 0 comes back as None, and a missing filtered value as 0.
equator_lost :
    (d : RawDict ℤ) × (raw_point_to_dict (row_to_raw_proto equator) ≡ d)
    × (d.latitude ≡ none)
    × (d.filtered_value ≡ pos 0)
unfolding raw_point_to_dict row_to_raw_proto hackathon_nu.Float.Fixed.fixed_ops
equator_lost = (raw_point_to_dict (row_to_raw_proto equator), refl, refl, refl)

abbrev latest : List (LatestRow ℤ)
latest =
    record {
      sensor_type = "igbt_temp";
      value = fixed_float.lit 99 0;
      unit = "C";
      locomotive_type = "KZ8A";
    }
    ∷ record {
      sensor_type = "rail_temp";
      value = fixed_float.lit 30 0;
      unit = "C";
      locomotive_type = "KZ8A";
    }
    ∷ []

compute_health_from_readings-InBand_example :
    (h : HealthSnapshot ℤ) × (compute_health_from_readings 5 "A" latest ≡ ok h)
    × (overall : ℤ) × (h.overall_score ≡ fixed_float.round overall 1)
    × (fixed_float.lit 0 1 ≼ overall)
    × (overall ≼ fixed_float.lit 1000 1)
    × InBand overall h.category
    × (fixed_float.lit 0 0 ≼ h.overall_score)
    × (h.overall_score ≼ fixed_float.lit 100 0)
    × (length h.top_factors ≡ 2)
compute_health_from_readings-InBand_example =
    compute_health_from_readings-InBand fixed-IsOrdered fixed-IsRounded 5 "A" latest

-- ===== src/Analytics/Telemetry.antt =====
-- services/analytics-service/analytics/repositories/telemetry_repository.py: the choice of the source,
-- the gap markers and `query_bucketed`. A datetime is its number of microseconds; the database, the
-- conversion of a bucket to seconds and back, and the text of a label are arguments.
use hackathon_nu.Base.{
  ℕ, zero, suc, ◌+◌, ◌*◌, ◌-◌, Bool, true, false, ◌&&◌, ◌||◌, not, Option, none, some, String,
  string_eq, ◌==◌, List, [], ◌∷◌, ◌++◌, length, leb, ltb, nat_beq, if◌then◌else◌,
}
use hackathon_nu.Base.Dict.{Dict, get, has}
use hackathon_nu.Base.Results.{Result, ok, err, Error, zero_division, or_raise, ◌>>=◌}
use hackathon_nu.Float.{Float}
pub mod Rows
pub mod Downsample
pub mod Query
pub mod Sampled
pub mod Marked

pub record AggregateLevel : Type 0 where
  pub source_table : String
  pub bucket_column : String
  pub label : String

abbrev pub seconds : ℕ → ℕ
seconds n = n * 1_000_000

-- _LEVELS
abbrev pub raw_level : AggregateLevel
raw_level = record {
  source_table = "raw_telemetry";
  bucket_column = "time";
  label = "raw (bucketed)";
}

abbrev pub minute_level : AggregateLevel
minute_level = record {
  source_table = "telemetry_1min";
  bucket_column = "bucket";
  label = "1min aggregate";
}

abbrev pub quarter_level : AggregateLevel
quarter_level = record {
  source_table = "telemetry_15min";
  bucket_column = "bucket";
  label = "15min aggregate";
}

abbrev pub hour_level : AggregateLevel
hour_level = record {
  source_table = "telemetry_1hour";
  bucket_column = "bucket";
  label = "1hour aggregate";
}

abbrev pub levels : List (ℕ × AggregateLevel)
levels =
    (seconds 900, raw_level)
    ∷ (seconds 7200, minute_level)
    ∷ (seconds 86_400, quarter_level)
    ∷ (seconds 3_596_400, hour_level)
    ∷ []

-- `end - start <= threshold`
abbrev pub within : ℕ → ℕ → ℕ → Bool
within start end threshold = leb end (start + threshold)

unfoldable pub level_for : ℕ → ℕ → List (ℕ × AggregateLevel) → AggregateLevel
level_for start end [] = hour_level
level_for start end ((threshold, level) ∷ rest) =
    if within start end threshold then level else level_for start end rest

unfoldable pub pick_level : Option ℕ → Option ℕ → AggregateLevel
unfolding level_for
pick_level (some start) (some end) = level_for start end levels
pick_level _ _ = raw_level

-- The comparisons of minutes are made on the exact span.
unfoldable pub raw_bucket_size : ℕ → ℕ → String
raw_bucket_size start end =
    if within start end (seconds 120)
    then "2 seconds"
    else if within start end (seconds 300)
    then "5 seconds"
    else if within start end (seconds 600)
    then "10 seconds"
    else "15 seconds"

-- _ALLOWED_BUCKETS, in seconds
abbrev pub allowed_buckets : Dict String ℕ
allowed_buckets =
    ("2 seconds", 2)
    ∷ ("5 seconds", 5)
    ∷ ("10 seconds", 10)
    ∷ ("15 seconds", 15)
    ∷ ("20 seconds", 20)
    ∷ ("30 seconds", 30)
    ∷ ("40 seconds", 40)
    ∷ ("1 minute", 60)
    ∷ ("5 minutes", 300)
    ∷ ("10 minutes", 600)
    ∷ ("15 minutes", 900)
    ∷ ("30 minutes", 1800)
    ∷ ("1 hour", 3600)
    ∷ []

-- `strip` is str.strip.
unfoldable pub validate_bucket_interval : (String → String) → Option String → Option String
validate_bucket_interval strip none = none
validate_bucket_interval strip (some value) =
    if value == ""
    then none
    else if has (strip value) allowed_buckets
    then some (strip value)
    else none

abbrev pub cagg_bucket_seconds : Dict String ℕ
cagg_bucket_seconds =
    ("telemetry_1min", 60) ∷ ("telemetry_15min", 900) ∷ ("telemetry_1hour", 3600) ∷ []

abbrev pub or_sixty : Option ℕ → ℕ
or_sixty none = 60
or_sixty (some n) = n

abbrev pub bucket_width : Option String → Option ℕ
bucket_width none = none
bucket_width (some size) = get size allowed_buckets

abbrev pub effective_by : Bool → Option ℕ → String → ℕ
effective_by true (some width) source_table = width
effective_by _ _ source_table = or_sixty (get source_table cagg_bucket_seconds)

unfoldable pub effective_bucket_seconds : String → Option String → ℕ
effective_bucket_seconds source_table bucket_size =
    effective_by (source_table == "raw_telemetry") (bucket_width bucket_size) source_table

-- The conditions of `_build_where`.
pub data Clause : Type 0 where
  of_locomotive of_sensor : String → Clause
  from_time to_time : ℕ → Clause

-- The filters of a query.
pub record Filters : Type 0 where
  pub locomotive_id : Option String
  pub sensor_type : Option String
  pub start : Option ℕ
  pub end : Option ℕ

-- The statement that is executed.
pub record Statement : Type 0 where
  pub level : AggregateLevel
  pub time_bucket : Option String
  pub conditions : List Clause
  pub offset : ℕ
  pub limit : ℕ

abbrev pub text_clause : (String → Clause) → Option String → List Clause
text_clause make none = []
text_clause make (some value) = if value == "" then [] else make value ∷ []

abbrev pub time_clause : (ℕ → Clause) → Option ℕ → List Clause
time_clause make none = []
time_clause make (some time) = make time ∷ []

unfoldable pub build_where : Filters → List Clause
build_where q =
    text_clause of_locomotive q.locomotive_id
    ++ text_clause of_sensor q.sensor_type
    ++ time_clause from_time q.start
    ++ time_clause to_time q.end

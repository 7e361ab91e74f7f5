-- ===== src/Analytics/Telemetry/Query.antt =====
-- telemetry_repository.py, `query_bucketed`.
use Prim.Native.String.{◌++◌ as str_append}
use hackathon_nu.Base.{
  ℕ, zero, suc, Bool, true, Option, none, some, String, string_eq, ◌==◌, List, length, ltb,
  if◌then◌else◌,
}
use hackathon_nu.Base.Results.{Result, ok, ◌>>=◌}
use hackathon_nu.Float.{Float}
use hackathon_nu.Analytics.Telemetry.{
  AggregateLevel, Filters, Statement, within, seconds, pick_level, raw_bucket_size,
  validate_bucket_interval, effective_bucket_seconds, build_where,
}
use hackathon_nu.Analytics.Telemetry.Rows.{BucketRow, Clock, insert_gap_markers}
use hackathon_nu.Analytics.Telemetry.Downsample.{lttb}

-- The clock of the service, str.strip and the database.
pub record Database (F : Type 0) (B : Type 0) : Type 0 where
  pub now : ℕ
  pub strip : String → String
  pub execute : Statement → Result (List (BucketRow F B))

-- datetime.now() - start <= _RAW_RETENTION
abbrev pub within_retention : ℕ → Option ℕ → Bool
within_retention now none = true
within_retention now (some start) = within start now (seconds 259_200)

-- The bucket size that is asked for, where the raw rows still reach back that far.
abbrev pub raw_bucket : ℕ → Option ℕ → Option String → Option String
raw_bucket now start none = none
raw_bucket now start (some size) = if within_retention now start then some size else none

abbrev pub level_of : Option String → Filters → AggregateLevel
level_of (some size) q = record {
  source_table = "raw_telemetry";
  bucket_column = "time";
  label = str_append "raw (" (str_append size ")");
}
level_of none q = pick_level q.start q.end

-- `(end - start) if (start and end) else timedelta(minutes=15)`
abbrev pub default_bucket : Option ℕ → Option ℕ → String
default_bucket (some start) (some end) = raw_bucket_size start end
default_bucket _ _ = raw_bucket_size 0 (seconds 900)

abbrev pub time_bucket_of : AggregateLevel → Option String → Filters → Option String
time_bucket_of level (some size) q = some size
time_bucket_of level none q =
    if level.source_table == "raw_telemetry" then some (default_bucket q.start q.end) else none

-- `if max_points and len(rows) > max_points`
abbrev pub downsample :
    {F B : Type 0} ⦃f : Float F⦄
    → Clock F B
    → ℕ
    → List (BucketRow F B)
    → Result (List (BucketRow F B))
downsample clock zero rows = ok rows
downsample clock (suc n) rows =
    if ltb (suc n) (length rows) then lttb clock (suc n) rows else ok rows

unfoldable pub query_bucketed :
    {F B : Type 0} ⦃f : Float F⦄
    → Database F B
    → Clock F B
    → Filters
    → ℕ
    → ℕ
    → Option String
    → ℕ
    → Result (List (BucketRow F B) × String)
query_bucketed ⦃f⦄ db clock q offset limit bucket_interval max_points = do
  let requested = validate_bucket_interval db.strip bucket_interval
  let asked = raw_bucket db.now q.start requested
  let level = level_of asked q
  let bucket_size = time_bucket_of level asked q
  rows ← db.execute (record {
    level = level;
    time_bucket = bucket_size;
    conditions = build_where q;
    offset = offset;
    limit = limit;
  })
  marked ←
      insert_gap_markers clock (effective_bucket_seconds level.source_table bucket_size)
        (f.lit 30 1) rows
  kept ← downsample clock max_points marked
  ok (kept, level.label)

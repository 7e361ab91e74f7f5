-- ===== src/Analytics/Telemetry/Rows.antt =====
-- telemetry_repository.py: the rows of a chart and the markers of their gaps.
use hackathon_nu.Base.{
  ℕ, zero, suc, Option, none, String, string_eq, List, [], ◌∷◌, ◌++◌, if◌then◌else◌,
}
use hackathon_nu.Base.Results.{Result, ok, zero_division, or_raise, ◌>>=◌}
use hackathon_nu.Float.{Float}

-- The dict of a bucket. A gap marker has no values.
pub record BucketRow (F : Type 0) (B : Type 0) : Type 0 where
  pub bucket : B
  pub locomotive_id : String
  pub sensor_type : String
  pub avg_value : Option F
  pub min_value : Option F
  pub max_value : Option F
  pub last_value : Option F
  pub unit : Option String

-- `_ts_to_epoch` and its way back.
pub record Clock (F : Type 0) (B : Type 0) : Type 0 where
  pub to_epoch : B → F
  pub from_epoch : F → B

module _ {F B : Type 0} ⦃f : Float F⦄ where
  abbrev pub marker : Clock F B → F → BucketRow F B → BucketRow F B
  marker clock mid cur = record {
    bucket = clock.from_epoch mid;
    locomotive_id = cur.locomotive_id;
    sensor_type = cur.sensor_type;
    avg_value = none;
    min_value = none;
    max_value = none;
    last_value = none;
    unit = cur.unit;
  }

  -- The rows that one step of the loop appends.
  unfoldable pub gap_step :
      Clock F B → F → BucketRow F B → BucketRow F B → Result (List (BucketRow F B))
  gap_step clock threshold prev cur =
      let prev_ts = clock.to_epoch prev.bucket in
      let cur_ts = clock.to_epoch cur.bucket in
      if f.lt threshold (f.sub cur_ts prev_ts)
      then (do
        mid ← or_raise zero_division (f.div (f.add prev_ts cur_ts) (f.lit 2 0))
        ok (marker clock mid cur ∷ cur ∷ []))
      else ok (cur ∷ [])

  unfoldable pub gap_loop :
      Clock F B → F → BucketRow F B → List (BucketRow F B) → Result (List (BucketRow F B))
  unfolding gap_step
  gap_loop clock threshold prev [] = ok []
  gap_loop clock threshold prev (cur ∷ rows) = do
    added ← gap_step clock threshold prev cur
    rest ← gap_loop clock threshold cur rows
    ok (added ++ rest)

  unfoldable pub insert_gap_markers :
      Clock F B → ℕ → F → List (BucketRow F B) → Result (List (BucketRow F B))
  unfolding gap_loop
  insert_gap_markers clock bucket_size gap_factor [] = ok []
  insert_gap_markers clock zero gap_factor (first ∷ rows) = ok (first ∷ rows)
  insert_gap_markers clock (suc n) gap_factor (first ∷ rows) = do
    rest ← gap_loop clock (f.mul (f.lit (suc n) 0) gap_factor) first rows
    ok (first ∷ rest)

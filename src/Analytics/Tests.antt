-- ===== src/Analytics/Tests.antt =====
-- The theorems on the aggregator, at a fleet of two locomotives, and on the rows of a chart.
use hackathon_nu.Base.{ℕ, ◌*◌, ◌+◌, ◌≡◌, refl, arith, true, none, some, string_eq, List, [], ◌∷◌}
use hackathon_nu.Base.Dict.{get}
use hackathon_nu.Base.Int.{ℤ}
use hackathon_nu.Base.Results.{Result, ok, err, value_error}
use hackathon_nu.Float.Fixed.{fixed_float}
use hackathon_nu.Float.Fixed.Ordered.{fixed-IsOrdered}
use hackathon_nu.Float.Fixed.Rounded.{fixed-IsRounded}
use hackathon_nu.Float.Sorting.{HaveNumbers}
use hackathon_nu.Analytics.Aggregator.{
  values, LocoState, Aggregator, HealthMessage, Summary, compute_summary, drain_changes,
}
use hackathon_nu.Analytics.Aggregator.Changes.{LeadsTo, listen_all, drain_changes-LeadsTo}
use hackathon_nu.Analytics.Aggregator.Totals.{Summarises, compute_summary-Summarises}
use hackathon_nu.Analytics.Telemetry.Rows.{BucketRow, Clock, insert_gap_markers}
use hackathon_nu.Analytics.Telemetry.Downsample.{lttb, sample, choose, largest, sum_points}
use hackathon_nu.Analytics.Telemetry.Sampled.{IsSampled, lttb-IsSampled}
use hackathon_nu.Analytics.Telemetry.Marked.{
  measured, is_broken_everywhere, measured-insert_gap_markers,
}

abbrev healthy : LocoState ℤ
healthy = record {
  locomotive_id = "A";
  locomotive_type = "TE33A";
  score = fixed_float.lit 92 0;
  category = "Норма";
  updated_at = 1;
}

abbrev ailing : LocoState ℤ
ailing = record healthy { locomotive_id = "B"; score = fixed_float.lit 31 0; category = "Критично" }

abbrev pair : Aggregator ℤ
pair = record { fleet = ("A", healthy) ∷ ("B", ailing) ∷ []; changes = []; running = true }

abbrev falls : HealthMessage ℤ
falls = record {
  locomotive_id = some "A";
  overall_score = some (ok (fixed_float.lit 60 0));
  category = some "Внимание";
  locomotive_type = some "TE33A";
}

abbrev messages : List (ℕ × Result (HealthMessage ℤ))
messages =
    (2, ok falls) ∷ (3, err value_error) ∷ (4, ok (record falls { category = some "Норма" })) ∷ []

known : get "A" pair.fleet ≡ some healthy
unfolding get
known = refl

drain_changes-LeadsTo_example :
    (s' : LocoState ℤ) × (get "A" (listen_all messages pair).fleet ≡ some s')
    × LeadsTo "A" "Норма" s'.category (drain_changes (listen_all messages pair)).0
drain_changes-LeadsTo_example = drain_changes-LeadsTo messages "A" healthy pair refl known

pair-HaveNumbers : HaveNumbers (λ (s : LocoState ℤ). s.score) (values pair.fleet)
unfolding hackathon_nu.Float.Fixed.leb_ℤ
pair-HaveNumbers = (refl, (refl, tt))

compute_summary-Summarises_example :
    (summary : Summary ℤ) × (compute_summary 5 pair ≡ ok summary) × Summarises pair summary
compute_summary-Summarises_example =
    compute_summary-Summarises fixed-IsOrdered fixed-IsRounded 5 pair (omega arith) pair-HaveNumbers

abbrev clock : Clock ℤ ℤ
clock = record { to_epoch = λ b. b; from_epoch = λ x. x }

abbrev point : ℕ → BucketRow ℤ ℤ
point n = record {
  bucket = fixed_float.lit (60 * n) 0;
  locomotive_id = "A";
  sensor_type = "igbt_temp";
  avg_value = some (fixed_float.lit (50 + n) 0);
  min_value = some (fixed_float.lit (50 + n) 0);
  max_value = some (fixed_float.lit (50 + n) 0);
  last_value = some (fixed_float.lit (50 + n) 0);
  unit = some "C";
}

abbrev gap : BucketRow ℤ ℤ
gap = record (point 2) { avg_value = none; min_value = none; max_value = none; last_value = none }

abbrev chart : List (BucketRow ℤ ℤ)
chart = point 0 ∷ point 1 ∷ gap ∷ point 3 ∷ point 4 ∷ point 5 ∷ []

lttb-IsSampled_example :
    (kept : List (BucketRow ℤ ℤ)) × (lttb clock 5 chart ≡ ok kept) × IsSampled 5 chart kept
lttb-IsSampled_example =
    lttb-IsSampled fixed-IsOrdered fixed-IsRounded clock 5 chart (omega arith) (omega arith)
      (omega arith)

-- A bucket of nothing but gaps: its marker is kept twice, and the point before it is lost.
lttb-chart : lttb clock 5 chart ≡ ok (point 0 ∷ gap ∷ gap ∷ point 3 ∷ point 5 ∷ [])
unfolding lttb sample choose largest sum_points hackathon_nu.Float.Fixed.fixed_ops
lttb-chart = refl

measured-insert_gap_markers_example :
    (out : List (BucketRow ℤ ℤ)) × (insert_gap_markers clock 60
        (fixed_float.lit 30 1)
        (point 0 ∷ point 9 ∷ [])
      ≡ ok out)
    × (measured out ≡ point 0 ∷ point 9 ∷ [])
    × (is_broken_everywhere clock
          (fixed_float.mul (fixed_float.lit 60 0) (fixed_float.lit 30 1))
          out
        ≡ true)
measured-insert_gap_markers_example =
    measured-insert_gap_markers fixed-IsOrdered fixed-IsRounded clock 60 (fixed_float.lit 30 1)
      (point 0 ∷ point 9 ∷ []) (omega arith) (refl, (refl, tt))

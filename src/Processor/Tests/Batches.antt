-- ===== src/Processor/Tests/Batches.antt =====
-- The theorems on the router, at the concrete readings.
use hackathon_nu.Base.{ℕ, ◌≡◌, refl, List, [], ◌∷◌, All}
use hackathon_nu.Base.Int.{ℤ}
use hackathon_nu.Base.Results.{ok, Error}
use hackathon_nu.Float.Fixed.{fixed_float}
use hackathon_nu.Float.Fixed.Ordered.{fixed-IsOrdered}
use hackathon_nu.Float.Fixed.Rounded.{fixed-IsRounded}
use hackathon_nu.Processor.Router.{Services, Batch, process_readings}
use hackathon_nu.Processor.Router.Counts.{accounted, process_readings_counts}
use hackathon_nu.Processor.Router.Failures.{Encodes, Overflowed, process_readings_errors}
use hackathon_nu.Processor.Tests.{asleep_reading, hot_reading}
use hackathon_nu.Processor.Tests.Runs.{env}

abbrev services : Services ℤ ℕ
services = record { encode = λ m. ok 0; env = λ n. env; health_id = λ n. n; now = λ n. n }

abbrev empty : Batch ℤ ℕ
empty = record {
  results = [];
  telemetry_rows = [];
  alert_records = [];
  health_records = [];
  publish_items = [];
  errors = [];
  filter = record { ema = []; last_persisted = [] };
  damage = [];
}

process_readings_counts_example :
    accounted (process_readings services 0 (asleep_reading ∷ hot_reading ∷ []) empty) ≡ 2
process_readings_counts_example =
    process_readings_counts services 0 (asleep_reading ∷ hot_reading ∷ []) empty

always : Encodes services
always m = (0, refl)

process_readings_errors_example :
    (new : List (ℕ × Error)) × ((process_readings services 0
        (asleep_reading ∷ hot_reading ∷ [])
        empty).errors
      ≡ new)
    × All (Overflowed (asleep_reading ∷ hot_reading ∷ [])) new
process_readings_errors_example =
    process_readings_errors fixed-IsOrdered fixed-IsRounded services 0
      (asleep_reading ∷ hot_reading ∷ []) empty always

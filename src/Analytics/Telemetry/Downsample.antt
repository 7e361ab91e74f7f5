-- ===== src/Analytics/Telemetry/Downsample.antt =====
-- telemetry_repository.py, `_lttb`: the points that a chart keeps, one for each bucket.
use hackathon_nu.Base.{
  ℕ, zero, suc, ◌+◌, ◌-◌, ◌/◌, ◌||◌, Option, none, some, List, [], ◌∷◌, ◌++◌, length, leb, nat_beq,
  if◌then◌else◌,
}
use Prim.Native.Nat.{min as min_nat}
use hackathon_nu.Base.Results.{
  Result, ok, err, zero_division, value_error, index_error, or_raise, ◌>>=◌,
}
use hackathon_nu.Float.{Float}
use hackathon_nu.Analytics.Telemetry.Rows.{BucketRow, Clock}

-- The sums of the next bucket.
pub record Sums (F : Type 0) : Type 0 where
  pub avg_x : F
  pub avg_y : F
  pub avg_count : ℕ

-- The best index so far.
pub record Best (F : Type 0) : Type 0 where
  pub max_area : F
  pub max_idx : ℕ

-- rows[j]
abbrev pub row_at {ℓ} : {A : Type ℓ} → List A → ℕ → Result A
row_at [] j = err index_error
row_at (x ∷ xs) zero = ok x
row_at (x ∷ xs) (suc j) = row_at xs j

module _ {F : Type 0} ⦃f : Float F⦄ where
  abbrev pub area : F → F → F → F → F → F → F
  area a_x a_y avg_x avg_y x v =
      f.mul
        (f.abs
          (f.sub (f.mul (f.sub a_x avg_x) (f.sub v a_y)) (f.mul (f.sub a_x x) (f.sub avg_y a_y))))
        (f.lit 5 1)

  -- int(k * bucket_size) + 1
  abbrev pub bound : F → ℕ → Result ℕ
  bound bucket_size k = do
    whole ← or_raise value_error (f.trunc (f.mul (f.lit k 0) bucket_size))
    ok (whole + 1)

  abbrev pub value_or : F → Option F → F
  value_or d none = d
  value_or d (some v) = v

module _ {F B : Type 0} ⦃f : Float F⦄ where
  abbrev pub add_point : Clock F B → BucketRow F B → Option F → Sums F → Sums F
  add_point clock row none s = s
  add_point clock row (some v) s = record {
    avg_x = f.add s.avg_x (clock.to_epoch row.bucket);
    avg_y = f.add s.avg_y v;
    avg_count = s.avg_count + 1;
  }

  -- for j in range(next_start, next_end)
  unfoldable pub sum_points : Clock F B → List (BucketRow F B) → ℕ → ℕ → Sums F → Result (Sums F)
  sum_points clock rows j zero s = ok s
  sum_points clock rows j (suc n) s = do
    row ← row_at rows j
    sum_points clock rows (suc j) n (add_point clock row row.avg_value s)

  -- A gap ends the loop; a point is taken if its triangle is larger.
  abbrev pub improve :
      (BucketRow F B → F → F)
      → ℕ
      → BucketRow F B
      → Option F
      → Best F
      → (Best F → Result ℕ)
      → Result ℕ
  improve area_of j row none best next = ok j
  improve area_of j row (some v) best next =
      if f.lt best.max_area (area_of row v)
      then next (record { max_area = area_of row v; max_idx = j })
      else next best

  -- for j in range(cur_start, cur_end)
  unfoldable pub largest :
      (BucketRow F B → F → F) → List (BucketRow F B) → ℕ → ℕ → Best F → Result ℕ
  largest area_of rows j zero best = ok best.max_idx
  largest area_of rows j (suc n) best = do
    row ← row_at rows j
    improve area_of j row row.avg_value best (λ b. largest area_of rows (suc j) n b)

  -- The index that a bucket is represented by.
  unfoldable pub choose : Clock F B → List (BucketRow F B) → F → ℕ → ℕ → ℕ → ℕ → Sums F → Result ℕ
  unfolding largest
  choose clock rows bucket_size i a next_start next_end s =
      if nat_beq s.avg_count 0 then ok ((next_start + next_end - 1) / 2) else (do
        avg_x ← or_raise zero_division (f.div s.avg_x (f.lit s.avg_count 0))
        avg_y ← or_raise zero_division (f.div s.avg_y (f.lit s.avg_count 0))
        cur_start ← bound bucket_size i
        cur_end ← bound bucket_size (i + 1)
        from ← row_at rows a
        let a_x = clock.to_epoch from.bucket
        let a_y = value_or avg_y from.avg_value
        largest (λ row v. area a_x a_y avg_x avg_y (clock.to_epoch row.bucket) v) rows cur_start
            (cur_end - cur_start)
            (record { max_area = f.sub (f.lit 0 0) (f.lit 10 1); max_idx = cur_start }))

  unfoldable pub sample :
      Clock F B → List (BucketRow F B) → F → ℕ → ℕ → ℕ → Result (List (BucketRow F B))
  sample clock rows bucket_size i zero a = ok []
  sample clock rows bucket_size i (suc n) a = do
    next_start ← bound bucket_size (i + 1)
    after ← bound bucket_size (i + 2)
    let next_end = min_nat after (length rows)
    s ←
        sum_points clock rows next_start (next_end - next_start)
          (record { avg_x = f.lit 0 1; avg_y = f.lit 0 1; avg_count = 0 })
    idx ← choose clock rows bucket_size i a next_start next_end s
    row ← row_at rows idx
    rest ← sample clock rows bucket_size (suc i) n idx
    ok (row ∷ rest)

  unfoldable pub lttb : Clock F B → ℕ → List (BucketRow F B) → Result (List (BucketRow F B))
  lttb clock threshold rows =
      if leb threshold 2 || leb (length rows) threshold then ok rows else (do
        bucket_size ←
            or_raise zero_division (f.div (f.lit (length rows - 2) 0) (f.lit (threshold - 2) 0))
        first ← row_at rows 0
        inner ← sample clock rows bucket_size 0 (threshold - 2) 0
        last ← row_at rows (length rows - 1)
        ok (first ∷ inner ++ last ∷ []))

-- ===== src/Analytics/Telemetry/Sampled.antt =====
-- The points that a chart keeps.
use Prim.Native.Nat.{min as min_nat}
use hackathon_nu.Base.{
  ℕ, zero, suc, ◌+◌, ◌-◌, ◌/◌, ◌≤◌, ◌<◌, ◌^◌, ◌≡◌, refl, ap, arith, false, Bool-cases, inl, inr,
  Option, none, some, List, [], ◌∷◌, ◌++◌, All, length, length-append, leb, ◌||◌, nat_beq,
}
use hackathon_nu.Base.Results.{Result, ok, >>=-ok}
use hackathon_nu.Float.{Float, zero_f}
use hackathon_nu.Float.Laws.{IsOrdered, IsRounded}
use hackathon_nu.Float.Order.{div_total, not-le_of_lt, zero-lt}
use hackathon_nu.Analytics.Telemetry.Rows.{BucketRow, Clock}
use hackathon_nu.Analytics.Telemetry.Downsample.{
  Sums, Best, row_at, add_point, sum_points, improve, largest, bound, choose, sample, lttb, area,
  value_or,
}

-- The result is an index of a row.
abbrev Indexes : ℕ → Result ℕ → Type 0
Indexes n r = (j : ℕ) × (r ≡ ok j) × (j < n)

module _ {A : Type 0} where
  -- An element that stands in the list.
  abbrev pub IsRow : List A → A → Type 0
  IsRow rows row = (j : ℕ) × (row_at rows j ≡ ok row)

  row_at_total : (rows : List A) (j : ℕ) → j < length rows → (row : A) × (row_at rows j ≡ ok row)
  row_at_total [] j h = absurd (omega (arith, h))
  row_at_total (x ∷ xs) zero h = (x, refl)
  row_at_total (x ∷ xs) (suc j) h = row_at_total xs j (omega (arith, h))

  -- The first and the last row with some rows between them, `n` in all.
  pub record IsSampled (n : ℕ) (rows kept : List A) : Type 0 where
    pub first : A
    pub inner : List A
    pub last : A
    pub shape : kept ≡ first ∷ inner ++ last ∷ []
    pub size : length kept ≡ n
    pub first_kept : row_at rows 0 ≡ ok first
    pub last_kept : row_at rows (length rows - 1) ≡ ok last
    pub inner_rows : All (IsRow rows) inner

module _ {F : Type 0} ⦃f : Float F⦄ where
  -- The buckets are `t` parts of the `m` rows between the first and the last.
  abbrev IsSplit : ℕ → ℕ → F → Type 0
  IsSplit m t q = (0 < t) × (t < 10 ^ 14) × (m < 10 ^ 14) × (f.div (f.lit m 0) (f.lit t 0) ≡ some q)

  module _ (o : IsOrdered F) (l : IsRounded F) where
    bound_total :
        (m t k : ℕ) (q : F)
        → IsSplit m t q
        → k ≤ t + 1
        → (b : ℕ) × (bound q k ≡ ok (b + 1)) × (k ≤ t → b ≤ m)
    bound_total m t k q (p, u, v, e) h =
        let (b, c, d) = l.part_trunc k m t q (omega arith) p (omega arith) (omega arith) e in
        (b, rw c, d)

    average_total :
        (x : F) (n : ℕ)
        → nat_beq n 0 ≡ false
        → n < 10 ^ 15
        → (y : F) × (f.div x (f.lit n 0) ≡ some y)
    average_total x n e h =
        div_total o l x (f.lit n 0)
          (not-le_of_lt o zero_f (f.lit n 0) (zero-lt o n 0 (ground (arith, e)) h (omega arith)))

module _ {F B : Type 0} ⦃f : Float F⦄ where
  add_point_count :
      (clock : Clock F B) (row : BucketRow F B) (v : Option F) (s : Sums F)
      → (add_point clock row v s).avg_count ≤ s.avg_count + 1
  add_point_count clock row none s = omega arith
  add_point_count clock row (some v) s = omega arith

  sum_points_total :
      (clock : Clock F B) (rows : List (BucketRow F B)) (j n : ℕ) (s : Sums F)
      → j + n ≤ length rows
      → (s' : Sums F) × (sum_points clock rows j n s ≡ ok s') × (s'.avg_count ≤ s.avg_count + n)
  unfolding sum_points
  sum_points_total clock rows j zero s h = (s, refl, omega arith)
  sum_points_total clock rows j (suc n) s h =
      let (row, e) = row_at_total rows j (omega arith) in
      let next = add_point clock row row.avg_value s in
      let (s', k, m) = sum_points_total clock rows (suc j) n next (omega arith) in
      (s', rw (e, k), omega (arith, m, add_point_count clock row row.avg_value s))

  improve_total :
      (area_of : BucketRow F B → F → F) (size j : ℕ) (row : BucketRow F B) (v : Option F)
      (best : Best F) (next : Best F → Result ℕ)
      → j < size
      → best.max_idx < size
      → ((b : Best F) → b.max_idx < size → Indexes size (next b))
      → Indexes size (improve area_of j row v best next)
  improve_total area_of size j row none best next h k step = (j, refl, h)
  improve_total area_of size j row (some v) best next h k step =
      elim (Bool-cases (f.lt best.max_area (area_of row v))) [
        | inl e ↦ rw e (step (record { max_area = area_of row v; max_idx = j }) h)
        | inr e ↦ rw e (step best k)
      ]

  largest_total :
      (area_of : BucketRow F B → F → F) (rows : List (BucketRow F B)) (j n : ℕ) (best : Best F)
      → j + n ≤ length rows
      → best.max_idx < length rows
      → Indexes (length rows) (largest area_of rows j n best)
  unfolding largest
  largest_total area_of rows j zero best h k = (best.max_idx, refl, k)
  largest_total area_of rows j (suc n) best h k =
      let (row, e) = row_at_total rows j (omega arith) in
      rw e (
        improve_total area_of (length rows) j row row.avg_value best
          (λ b. largest area_of rows (suc j) n b) (omega arith) k
          (λ b i. largest_total area_of rows (suc j) n b (omega arith) i))

  module _ (o : IsOrdered F) (l : IsRounded F) (m t : ℕ) (q : F) where
    choose_total :
        (clock : Clock F B) (rows : List (BucketRow F B)) (i a next_start next_end : ℕ) (s : Sums F)
        → IsSplit m t q
        → length rows ≡ m + 2
        → i < t
        → a < length rows
        → next_start < length rows
        → next_end ≤ length rows
        → s.avg_count < 10 ^ 15
        → Indexes (length rows) (choose clock rows q i a next_start next_end s)
    unfolding choose
    choose_total clock rows i a next_start next_end s split n h k first last few =
        elim (Bool-cases (nat_beq s.avg_count 0)) [
          | inl e ↦ ((next_start + next_end - 1) / 2, rw e, omega (arith, first, last))
          | inr e ↦
              let (x, ex) = average_total o l s.avg_x s.avg_count e few in
              let (y, ey) = average_total o l s.avg_y s.avg_count e few in
              let (b, eb, ib) = bound_total o l m t i q split (omega arith) in
              let (c, ec, ic) = bound_total o l m t (i + 1) q split (omega arith) in
              let (row, er) = row_at_total rows a k in
              let inside = ib (omega arith) in
              let before = ic (omega arith) in
              let from_x = clock.to_epoch row.bucket in
              let from_y = value_or y row.avg_value in
              let found =
                largest_total (λ r v. area from_x from_y x y (clock.to_epoch r.bucket) v) rows
                  (b + 1) (c + 1 - (b + 1))
                  (record { max_area = f.sub (f.lit 0 0) (f.lit 10 1); max_idx = b + 1 })
                  (omega (arith, inside, before)) (omega (arith, inside)) in
              rw (e, ex, ey, eb, ec, er) found
        ]

    sample_total :
        (clock : Clock F B) (rows : List (BucketRow F B)) (i n a : ℕ)
        → IsSplit m t q
        → length rows ≡ m + 2
        → i + n ≡ t
        → a < length rows
        → (kept : List (BucketRow F B)) × (sample clock rows q i n a ≡ ok kept)
          × (length kept ≡ n)
          × All (IsRow rows) kept
    unfolding sample
    sample_total clock rows i zero a split size h k = ([], refl, refl, tt)
    sample_total clock rows i (suc n) a split size h k =
        let (b, eb, ib) = bound_total o l m t (i + 1) q split (omega arith) in
        let (c, ec, ic) = bound_total o l m t (i + 2) q split (omega arith) in
        let inside = ib (omega arith) in
        let end = min_nat (c + 1) (length rows) in
        let none_yet : Sums F = record { avg_x = f.lit 0 1; avg_y = f.lit 0 1; avg_count = 0 } in
        let (s, es, few) =
          sum_points_total clock rows (b + 1) (end - (b + 1)) none_yet (omega (arith, inside)) in
        let (j, ej, ij) =
          choose_total clock rows i a (b + 1) end s split size (omega arith) k
            (omega (arith, inside)) (omega arith) (omega (arith, few, size, split.2)) in
        let (row, er) = row_at_total rows j ij in
        let (rest, erest, count, rows_too) =
          sample_total clock rows (suc i) n j split size (omega arith) ij in
        (
          row ∷ rest,
          >>=-ok (bound q (i + 1)) _ eb (
              >>=-ok (bound q (i + 2)) _ ec (
                >>=-ok (sum_points clock rows (b + 1) (end - (b + 1)) none_yet) _ es (
                  >>=-ok (choose clock rows q i a (b + 1) end s) _ ej (
                    >>=-ok (row_at rows j) _ er
                      (>>=-ok (sample clock rows q (suc i) n j) _ erest refl))))),
          ap suc count,
          ((j, er), rows_too),
        )

  module _ (o : IsOrdered F) (l : IsRounded F) where
    -- More rows than the threshold, which is at least 3, are thinned out to exactly `threshold` of
    -- them: the first, then some of the rows, then the last. No index is out of range, and nothing
    -- raises. There are fewer than 10 ^ 14 rows, and the float arithmetic obeys `IsOrdered` and
    -- `IsRounded`.
    pub lttb-IsSampled :
        (clock : Clock F B) (threshold : ℕ) (rows : List (BucketRow F B))
        → 2 < threshold
        → threshold < length rows
        → length rows < 10 ^ 14
        → (kept : List (BucketRow F B)) × (lttb clock threshold rows ≡ ok kept)
          × IsSampled threshold rows kept
    unfolding lttb
    lttb-IsSampled clock threshold rows p h small =
        let m = length rows - 2 in
        let t = threshold - 2 in
        let test : (leb threshold 2 || leb (length rows) threshold) ≡ false = ground arith in
        let (q, e) = div_total o l (f.lit m 0) (f.lit t 0) (
          not-le_of_lt o zero_f (f.lit t 0)
            (zero-lt o t 0 (omega arith) (omega arith) (omega arith))) in
        let (first, ef) = row_at_total rows 0 (omega arith) in
        let (last, el) = row_at_total rows (length rows - 1) (omega arith) in
        let (inner, ei, count, stand) =
          sample_total o l m t q clock rows 0 t 0 (omega arith, omega arith, omega arith, e)
            (omega arith) (omega arith) (omega arith) in
        (
          first ∷ inner ++ last ∷ [],
          rw (test, e, ef, ei, el),
          record {
            first = first;
            inner = inner;
            last = last;
            shape = refl;
            size = omega (arith, length-append inner (last ∷ []), count);
            first_kept = ef;
            last_kept = el;
            inner_rows = stand;
          },
        )

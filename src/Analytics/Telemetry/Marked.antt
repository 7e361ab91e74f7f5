-- ===== src/Analytics/Telemetry/Marked.antt =====
-- The gap markers of a chart.
use hackathon_nu.Base.{
  ℕ, zero, suc, ◌≡◌, ◌<◌, refl, arith, Bool, true, false, Bool-cases, not, ◌||◌, inl, inr, Option,
  none, some, List, [], ◌∷◌, All, if◌then◌else◌,
}
use hackathon_nu.Base.Results.{ok}
use hackathon_nu.Float.{Float, zero_f}
use hackathon_nu.Float.Laws.{IsOrdered, IsRounded}
use hackathon_nu.Float.Order.{div_total, not-le_of_lt, zero-lt}
use hackathon_nu.Analytics.Telemetry.Rows.{BucketRow, Clock, marker, gap_loop, insert_gap_markers}

abbrev pub is_marker : {F : Type 0} → Option F → Bool
is_marker none = true
is_marker (some v) = false

module _ {F B : Type 0} where
  -- The rows with a value.
  abbrev pub measured : List (BucketRow F B) → List (BucketRow F B)
  measured [] = []
  measured (row ∷ rows) = if is_marker row.avg_value then measured rows else row ∷ measured rows

  abbrev pub AreMeasured : List (BucketRow F B) → Type 0
  AreMeasured rows = All (λ (row : BucketRow F B). is_marker row.avg_value ≡ false) rows

module _ {F B : Type 0} ⦃f : Float F⦄ where
  abbrev pub is_wide : Clock F B → F → BucketRow F B → BucketRow F B → Bool
  is_wide clock threshold prev cur =
      f.lt threshold (f.sub (clock.to_epoch cur.bucket) (clock.to_epoch prev.bucket))

  -- No two neighbours, both with values, are further apart than the threshold.
  abbrev pub is_broken : Clock F B → F → BucketRow F B → List (BucketRow F B) → Bool
  is_broken clock threshold prev [] = true
  is_broken clock threshold prev (cur ∷ rows) =
      if is_marker prev.avg_value
        || is_marker cur.avg_value
        || not (is_wide clock threshold prev cur)
      then is_broken clock threshold cur rows
      else false

  abbrev pub is_broken_everywhere : Clock F B → F → List (BucketRow F B) → Bool
  is_broken_everywhere clock threshold [] = true
  is_broken_everywhere clock threshold (row ∷ rows) = is_broken clock threshold row rows

  module _ (o : IsOrdered F) (l : IsRounded F) where
    gap_loop-measured :
        (clock : Clock F B) (threshold : F) (prev : BucketRow F B) (rows : List (BucketRow F B))
        → is_marker prev.avg_value ≡ false
        → AreMeasured rows
        → (out : List (BucketRow F B)) × (gap_loop clock threshold prev rows ≡ ok out)
          × (measured out ≡ rows)
          × (is_broken clock threshold prev out ≡ true)
    unfolding gap_loop
    gap_loop-measured clock threshold prev [] p h = ([], refl, refl, refl)
    gap_loop-measured clock threshold prev (cur ∷ rows) p (h, hs) =
        let (out, e, same, broken) = gap_loop-measured clock threshold cur rows h hs in
        elim (Bool-cases (is_wide clock threshold prev cur)) [
          | inl wide ↦
              let (mid, em) =
                div_total o l (f.add (clock.to_epoch prev.bucket) (clock.to_epoch cur.bucket))
                  (f.lit 2 0)
                  (not-le_of_lt o zero_f (f.lit 2 0)
                    (zero-lt o 2 0 (omega arith) (omega arith) (omega arith))) in
              (marker clock mid cur ∷ cur ∷ out, rw (wide, em, e), rw (h, same), rw (p, broken))
          | inr close ↦ (cur ∷ out, rw (close, e), rw (h, same), rw (p, h, close, broken))
        ]

    -- On rows that all have values, the insertion of markers never raises. The result without its
    -- markers is the rows that were given, in order, and no two neighbours of it that both have
    -- values are further apart than the bucket size times the factor. The float arithmetic obeys
    -- `IsOrdered` and `IsRounded`.
    pub measured-insert_gap_markers :
        (clock : Clock F B) (bucket_size : ℕ) (gap_factor : F) (rows : List (BucketRow F B))
        → 0 < bucket_size
        → AreMeasured rows
        → (out : List (BucketRow F B)) × (insert_gap_markers clock bucket_size gap_factor rows
            ≡ ok out)
          × (measured out ≡ rows)
          × (is_broken_everywhere clock (f.mul (f.lit bucket_size 0) gap_factor) out ≡ true)
    unfolding insert_gap_markers
    measured-insert_gap_markers clock zero gap_factor rows p h = absurd (omega (arith, p))
    measured-insert_gap_markers clock (suc n) gap_factor [] p h = ([], refl, refl, refl)
    measured-insert_gap_markers clock (suc n) gap_factor (row ∷ rows) p (h, hs) =
        let (out, e, same, broken) =
          gap_loop-measured clock (f.mul (f.lit (suc n) 0) gap_factor) row rows h hs in
        (row ∷ out, rw e, rw (h, same), broken)

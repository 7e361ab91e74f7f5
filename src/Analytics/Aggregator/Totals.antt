-- ===== src/Analytics/Aggregator/Totals.antt =====
-- The summary of the fleet.
use hackathon_nu.Base.{
  ℕ, suc, ◌+◌, ◌<◌, ◌^◌, ◌≡◌, refl, ap, arith, Bool-cases, inl, inr, String, string_eq, ◌==◌, List,
  [], ◌∷◌, length, map, take,
}
use hackathon_nu.Base.Dict.{Dict}
use hackathon_nu.Base.Results.{ok}
use Prim.Native.Nat.{max as max_nat}
use hackathon_nu.Float.{Float, zero_f}
use hackathon_nu.Float.Laws.{IsOrdered, IsRounded}
use hackathon_nu.Float.Order.{div_total, not-le_of_lt, zero-lt}
use hackathon_nu.Float.Sorting.{sort_by, HaveNumbers, AreSmallest, take-AreSmallest}
use hackathon_nu.Analytics.Aggregator.{
  LocoState, Aggregator, Counts, Summary, count, count_all, values, total_score, worst_of,
  compute_summary,
}

abbrev total : Counts → ℕ
total c = c.norma + c.vnimanie + c.kritichno

total-count : (category : String) (c : Counts) → total (count category c) ≡ total c + 1
unfolding count
total-count category c = elim (Bool-cases (category == "Норма")) [
  | inl e ↦ rw e (omega arith)
  | inr e ↦ elim (Bool-cases (category == "Внимание")) [
    | inl k ↦ rw (e, k) (omega arith)
    | inr k ↦ rw (e, k) (omega arith)
  ]
]

module _ {F : Type 0} where
  total-count_all :
      (states : List (LocoState F)) (c : Counts)
      → total (count_all states c) ≡ total c + length states
  unfolding count_all
  total-count_all [] c = omega arith
  total-count_all (s ∷ states) c =
      omega (arith, total-count s.category c, total-count_all states (count s.category c))

  length-values : (fleet : Dict String (LocoState F)) → length (values fleet) ≡ length fleet
  length-values [] = refl
  length-values (entry ∷ fleet) = ap suc (length-values fleet)

module _ {F : Type 0} ⦃f : Float F⦄ where
  -- Every locomotive is counted once, and the worst ten are shown, the worst first.
  pub record Summarises (a : Aggregator F) (summary : Summary F) : Type 0 where
    pub size : summary.fleet_size ≡ length a.fleet
    pub all_counted : total summary.categories ≡ length a.fleet
    pub chosen : List (LocoState F)
    pub smallest : AreSmallest (λ (s : LocoState F). s.score) 10 (values a.fleet) chosen
    pub shown : summary.worst_10 ≡ map worst_of chosen

  -- The summary of a fleet with numbers as scores is always returned. It counts every locomotive in
  -- exactly one category, and it shows the ten locomotives with the smallest scores, or all where
  -- there are fewer, the smallest first. The float arithmetic obeys `IsOrdered` and `IsRounded`.
  pub compute_summary-Summarises :
      (o : IsOrdered F) (l : IsRounded F) (now : ℕ) (a : Aggregator F)
      → length a.fleet < 10 ^ 15
      → HaveNumbers (λ (s : LocoState F). s.score) (values a.fleet)
      → (summary : Summary F) × (compute_summary now a ≡ ok summary) × Summarises a summary
  unfolding compute_summary
  compute_summary-Summarises o l now a small numbers =
      let n = max_nat (length a.fleet) 1 in
      let positive = zero-lt o n 0 (omega arith) (omega arith) (omega arith) in
      let (q, e) =
        div_total o l (total_score (values a.fleet) (f.lit 0 1)) (f.lit n 0)
          (not-le_of_lt o zero_f (f.lit n 0) positive) in
      let states = values a.fleet in
      let worst = take 10 (sort_by (λ (s : LocoState F). s.score) states) in
      let none_yet : Counts = record { norma = 0; vnimanie = 0; kritichno = 0 } in
      (
        record {
          fleet_size = length a.fleet;
          avg_score = f.round q 1;
          categories = count_all states none_yet;
          worst_10 = map worst_of worst;
          timestamp = now;
        },
        rw e,
        record {
          size = refl;
          all_counted = omega (arith, total-count_all states none_yet, length-values a.fleet);
          chosen = worst;
          smallest = take-AreSmallest o (λ (s : LocoState F). s.score) 10 states numbers;
          shown = refl;
        },
      )

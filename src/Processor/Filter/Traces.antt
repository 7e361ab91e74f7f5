-- ===== src/Processor/Filter/Traces.antt =====
-- The filter over a history of readings of any locomotives and sensors.
use hackathon_nu.Base.{
  ℕ, ◌≡◌, refl, subst, Bool-cases, Option-cases, inl, inr, Option, none, some, List, [], ◌∷◌, ◌==◌,
  ==_refl, nat_eq, pair_eq, if◌then◌else◌, pair_beq_iff,
}
use hackathon_nu.Base.Dict.{get, get-put}
use hackathon_nu.Shared.Enums.{SensorType, sensor_eq}
use hackathon_nu.Float.{Float}
use hackathon_nu.Processor.Filter.{Key, EmaState, ema_filter, smooth}

module _ {F : Type 0} ⦃f : Float F⦄ where
  -- The specification: one sensor on its own, from its last filtered value, if there is one.
  abbrev pub smoothed : SensorType → Option F → List F → Option F
  smoothed s o [] = o
  smoothed s none (raw ∷ raws) = smoothed s (some raw) raws
  smoothed s (some prev) (raw ∷ raws) = smoothed s (some (smooth s raw prev)) raws

  abbrev pub raws_of : Key → List (Key × F) → List F
  raws_of k [] = []
  raws_of k ((j, raw) ∷ trace) = let rest = raws_of k trace in if j == k then raw ∷ rest else rest

  abbrev pub run : List (Key × F) → EmaState F → EmaState F
  run [] st = st
  run (((l, s), raw) ∷ trace) st = run trace (ema_filter l s raw st).1

  get-ema_filter :
      (l : ℕ) (s : SensorType) (raw : F) (k : Key) (st : EmaState F)
      → get k (ema_filter l s raw st).1
        ≡ (if (l, s) == k then some (ema_filter l s raw st).0 else get k st)
  unfolding ema_filter
  get-ema_filter l s raw k st = elim (Option-cases (get (l, s) st)) [
    | inl e ↦ rw (e, ema_filter) (get-put (l, s) k raw st)
    | inr (prev, e) ↦ rw (e, ema_filter) (get-put (l, s) k (smooth s raw prev) st)
  ]

  -- One reading moves the specification of its own sensor on, and no other.
  smoothed-ema_filter :
      (l : ℕ) (s : SensorType) (raw : F) (raws : List F) (st : EmaState F)
      → smoothed s (some (ema_filter l s raw st).0) raws ≡ smoothed s (get (l, s) st) (raw ∷ raws)
  unfolding ema_filter
  smoothed-ema_filter l s raw raws st = elim (Option-cases (get (l, s) st)) [
    | inl e ↦ rw (e, ema_filter)
    | inr (prev, e) ↦ rw (e, ema_filter)
  ]

  -- The state of a sensor after any history is the exponential average of its own raw values in
  -- order; the readings of other sensors and locomotives in between do not count.
  pub get-run :
      (trace : List (Key × F)) (k : Key) (st : EmaState F)
      → get k (run trace st) ≡ smoothed k.1 (get k st) (raws_of k trace)
  get-run [] k st = refl
  get-run (((l, s), raw) ∷ trace) k st = elim (Bool-cases ((l, s) == k)) [
    | inl same ↦
        subst
          (λ j.
            get j (run trace (ema_filter l s raw st).1)
            ≡ smoothed j.1 (get j st) (raws_of j (((l, s), raw) ∷ trace)))
          ((pair_beq_iff (l, s) k).0 same)
          (rw
            (
              ==_refl {Value = Key} (l, s),
              get-run trace (l, s) (ema_filter l s raw st).1,
              get-ema_filter l s raw (l, s) st,
              ==_refl {Value = Key} (l, s),
            )
            (smoothed-ema_filter l s raw (raws_of (l, s) trace) st))
    | inr other ↦
        rw (other, get-run trace k (ema_filter l s raw st).1, get-ema_filter l s raw k st, other)
  ]

-- ===== src/Processor/Ingestion/Steps.antt =====
-- What `flatten_reading` does with one sensor.
use hackathon_nu.Base.{
  ◌≡◌, ◌∙◌, ap, arith, Bool-cases, Option-cases, inl, inr, true, false, Option, none, some, nat_eq,
  pair_eq,
}
use hackathon_nu.Base.Dict.{get, put}
use hackathon_nu.Base.Results.{Result-cases, ok, err, Error, ok-injective}
use hackathon_nu.Float.{Float, ◌≼◌, ◌≺◌, zero_f}
use hackathon_nu.Float.Laws.{IsOrdered, IsRounded}
use hackathon_nu.Float.Order.{not-le_of_lt, zero-le, zero-lt, div_total}
use hackathon_nu.Shared.Enums.{sensor_eq}
use hackathon_nu.Shared.Schemas.{TelemetryReading, SensorPayload}
use hackathon_nu.Processor.Filter.{Key, EmaState, ema_filter}
use hackathon_nu.Processor.Ingestion.{
  FilterState, Row, Step, is_hf, is_suppressed, relative_change, make_row, dedup_sensor,
  flatten_sensor,
}

module _ {F : Type 0} ⦃f : Float F⦄ (o : IsOrdered F) (l : IsRounded F) where
  -- The denominator `abs(last) + 1e-9` is never zero, also where it is NaN.
  not-denominator-le : (last : F) → ¬ (f.add (f.abs last) (f.lit 1 9) ≼ zero_f)
  not-denominator-le last h =
      let b = f.add (f.abs last) (f.lit 1 9) in
      let num = (l.add_num (f.abs last) (f.lit 1 9) (o.refl_of_le b zero_f h).0).0 in
      let low = l.abs_nonneg last (l.abs_num last num) in
      let (_, over) = l.add_nonneg (f.abs last) (f.lit 1 9) low (zero-le o 1 9) in
      not-le_of_lt o zero_f (f.lit 1 9) (zero-lt o 1 9 (omega arith) (omega arith) (omega arith))
        (o.le_trans (f.lit 1 9) b zero_f over h)

  pub is_suppressed-ne-err :
      (filtered : F) (last : Option F) (e : Error) → ¬ (is_suppressed filtered last ≡ err e)
  unfolding is_suppressed
  is_suppressed-ne-err filtered none e h = cc
  is_suppressed-ne-err filtered (some last) e h =
      let (q, eq) =
        div_total o l (f.abs (f.sub filtered last)) (f.add (f.abs last) (f.lit 1 9))
          (not-denominator-le last) in
      ground (arith, eq)

module _ {F : Type 0} ⦃f : Float F⦄ where
  abbrev pub filtered_of : TelemetryReading F → SensorPayload F → FilterState F → F
  filtered_of r p st = (ema_filter r.locomotive_id p.sensor_type p.value st.ema).0

  abbrev pub ema_after : TelemetryReading F → SensorPayload F → FilterState F → EmaState F
  ema_after r p st = (ema_filter r.locomotive_id p.sensor_type p.value st.ema).1

  -- The step with a given row and a given state of the values persisted last.
  abbrev pub step_to :
      TelemetryReading F → SensorPayload F → FilterState F → Option (Row F) → EmaState F → Step F
  step_to r p st row last = record {
    row = ok row;
    sensor = record p { value = filtered_of r p st };
    state = record { ema = ema_after r p st; last_persisted = last };
  }

  -- The relative change from the value persisted last is below 0.005.
  abbrev pub IsNoise : F → Option F → Type 0
  IsNoise y none = ⊥
  IsNoise y (some last) =
      (change : F) × (f.div (f.abs (f.sub y last)) (f.add (f.abs last) (f.lit 1 9)) ≡ some change)
      × (change ≺ f.lit 5 3)

  is_suppressed-IsNoise :
      (y : F) (last : Option F) → is_suppressed y last ≡ ok true → IsNoise y last
  unfolding is_suppressed relative_change
  is_suppressed-IsNoise y none h = cc
  is_suppressed-IsNoise y (some last) h =
      elim (Option-cases (f.div (f.abs (f.sub y last)) (f.add (f.abs last) (f.lit 1 9)))) [
        | inl e ↦ cc
        | inr (change, e) ↦ (change, e, ok-injective (rw (e, is_suppressed, relative_change) at h))
      ]

  not-IsNoise : (y : F) (last : Option F) → is_suppressed y last ≡ ok false → ¬ IsNoise y last
  unfolding is_suppressed relative_change
  not-IsNoise y none h n = n
  not-IsNoise y (some last) h (change, e, below) =
      let above = ok-injective (rw (e, is_suppressed, relative_change) at h) in cc

  abbrev pub IsNoiseOf : TelemetryReading F → SensorPayload F → FilterState F → Type 0
  IsNoiseOf r p st =
      IsNoise (filtered_of r p st)
        (get {K = Key} (r.locomotive_id, p.sensor_type) st.last_persisted)

  -- The three things that a step can do.
  pub data Outcome (r : TelemetryReading F) (p : SensorPayload F) (st : FilterState F)
      : Type 0 where
    low_rate :
        is_hf r ≡ false
        → flatten_sensor r p st
          ≡ step_to r p st (some (make_row r p (filtered_of r p st))) st.last_persisted
        → Outcome r p st
    kept :
        is_hf r ≡ true
        → ¬ IsNoiseOf r p st
        → flatten_sensor r p st
          ≡ step_to r p st (some (make_row r p (filtered_of r p st))) (
              put {K = Key} (r.locomotive_id, p.sensor_type) (filtered_of r p st) st.last_persisted)
        → Outcome r p st
    dropped :
        is_hf r ≡ true
        → IsNoiseOf r p st
        → flatten_sensor r p st ≡ step_to r p st none st.last_persisted
        → Outcome r p st

  pub outcome :
      (o : IsOrdered F) (l : IsRounded F) (r : TelemetryReading F) (p : SensorPayload F)
      (st : FilterState F)
      → Outcome r p st
  unfolding flatten_sensor
  outcome o l r p st =
      let k : Key = (r.locomotive_id, p.sensor_type) in
      let y = filtered_of r p st in
      elim (Bool-cases (is_hf r)) [
        | inr low ↦ low_rate low (rw (low, flatten_sensor, dedup_sensor))
        | inl high ↦ elim (Result-cases (is_suppressed y (get k st.last_persisted))) [
          | inl (e, raised) ↦ absurd (is_suppressed-ne-err o l y _ e raised)
          | inr (b, done) ↦ elim (Bool-cases b) [
            | inl drop ↦
                dropped high (is_suppressed-IsNoise y _ (done ∙ ap ok drop)) (ground (arith, done))
            | inr keep ↦ kept high (not-IsNoise y _ (done ∙ ap ok keep)) (ground (arith, done))
          ]
        ]
      ]

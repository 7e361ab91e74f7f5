-- ===== src/Processor/Router/Failures.antt =====
-- What a reading of a batch can fail with.
use mathlib.Core.List.{append_assoc, append-nil}
use hackathon_nu.Base.{
  ℕ, suc, ◌≡◌, refl, sym, ap, ◌∙◌, inl, inr, List, [], ◌∷◌, ◌++◌, All, Any, All-append,
}
use hackathon_nu.Base.Results.{Result, ok, err, Error, overflow, Result-cases}
use hackathon_nu.Float.{Float}
use hackathon_nu.Float.Laws.{IsOrdered, IsRounded}
use hackathon_nu.Shared.Enums.{kz8a}
use hackathon_nu.Shared.Schemas.{TelemetryReading, AlertEvent, HealthIndex}
use hackathon_nu.Processor.Ingestion.{FilterState, Row, flatten_reading}
use hackathon_nu.Processor.Ingestion.Rows.{flatten_reading-IsFlattened}
use hackathon_nu.Processor.Health.Penalties.{DamageState}
use hackathon_nu.Processor.Health.Index.{calculate_health}
use hackathon_nu.Processor.Health.Raises.{calculate_health_errors}
use hackathon_nu.Processor.Alerts.Selection.{evaluate_alerts-Alerted}
use hackathon_nu.Processor.Router.{
  Services, Batch, Channel, Message, encode_all, messages_of, single_health, process_reading,
  process_readings, process_single,
}
use hackathon_nu.Processor.Router.Single.{err-injective, process_reading-Follows}

module _ {F P : Type 0} where
  -- Encoding never raises.
  abbrev pub Encodes : Services F P → Type 0
  Encodes sv = (m : Message F) → (p : P) × (sv.encode m ≡ ok p)

  encode_all_total :
      (sv : Services F P) (ms : List (Channel × Message F))
      → Encodes sv
      → (ps : List (Channel × P)) × (encode_all sv ms ≡ ok ps)
  encode_all_total sv [] total = ([], refl)
  encode_all_total sv ((c, m) ∷ ms) total =
      let (p, e) = total m in let (ps, h) = encode_all_total sv ms total in ((c, p) ∷ ps, rw (e, h))

  single_health-err :
      (sv : Services F P) (n : ℕ) (r : TelemetryReading F) (rows : List (Row F))
      (alerts : List (AlertEvent F)) (h : Result (HealthIndex F)) (e : Error)
      → Encodes sv
      → single_health sv n r rows alerts h ≡ err e
      → h ≡ err e
  single_health-err sv n r rows alerts (err raised) e total k = rw (err-injective k)
  single_health-err sv n r rows alerts (ok h) e total k =
      let (ps, encoded) = encode_all_total sv (messages_of r h alerts) total in
      let reached = rw encoded at k in cc

module _ {F : Type 0} where
  -- The entry is an overflow of a KZ8A reading among these.
  abbrev pub Overflowed : List (TelemetryReading F) → ℕ × Error → Type 0
  Overflowed rs (loco, e) =
      (e ≡ overflow) × Any (λ r. (r.locomotive_id ≡ loco) × (r.locomotive_type ≡ kz8a)) rs

  All-Overflowed_cons :
      (r : TelemetryReading F) (rs : List (TelemetryReading F)) (es : List (ℕ × Error))
      → All (Overflowed rs) es
      → All (Overflowed (r ∷ rs)) es
  All-Overflowed_cons r rs [] h = tt
  All-Overflowed_cons r rs ((loco, e) ∷ es) ((o, a), hs) =
      ((o, inr a), All-Overflowed_cons r rs es hs)

  All-Overflowed_head :
      (r : TelemetryReading F) (rs : List (TelemetryReading F)) (es : List (ℕ × Error))
      → All (Overflowed (r ∷ [])) es
      → All (Overflowed (r ∷ rs)) es
  All-Overflowed_head r rs [] h = tt
  All-Overflowed_head r rs ((loco, e) ∷ es) ((o, inl a), hs) =
      ((o, inl a), All-Overflowed_head r rs es hs)
  All-Overflowed_head r rs ((loco, e) ∷ es) ((o, inr a), hs) = absurd a

module _ {F P : Type 0} ⦃f : Float F⦄ (o : IsOrdered F) (l : IsRounded F) where
  process_single-err :
      (sv : Services F P) (n : ℕ) (r : TelemetryReading F) (filter : FilterState F)
      (damage : DamageState F) (e : Error)
      → Encodes sv
      → (process_single sv n r filter damage).outcome ≡ err e
      → (e ≡ overflow) × (r.locomotive_type ≡ kz8a)
  unfolding process_single
  process_single-err sv n r filter damage e total h =
      let flat = flatten_reading r filter in
      let flattened = flatten_reading-IsFlattened o l r filter in
      let r' : TelemetryReading F = record r { sensors = flat.sensors } in
      let (alerts, evaluated, _) = evaluate_alerts-Alerted o l (sv.env n) r' in
      let reached = rw (flattened.returned, evaluated) at h in
      (calculate_health_errors o l r' (sv.now n) damage).0 e (
        single_health-err sv n r' flattened.rows alerts (calculate_health r' (sv.now n) damage).0 e
          total reached)

  process_reading_errors :
      (sv : Services F P) (n : ℕ) (r : TelemetryReading F) (b : Batch F P)
      → Encodes sv
      → (new : List (ℕ × Error)) × ((process_reading sv n r b).errors ≡ b.errors ++ new)
        × All (Overflowed (r ∷ [])) new
  process_reading_errors sv n r b total =
      let (_, _, answered, raised) = process_reading-Follows sv n r b in
      elim (Result-cases (process_single sv n r b.filter b.damage).outcome) [
        | inl (e, h) ↦
            let (over, kz) = process_single-err sv n r b.filter b.damage e total h in
            ((r.locomotive_id, e) ∷ [], (raised e h).1, ((over, inl (refl, kz)), tt))
        | inr (sent, h) ↦ ([], ap (λ c. c.errors) (answered sent h) ∙ sym (append-nil b.errors), tt)
      ]

  -- If encoding never raises, the only errors that a batch adds are overflows of the aging rate,
  -- each of a KZ8A reading of the batch with the locomotive that the error names. The float
  -- arithmetic obeys `IsOrdered` and `IsRounded`.
  pub process_readings_errors :
      (sv : Services F P) (n : ℕ) (rs : List (TelemetryReading F)) (b : Batch F P)
      → Encodes sv
      → (new : List (ℕ × Error)) × ((process_readings sv n rs b).errors ≡ b.errors ++ new)
        × All (Overflowed rs) new
  unfolding process_readings
  process_readings_errors sv n [] b total = ([], sym (append-nil b.errors), tt)
  process_readings_errors sv n (r ∷ rs) b total =
      let (first, e, own) = process_reading_errors sv n r b total in
      let (rest, h, others) =
        process_readings_errors sv (suc n) rs (process_reading sv n r b) total in
      (
        first ++ rest,
        h ∙ (ap (λ z. z ++ rest) e ∙ append_assoc b.errors first rest),
        All-append (Overflowed (r ∷ rs)) first rest (All-Overflowed_head r rs first own)
            (All-Overflowed_cons r rs rest others),
      )

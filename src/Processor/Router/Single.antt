-- ===== src/Processor/Router/Single.antt =====
-- The endpoint of one reading and the one of a batch do the same with a reading.
use hackathon_nu.Base.{ℕ, ◌≡◌, refl, sym, inl, inr, none, some, List, [], ◌∷◌, ◌++◌, map}
use hackathon_nu.Base.Results.{
  Result, ok, err, Error, >>=-eq-ok, >>=-eq-err, ok-injective, Result-cases,
}
use mathlib.Core.List.{append_assoc, append-nil}
use hackathon_nu.Float.{Float}
use hackathon_nu.Shared.Schemas.{TelemetryReading, AlertEvent, HealthIndex}
use hackathon_nu.Processor.Ingestion.{FilterState, Row, flatten_reading}
use hackathon_nu.Processor.Health.Penalties.{DamageState}
use hackathon_nu.Processor.Health.Index.{calculate_health}
use hackathon_nu.Processor.Alerts.Evaluate.{evaluate_alerts}
use hackathon_nu.Processor.Router.{
  Services, Batch, Channel, Message, Sent, Response, alert_record, publish_all, encode_all,
  messages_of, after_health, after_alerts, after_rows, single_health, single_alerts, single_rows,
  process_reading, process_single,
}

pub err-injective : {A : Type 0} {e e' : Error} → ◌≡◌ {A = Result A} (err e) (err e') → e ≡ e'
err-injective h = cc

same_error :
    (loco : ℕ) (errors : List (ℕ × Error)) {e e' : Error}
    → e ≡ e'
    → errors ++ (loco, e) ∷ [] ≡ errors ++ (loco, e') ∷ []
same_error loco errors h = rw h

module _ {F P : Type 0} where
  -- What one successful reading adds to the lists of a batch.
  abbrev pub appended : Sent F P → Batch F P → Batch F P
  appended sent b = record b {
    results = b.results ++ sent.summary ∷ [];
    telemetry_rows = b.telemetry_rows ++ sent.telemetry_rows;
    alert_records = b.alert_records ++ sent.alert_records;
    health_records = b.health_records ++ sent.health_record ∷ [];
    publish_items = b.publish_items ++ sent.published;
  }

  abbrev with_state : Response F P → Batch F P → Batch F P
  with_state response b = record b { filter = response.filter; damage = response.damage }

  -- What the batch does with the response of the single endpoint. On an exception nothing is
  -- promised of the four lists of records and messages.
  abbrev pub Follows : ℕ → Response F P → Batch F P → Batch F P → Type 0
  Follows loco response b c =
      (c.filter ≡ response.filter)
      × (c.damage ≡ response.damage)
      × ((sent : Sent F P) → response.outcome ≡ ok sent → c ≡ appended sent (with_state response b))
      × ((e : Error)
          → response.outcome ≡ err e
          → (c.results ≡ b.results) × (c.errors ≡ b.errors ++ (loco, e) ∷ []))

  publish_all-encode_all :
      (sv : Services F P) (ms : List (Channel × Message F)) (items ps : List (Channel × P))
      → encode_all sv ms ≡ ok ps
      → publish_all sv ms items ≡ (none, items ++ ps)
  publish_all-encode_all sv [] items ps h =
      let none_sent : [] ≡ ps = ok-injective h in rw (sym none_sent, append-nil items)
  publish_all-encode_all sv ((c, m) ∷ ms) items ps h =
      let (p, e, h2) = >>=-eq-ok (sv.encode m) _ h in
      let (rest, r, h3) = >>=-eq-ok (encode_all sv ms) _ h2 in
      let sent : (c, p) ∷ rest ≡ ps = ok-injective h3 in
      rw (
        e,
        publish_all-encode_all sv ms (items ++ (c, p) ∷ []) rest r,
        sym sent,
        append_assoc items ((c, p) ∷ []) rest,
      )

  publish_all-err :
      (sv : Services F P) (ms : List (Channel × Message F)) (items : List (Channel × P)) (e : Error)
      → encode_all sv ms ≡ err e
      → (publish_all sv ms items).0 ≡ some e
  publish_all-err sv [] items e h = cc
  publish_all-err sv ((c, m) ∷ ms) items e h = elim (>>=-eq-err (sv.encode m) _ h) [
    | inl k ↦ rw k
    | inr (p, k, h2) ↦ elim (>>=-eq-err (encode_all sv ms) _ h2) [
      | inl r ↦ rw k (publish_all-err sv ms (items ++ (c, p) ∷ []) e r)
      | inr (rest, r, h3) ↦ cc
    ]
  ]

  -- The last step of each: a record of the batch `b` with the rows and the alerts appended.
  after_health-Follows :
      (sv : Services F P) (n : ℕ) (r : TelemetryReading F) (rows : List (Row F))
      (alerts : List (AlertEvent F)) (h : Result (HealthIndex F)) (filter : FilterState F)
      (damage : DamageState F) (b : Batch F P)
      → Follows r.locomotive_id
          (record {
            outcome = single_health sv n r rows alerts h;
            filter = filter;
            damage = damage;
          })
          b
          (after_health sv n r rows alerts h (record b {
            telemetry_rows = b.telemetry_rows ++ rows;
            alert_records = b.alert_records ++ map (alert_record r) alerts;
            filter = filter;
            damage = damage;
          }))
  after_health-Follows sv n r rows alerts (err e) filter damage b = (
    refl,
    refl,
    λ sent k. cc,
    λ e' k. (refl, same_error r.locomotive_id b.errors (err-injective k)),
  )
  after_health-Follows sv n r rows alerts (ok h) filter damage b =
      elim (Result-cases (encode_all sv (messages_of r h alerts))) [
        | inl (e, k) ↦
            rw (publish_all-err sv (messages_of r h alerts) b.publish_items e k, k)
              (
                refl,
                refl,
                λ sent q. cc,
                λ e' q. (refl, same_error r.locomotive_id b.errors (err-injective q)),
              )
        | inr (ps, k) ↦
            rw (publish_all-encode_all sv (messages_of r h alerts) b.publish_items ps k, k)
              (refl, refl, λ sent q. let same = ok-injective q in rw (sym same), λ e' q. cc)
      ]

module _ {F P : Type 0} ⦃f : Float F⦄ where
  after_rows-Follows :
      (sv : Services F P) (n : ℕ) (r : TelemetryReading F) (rows : Result (List (Row F)))
      (filter : FilterState F) (b : Batch F P)
      → Follows r.locomotive_id
          (single_rows sv n r rows filter b.damage)
          b
          (after_rows sv n r rows (record b { filter = filter }))
  after_rows-Follows sv n r (err e) filter b = (
    refl,
    refl,
    λ sent k. cc,
    λ e' k. (refl, same_error r.locomotive_id b.errors (err-injective k)),
  )
  after_rows-Follows sv n r (ok rows) filter b = alerted (evaluate_alerts (sv.env n) r)
    where
      alerted :
          (alerts : Result (List (AlertEvent F)))
          → Follows r.locomotive_id (single_alerts sv n r rows alerts filter b.damage) b (
              after_alerts sv n r rows alerts
                (record b { filter = filter; telemetry_rows = b.telemetry_rows ++ rows }))
      alerted (err e) = (
        refl,
        refl,
        λ sent k. cc,
        λ e' k. (refl, same_error r.locomotive_id b.errors (err-injective k)),
      )
      alerted (ok alerts) =
          let out = calculate_health r (sv.now n) b.damage in
          after_health-Follows sv n r rows alerts out.0 filter out.1 b

  pub process_reading-Follows :
      (sv : Services F P) (n : ℕ) (r : TelemetryReading F) (b : Batch F P)
      → Follows r.locomotive_id
          (process_single sv n r b.filter b.damage)
          b
          (process_reading sv n r b)
  unfolding process_reading process_single
  process_reading-Follows sv n r b =
      let flat = flatten_reading r b.filter in
      after_rows-Follows sv n (record r { sensors = flat.sensors }) flat.rows flat.state b

  -- What the batch `b` has become, `c`, by the answer of the single endpoint. After an exception
  -- nothing is promised of the records and messages.
  abbrev pub Answers : ℕ → Response F P → Batch F P → Batch F P → Result (Sent F P) → Type 0
  Answers loco response b c (ok sent) = c ≡ appended sent (with_state response b)
  Answers loco response b c (err e) =
      (c.results ≡ b.results) × (c.errors ≡ b.errors ++ (loco, e) ∷ [])

-- ===== src/Simulator/Runner/Delivery.antt =====
-- runner.py, the end of `_do_tick`: the batches of a tick with their results, then the flush.
use mathlib.Core.List.{append_assoc, append-nil}
use hackathon_nu.Base.{
  ℕ, zero, suc, ◌+◌, ◌/◌, ◌≤◌, ◌≡◌, refl, ap, ◌∙◌, sym, subst, arith, List, [], ◌∷◌, ◌++◌, length,
  length-append, length-drop, drop, inl, inr, ◌⊎◌, All, length-take,
}
use Prim.Native.Nat.{min as min_nat}
use hackathon_nu.Base.Results.{ok, Result, ok-injective}
use hackathon_nu.Shared.Schemas.{TelemetryReading}
use hackathon_nu.Simulator.Runner.{Runner}
use hackathon_nu.Simulator.Runner.Ticks.{
  buffer_max, Posted, response, refused, raised, sent, batches, account, account_all, flush_buffer,
  unless_empty, deliver_readings, Outside,
}
use hackathon_nu.Simulator.Runner.Latest.{
  latest, length-latest, latest_short, latest-latest, append_all-latest, concat, concat-batches,
}
use hackathon_nu.Simulator.Runner.Buffer.{IsFlushed, flush_buffer-IsFlushed}

module _ {F : Type 0} where
  -- The readings of a batch that was answered with a response.
  abbrev pub answered_of : Posted → List (TelemetryReading F) → List (TelemetryReading F)
  answered_of response batch = batch
  answered_of refused batch = []
  answered_of (raised e) batch = []

  -- The readings of a batch that was not.
  abbrev pub failed_of : Posted → List (TelemetryReading F) → List (TelemetryReading F)
  failed_of response batch = []
  failed_of refused batch = batch
  failed_of (raised e) batch = batch

  -- The readings of all batches that were answered, from the batch with this number on.
  abbrev pub answered :
      (ℕ → List (TelemetryReading F) → Posted)
      → ℕ
      → List (List (TelemetryReading F))
      → List (TelemetryReading F)
  answered post i [] = []
  answered post i (batch ∷ rest) = answered_of (post i batch) batch ++ answered post (suc i) rest

  abbrev pub failed :
      (ℕ → List (TelemetryReading F) → Posted)
      → ℕ
      → List (List (TelemetryReading F))
      → List (TelemetryReading F)
  failed post i [] = []
  failed post i (batch ∷ rest) = failed_of (post i batch) batch ++ failed post (suc i) rest

  -- The failed readings are behind the old ones, and what the buffer cannot hold is lost in front.
  abbrev pub IsAccounted :
      (old answers failures : List (TelemetryReading F)) → Runner F → Runner F → Type 0
  IsAccounted old answers failures r r' =
      (r'.buffer ≡ latest (old ++ failures)) × (r'.events_sent ≡ r.events_sent + length answers)

  account-IsAccounted :
      (p : Posted) (batch : List (TelemetryReading F)) (r : Runner F)
      → length r.buffer ≤ buffer_max
      → IsAccounted r.buffer (answered_of p batch) (failed_of p batch) r (account p batch r)
  unfolding sent
  account-IsAccounted response batch r h =
      (sym (ap latest (append-nil r.buffer) ∙ latest_short r.buffer h), refl)
  account-IsAccounted refused batch r h = (append_all-latest r.buffer batch h, omega arith)
  account-IsAccounted (raised e) batch r h = (append_all-latest r.buffer batch h, omega arith)

  account_all-IsAccounted :
      (post : ℕ → List (TelemetryReading F) → Posted) (i : ℕ)
      (rest : List (List (TelemetryReading F))) (r : Runner F)
      → length r.buffer ≤ buffer_max
      → IsAccounted r.buffer
          (answered post i rest)
          (failed post i rest)
          r
          (account_all post i rest r)
  unfolding account_all
  account_all-IsAccounted post i [] r h =
      (sym (ap latest (append-nil r.buffer) ∙ latest_short r.buffer h), omega arith)
  account_all-IsAccounted post i (batch ∷ rest) r h =
      let p = post i batch in
      let (e, count) = account-IsAccounted p batch r h in
      let fits =
        subst (λ z. length z ≤ buffer_max) (sym e)
          (length-latest (r.buffer ++ failed_of p batch)) in
      let (k, more) = account_all-IsAccounted post (suc i) rest (account p batch r) fits in
      (
        k
            ∙ ap (λ z. latest (z ++ failed post (suc i) rest)) e
            ∙ latest-latest (r.buffer ++ failed_of p batch) (failed post (suc i) rest)
            ∙ ap latest (append_assoc r.buffer (failed_of p batch) (failed post (suc i) rest)),
        omega
            (arith, count, more, length-append (answered_of p batch) (answered post (suc i) rest)),
      )

  -- The buffer is flushed where it is not empty.
  abbrev pub FlushedAfter :
      (ℕ → List (TelemetryReading F) → Posted) → ℕ → Runner F → Runner F → Type 0
  FlushedAfter repost size mid r' =
      ((mid.buffer ≡ []) × (r'.buffer ≡ []) × (r'.events_sent ≡ mid.events_sent))
      ⊎ IsFlushed repost size (min_nat 3 (length mid.buffer / size + 1)) mid r'

  unless_empty-FlushedAfter :
      (repost : ℕ → List (TelemetryReading F) → Posted) (size : ℕ) (b : List (TelemetryReading F))
      (mid r' : Runner F) (next : Result (Runner F))
      → mid.buffer ≡ b
      → (next ≡ ok r' → FlushedAfter repost size mid r')
      → unless_empty b mid next ≡ ok r'
      → FlushedAfter repost size mid r'
  unless_empty-FlushedAfter repost size [] mid r' next e h k =
      let same = sym (ok-injective k) in
      inl (e, ap (λ (z : Runner F). z.buffer) same ∙ e, ap (λ (z : Runner F). z.events_sent) same)
  unless_empty-FlushedAfter repost size (x ∷ xs) mid r' next e h k = h k

  -- The readings are posted in batches, in order; after the batches the runner is `mid`.
  pub record IsDelivered (out : Outside F) (size : ℕ) (readings : List (TelemetryReading F))
      (r r' : Runner F) : Type 0 where
    pub posted : List (List (TelemetryReading F))
    pub mid : Runner F
    pub whole : concat posted ≡ readings
    pub sizes : All (λ (batch : List (TelemetryReading F)). length batch ≤ size) posted
    pub accounted :
        IsAccounted r.buffer (answered out.post 0 posted) (failed out.post 0 posted) r mid
    pub flushed : FlushedAfter out.repost size mid r'
    pub bounded : length r'.buffer ≤ buffer_max

  bounded_after :
      (repost : ℕ → List (TelemetryReading F) → Posted) (size : ℕ) (mid r' : Runner F)
      → length mid.buffer ≤ buffer_max
      → FlushedAfter repost size mid r'
      → length r'.buffer ≤ buffer_max
  bounded_after repost size mid r' h (inl (nil, e, count)) =
      subst (λ z. length z ≤ buffer_max) (sym e) (omega arith)
  bounded_after repost size mid r' h (inr (k, le, e, count, rest)) =
      subst (λ z. length z ≤ buffer_max) (sym e) (omega (arith, h, length-drop k mid.buffer))

  batches-sizes :
      (fuel size : ℕ) (xs : List (TelemetryReading F))
      → All (λ (batch : List (TelemetryReading F)). length batch ≤ size) (batches fuel size xs)
  unfolding batches
  batches-sizes zero size xs = tt
  batches-sizes (suc fuel) size [] = tt
  batches-sizes (suc fuel) size (x ∷ xs) =
      (omega (arith, length-take size (x ∷ xs)), batches-sizes fuel size (drop size (x ∷ xs)))

  -- The fleet and the number of ticks play no part.
  pub IsDelivered-with :
      (out : Outside F) (size : ℕ) (readings : List (TelemetryReading F))
      (r before r' after : Runner F)
      → before.buffer ≡ r.buffer
      → before.events_sent ≡ r.events_sent
      → after.buffer ≡ r'.buffer
      → after.events_sent ≡ r'.events_sent
      → IsDelivered out size readings r r'
      → IsDelivered out size readings before after
  IsDelivered-with out size readings r before r' after b c b' c' d = record {
    posted = d.posted;
    mid = d.mid;
    whole = d.whole;
    sizes = d.sizes;
    accounted = rw (b, c) d.accounted;
    flushed = rw (b', c') d.flushed;
    bounded = rw b' d.bounded;
  }

  pub deliver_readings-IsDelivered :
      (out : Outside F) (size : ℕ) (readings : List (TelemetryReading F)) (r r' : Runner F)
      → length r.buffer ≤ buffer_max
      → deliver_readings out size readings r ≡ ok r'
      → IsDelivered out size readings r r'
  unfolding deliver_readings
  deliver_readings-IsDelivered out zero readings r r' b h = cc
  deliver_readings-IsDelivered out (suc n) readings r r' b h =
      let split = batches (length readings) (suc n) readings in
      let after = account_all out.post 0 split r in
      let (e, count) = account_all-IsAccounted out.post 0 split r b in
      let fits =
        subst (λ z. length z ≤ buffer_max) (sym e)
          (length-latest (r.buffer ++ failed out.post 0 split)) in
      let flush =
        unless_empty-FlushedAfter out.repost (suc n) after.buffer after r'
          (flush_buffer out.repost (suc n) after) refl
          (λ k. inr (flush_buffer-IsFlushed out.repost (suc n) after r' k)) h in
      record {
        posted = split;
        mid = after;
        whole = concat-batches (length readings) (suc n) readings (omega arith) (omega arith);
        sizes = batches-sizes (length readings) (suc n) readings;
        accounted = (e, count);
        flushed = flush;
        bounded = bounded_after out.repost (suc n) after r' fits flush;
      }

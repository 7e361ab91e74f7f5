-- ===== src/Simulator/Runner/Buffer.antt =====
-- runner.py, `_flush_buffer`: the buffered readings that are sent again.
use hackathon_nu.Base.{
  ℕ, zero, suc, ◌+◌, ◌/◌, ◌≤◌, ◌≡◌, refl, ap, ◌∙◌, sym, subst, arith, List, [], ◌∷◌, ◌++◌, length,
  length-drop, length-take, take, drop, take-append-drop,
}
use Prim.Native.Nat.{min as min_nat}
use hackathon_nu.Base.Results.{ok, Result, ok-injective}
use hackathon_nu.Shared.Schemas.{TelemetryReading}
use hackathon_nu.Simulator.Runner.{Runner}
use hackathon_nu.Simulator.Runner.Ticks.{
  Posted, response, refused, raised, sent, retried, flush, flush_buffer, unless_empty,
}
use hackathon_nu.Simulator.Runner.Latest.{drop-drop, drop-take}

module _ {F : Type 0} where
  -- With this many retries, this buffer becomes that one, with this many readings in the batches
  -- that the processor answered with a response. A batch is the first `size` readings. It ends when no
  -- retry or no reading is left, or at the first batch that is refused, which stays.
  pub data Flushed (repost : ℕ → List (TelemetryReading F) → Posted) (size : ℕ)
      : ℕ → List (TelemetryReading F) → List (TelemetryReading F) → ℕ → Type 0 where
    no_retries : (buffer : List (TelemetryReading F)) → Flushed repost size 0 buffer buffer 0
    emptied : (retries : ℕ) → Flushed repost size retries [] [] 0
    gave_up :
        (retries : ℕ) (buffer : List (TelemetryReading F))
        → ¬ (buffer ≡ [])
        → repost retries (take size buffer) ≡ refused
        → Flushed repost size (suc retries) buffer buffer 0
    accepted :
        (retries : ℕ) (buffer left : List (TelemetryReading F)) (k : ℕ)
        → ¬ (buffer ≡ [])
        → repost retries (take size buffer) ≡ response
        → Flushed repost size retries (drop size buffer) left k
        → Flushed repost size (suc retries) buffer left (length (take size buffer) + k)

  -- `k` readings from the front were accepted and counted, and the others are left.
  abbrev pub IsFlushed :
      (ℕ → List (TelemetryReading F) → Posted) → ℕ → ℕ → Runner F → Runner F → Type 0
  IsFlushed repost size retries r r' =
      (k : ℕ) × (k ≤ length r.buffer)
      × (r'.buffer ≡ drop k r.buffer)
      × (r'.events_sent ≡ r.events_sent + k)
      × Flushed repost size retries r.buffer r'.buffer k

  -- Nothing is sent.
  unmoved :
      (repost : ℕ → List (TelemetryReading F) → Posted) (size retries : ℕ) (r r' : Runner F)
      → r'.buffer ≡ r.buffer
      → r'.events_sent ≡ r.events_sent
      → Flushed repost size retries r.buffer r.buffer 0
      → IsFlushed repost size retries r r'
  unmoved repost size retries r r' e count h = (
    0,
    omega arith,
    e,
    omega (arith, count),
    subst (λ z. Flushed repost size retries r.buffer z 0) (sym e) h,
  )

  retried-IsFlushed :
      (repost : ℕ → List (TelemetryReading F) → Posted) (size retries : ℕ) (p : Posted)
      (r : Runner F) (next : Result (Runner F)) (r' : Runner F)
      → ¬ (r.buffer ≡ [])
      → repost retries (take size r.buffer) ≡ p
      → (repost retries (take size r.buffer) ≡ response
          → next ≡ ok r'
          → IsFlushed repost size (suc retries) r r')
      → retried p (take size r.buffer) (drop size r.buffer) r next ≡ ok r'
      → IsFlushed repost size (suc retries) r r'
  retried-IsFlushed repost size retries response r next r' some answer h k = h answer k
  retried-IsFlushed repost size retries refused r next r' some answer h k =
      let stays = take-append-drop size r.buffer in
      subst (IsFlushed repost size (suc retries) r) (ok-injective k) (
        unmoved repost size (suc retries) r
          (record r { buffer = take size r.buffer ++ drop size r.buffer }) stays refl
          (gave_up retries r.buffer some answer))
  retried-IsFlushed repost size retries (raised raise) r next r' some answer h k = cc

  unless_empty-IsFlushed :
      (repost : ℕ → List (TelemetryReading F) → Posted) (size retries : ℕ)
      (b : List (TelemetryReading F)) (r r' : Runner F) (next : Result (Runner F))
      → r.buffer ≡ b
      → (¬ (r.buffer ≡ []) → next ≡ ok r' → IsFlushed repost size retries r r')
      → unless_empty b r next ≡ ok r'
      → IsFlushed repost size retries r r'
  unless_empty-IsFlushed repost size retries [] r r' next e h k =
      subst (IsFlushed repost size retries r) (ok-injective k) (
        unmoved repost size retries r r refl refl
          (subst (λ z. Flushed repost size retries z z 0) (sym e) (emptied retries)))
  unless_empty-IsFlushed repost size retries (x ∷ xs) r r' next e h k = h (λ nil. cc) k

  -- More is sent after the first batch.
  later :
      (repost : ℕ → List (TelemetryReading F) → Posted) (size retries : ℕ) (r r' : Runner F)
      → ¬ (r.buffer ≡ [])
      → repost retries (take size r.buffer) ≡ response
      → IsFlushed repost size retries
          (sent (length (take size r.buffer)) (record r { buffer = drop size r.buffer }))
          r'
      → IsFlushed repost size (suc retries) r r'
  unfolding sent
  later repost size retries r r' some answer (k, le, rest, count, h) =
      let m = length (take size r.buffer) in
      (
        m + k,
        omega (arith, le, length-drop size r.buffer, length-take size r.buffer),
        rest ∙ ap (drop k) (sym (drop-take size r.buffer)) ∙ drop-drop m k r.buffer,
        omega (arith, count),
        accepted retries r.buffer r'.buffer k some answer h,
      )

  flush-IsFlushed :
      (repost : ℕ → List (TelemetryReading F) → Posted) (size retries : ℕ) (r r' : Runner F)
      → flush repost size retries r ≡ ok r'
      → IsFlushed repost size retries r r'
  unfolding flush
  flush-IsFlushed repost size zero r r' h =
      subst (IsFlushed repost size 0 r) (ok-injective h)
        (unmoved repost size 0 r r refl refl (no_retries r.buffer))
  flush-IsFlushed repost size (suc retries) r r' h =
      let batch = take size r.buffer in
      let next = sent (length batch) (record r { buffer = drop size r.buffer }) in
      let rest = flush repost size retries next in
      unless_empty-IsFlushed repost size (suc retries) r.buffer r r'
        (retried (repost retries batch) batch (drop size r.buffer) r rest) refl
        (λ some.
          retried-IsFlushed repost size retries (repost retries batch) r rest r' some refl
            (λ answer k.
              later repost size retries r r' some answer
                (flush-IsFlushed repost size retries next r' k)))
        h

  -- A flush of the buffer that returns has posted batches of `size` readings from the front of the
  -- buffer, at most three and no more than one above the whole batches in it. Exactly the readings
  -- of the batches that were answered with a response are counted as sent and gone from the front; it
  -- ended with no retry or reading left, or at the first batch that was refused, which is still in
  -- front of the others, and these are in their order.
  pub flush_buffer-IsFlushed :
      (repost : ℕ → List (TelemetryReading F) → Posted) (size : ℕ) (r r' : Runner F)
      → flush_buffer repost size r ≡ ok r'
      → IsFlushed repost size (min_nat 3 (length r.buffer / size + 1)) r r'
  unfolding flush_buffer
  flush_buffer-IsFlushed repost zero r r' h = cc
  flush_buffer-IsFlushed repost (suc n) r r' h =
      flush-IsFlushed repost (suc n) (min_nat 3 (length r.buffer / suc n + 1)) r r' h

-- ===== src/Simulator/Runner/Ticks.antt =====
-- runner.py: `_do_tick` and `_flush_buffer`. What `tick` and the generators draw from `random`, the
-- clock and the answers of `post_batch` are arguments. An exception ends the loop of `run`.
use hackathon_nu.Base.{
  ℕ, zero, suc, ◌+◌, ◌/◌, Bool, true, false, ◌&&◌, some, List, [], ◌∷◌, ◌++◌, nat_eq, length, take,
  drop, leb, if◌then◌else◌,
}
use Prim.Native.Nat.{min as min_nat}
use hackathon_nu.Base.Dict.{Dict}
use hackathon_nu.Base.Results.{Result, ok, err, Error, zero_division, value_error, ◌>>=◌}
use hackathon_nu.Float.{Float}
use hackathon_nu.Shared.Schemas.{TelemetryReading, SensorPayload}
use hackathon_nu.Simulator.Locomotive.{LocomotiveState, OnArrival, remove, Random, tick}
use hackathon_nu.Simulator.Generators.{Noise, generate_sensors}
use hackathon_nu.Simulator.Runner.{Runner, effective_multiplier}

-- BUFFER_MAX
abbrev pub buffer_max : ℕ
buffer_max = 10_000

-- A response, the None of a batch that is given up, and an exception.
pub data Posted : Type 0 where
  response refused : Posted
  raised : Error → Posted

-- What one tick takes from outside: for each locomotive its draws and the clock, for each batch the
-- answer of `post_batch`, and the answers to the retries.
pub record Outside (F : Type 0) : Type 0 where
  pub now : ℕ
  pub random : ℕ → Random F
  pub noise : ℕ → ℕ → Noise F
  pub monotonic : ℕ → F
  pub monotonic_batch : F
  pub post : ℕ → List (TelemetryReading F) → Posted
  pub repost : ℕ → List (TelemetryReading F) → Posted

-- `settings.burst_multiplier` and `settings.batch_size`
pub record Settings (F : Type 0) : Type 0 where
  pub burst_multiplier : F
  pub batch_size : ℕ

abbrev pub is_remove : OnArrival → Bool
is_remove remove = true
is_remove _ = false

-- The counters after a batch that was sent.
unfoldable pub sent : {F : Type 0} → ℕ → Runner F → Runner F
sent n r = record r { events_sent = r.events_sent + n }

-- deque(maxlen=BUFFER_MAX).append
unfoldable pub append : {R : Type 0} → List R → R → List R
append buffer x =
    if leb buffer_max (length buffer) then drop 1 buffer ++ x ∷ [] else buffer ++ x ∷ []

unfoldable pub append_all : {R : Type 0} → List R → List R → List R
unfolding append
append_all buffer [] = buffer
append_all buffer (x ∷ xs) = append_all (append buffer x) xs

-- readings[i : i + batch_size] for i in range(0, len(readings), batch_size)
unfoldable pub batches : {R : Type 0} → ℕ → ℕ → List R → List (List R)
batches zero size xs = []
batches (suc fuel) size [] = []
batches (suc fuel) size (x ∷ xs) = take size (x ∷ xs) ∷ batches fuel size (drop size (x ∷ xs))

module _ {F : Type 0} where
  -- One batch with its result of `gather`.
  abbrev pub account : Posted → List (TelemetryReading F) → Runner F → Runner F
  account response batch r = sent (length batch) r
  account _ batch r = record r { errors = r.errors + 1; buffer = append_all r.buffer batch }

  unfoldable pub account_all :
      (ℕ → List (TelemetryReading F) → Posted)
      → ℕ
      → List (List (TelemetryReading F))
      → Runner F
      → Runner F
  unfolding append_all sent
  account_all post i [] r = r
  account_all post i (batch ∷ rest) r =
      account_all post (suc i) rest (account (post i batch) batch r)

  -- The tail of a retry; the `popleft`s have shortened the buffer to `rest`.
  abbrev pub retried :
      Posted
      → List (TelemetryReading F)
      → List (TelemetryReading F)
      → Runner F
      → Result (Runner F)
      → Result (Runner F)
  retried response batch rest r next = next
  retried refused batch rest r next = ok (record r { buffer = batch ++ rest })
  retried (raised e) batch rest r next = err e

  -- `if not self.fleet: return`, `if self.buffer:`
  abbrev pub unless_empty : {A : Type 0} → List A → Runner F → Result (Runner F) → Result (Runner F)
  unless_empty [] r next = ok r
  unless_empty (_ ∷ _) r next = next

  unfoldable pub flush :
      (ℕ → List (TelemetryReading F) → Posted) → ℕ → ℕ → Runner F → Result (Runner F)
  unfolding sent
  flush repost size zero r = ok r
  flush repost size (suc retries) r =
      let batch = take size r.buffer in
      let rest = drop size r.buffer in
      unless_empty r.buffer r (
        retried (repost retries batch) batch rest r
          (flush repost size retries (sent (length batch) (record r { buffer = rest }))))

  -- min(3, len(self.buffer) // batch_size + 1)
  abbrev pub retries_of : ℕ → List (TelemetryReading F) → Result ℕ
  retries_of zero buffer = err zero_division
  retries_of (suc n) buffer = ok (min_nat 3 (length buffer / suc n + 1))

  unfoldable pub flush_buffer :
      (ℕ → List (TelemetryReading F) → Posted) → ℕ → Runner F → Result (Runner F)
  unfolding flush
  flush_buffer repost size r = do retries ← retries_of size r.buffer; flush repost size retries r

  -- The second loop over the fleet.
  unfoldable pub drop_arrived : Dict ℕ (LocomotiveState F) → Dict ℕ (LocomotiveState F)
  drop_arrived [] = []
  drop_arrived ((id, s) ∷ fleet) =
      let rest = drop_arrived fleet in
      if s.arrived && is_remove s.on_arrival then rest else (id, s) ∷ rest

  -- From the split into batches on; a batch size of 0 is the ValueError of `range`.
  unfoldable pub deliver_readings :
      Outside F → ℕ → List (TelemetryReading F) → Runner F → Result (Runner F)
  unfolding account_all batches flush_buffer
  deliver_readings out zero readings r = err value_error
  deliver_readings out (suc n) readings r =
      let counted = account_all out.post 0 (batches (length readings) (suc n) readings) r in
      unless_empty counted.buffer counted (flush_buffer out.repost (suc n) counted)

module _ {F : Type 0} ⦃f : Float F⦄ where
  unfoldable pub make_reading :
      ℕ → F → LocomotiveState F → List (SensorPayload F) → TelemetryReading F
  make_reading now multiplier s sensors = record {
    locomotive_id = s.id;
    locomotive_type = s.loco_type;
    timestamp = now;
    sample_rate_hz = f.mul (f.lit 10 1) multiplier;
    gps = some (record { latitude = s.lat; longitude = s.lon; bearing_deg = some s.bearing_deg });
    sensors = sensors;
    route_name = some s.route.name;
  }

  -- One locomotive of the first loop.
  unfoldable pub tick_one :
      Outside F → F → ℕ → LocomotiveState F → Result (LocomotiveState F × TelemetryReading F)
  unfolding make_reading
  tick_one out multiplier id s = do
    moved ← tick (out.random id) (f.lit 10 1) s
    (sensors, measured) ← generate_sensors (out.noise id) moved
    ok (measured, make_reading out.now multiplier measured sensors)

  unfoldable pub tick_all :
      Settings F
      → Outside F
      → Runner F
      → Dict ℕ (LocomotiveState F)
      → Result (Dict ℕ (LocomotiveState F) × List (TelemetryReading F))
  unfolding tick_one
  tick_all settings out r [] = ok ([], [])
  tick_all settings out r ((id, s) ∷ fleet) = do
    let multiplier = effective_multiplier settings.burst_multiplier (out.monotonic id) r
    (moved, reading) ← tick_one out multiplier id s
    (ticked, readings) ← tick_all settings out r fleet
    ok ((id, moved) ∷ ticked, reading ∷ readings)

  -- 200 in a burst
  abbrev pub batch_size_of : Settings F → F → ℕ
  batch_size_of settings multiplier =
      if f.lt (f.lit 1 0) multiplier then 200 else settings.batch_size

  unfoldable pub do_tick : Settings F → Outside F → Runner F → Result (Runner F)
  unfolding tick_all drop_arrived deliver_readings
  do_tick settings out r =
      let multiplier = effective_multiplier settings.burst_multiplier out.monotonic_batch r in
      unless_empty r.fleet r (
        tick_all settings out r r.fleet >>= (λ ticked.
          deliver_readings out (batch_size_of settings multiplier) ticked.1
            (record r { fleet = drop_arrived ticked.0 })))

  -- One round of `run`, while it runs.
  unfoldable pub run_round : Settings F → Outside F → Runner F → Result (Runner F)
  unfolding do_tick
  run_round settings out r = do
    ticked ← do_tick settings out r
    ok (record ticked { tick_count = ticked.tick_count + 1 })

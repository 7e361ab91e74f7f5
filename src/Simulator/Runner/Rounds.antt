-- ===== src/Simulator/Runner/Rounds.antt =====
-- Rounds of the runner over the whole fleet.
use hackathon_nu.Base.{
  ℕ, zero, suc, ◌≤◌, ◌<◌, ◌^◌, ◌≡◌, refl, sym, subst, ap, arith, Bool, true, false, List, [], ◌∷◌,
  ◌++◌, ◌∙◌, ◌+◌, ◌/◌, take, drop, if◌then◌else◌, length, All, ◌&&◌, Bool-cases, inl, inr, ◌⊎◌,
}
use Prim.Native.Nat.{min as min_nat}
use hackathon_nu.Base.Dict.{Dict}
use hackathon_nu.Base.Results.{Result, ok, Error}
use hackathon_nu.Float.{Float}
use hackathon_nu.Float.Laws.{IsOrdered, IsRounded}
use hackathon_nu.Shared.Schemas.{TelemetryReading}
use hackathon_nu.Simulator.Locomotive.{LocomotiveState, Random, tick}
use hackathon_nu.Simulator.Locomotive.Notch.{tick_notch}
use hackathon_nu.Simulator.Locomotive.Segment.{Place, place, IsPlaced, move-IsInSegment, tick_keeps}
use hackathon_nu.Simulator.Locomotive.OnRoute.{IsOnRoute, move-IsOnRoute}
use hackathon_nu.Simulator.Generators.Complete.{generate_sensors-IsComplete}
use hackathon_nu.Simulator.Runner.{Runner, effective_multiplier}
use hackathon_nu.Simulator.Runner.Ticks.{
  Posted, response, refused, raised, Outside, Settings, make_reading, tick_one, tick_all,
  drop_arrived, deliver_readings, do_tick, run_round, buffer_max, flush, flush_buffer, account,
  retried, unless_empty, is_remove, sent, account_all, batches, batch_size_of,
}
use hackathon_nu.Simulator.Runner.Delivery.{
  IsDelivered, IsDelivered-with, deliver_readings-IsDelivered,
}

module _ {F : Type 0} where
  -- A retry may be refused but raises nothing.
  abbrev pub NeverRaises : (ℕ → List (TelemetryReading F) → Posted) → Type 0
  NeverRaises repost =
      (i : ℕ) (batch : List (TelemetryReading F)) (e : Error) → ¬ (repost i batch ≡ raised e)

  -- The run goes on, with this fleet.
  abbrev Continues : Dict ℕ (LocomotiveState F) → Result (Runner F) → Type 0
  Continues fleet next = (r' : Runner F) × (next ≡ ok r') × (r'.fleet ≡ fleet)

  retried_total :
      (p : Posted) (batch rest : List (TelemetryReading F)) (r : Runner F)
      (next : Result (Runner F))
      → ((e : Error) → ¬ (p ≡ raised e))
      → Continues r.fleet next
      → Continues r.fleet (retried p batch rest r next)
  retried_total response batch rest r next h k = k
  retried_total refused batch rest r next h k = (record r { buffer = batch ++ rest }, refl, refl)
  retried_total (raised e) batch rest r next h k = absurd (h e refl)

  unless_empty_total :
      (b : List (TelemetryReading F)) (r : Runner F) (next : Result (Runner F))
      → Continues r.fleet next
      → Continues r.fleet (unless_empty b r next)
  unless_empty_total [] r next k = (r, refl, refl)
  unless_empty_total (x ∷ xs) r next k = k

  flush_total :
      (repost : ℕ → List (TelemetryReading F) → Posted) (size retries : ℕ) (r : Runner F)
      → NeverRaises repost
      → Continues r.fleet (flush repost size retries r)
  unfolding flush sent
  flush_total repost size zero r h = (r, refl, refl)
  flush_total repost size (suc retries) r h =
      let batch = take size r.buffer in
      let rest = drop size r.buffer in
      let next = sent (length batch) (record r { buffer = rest }) in
      unless_empty_total r.buffer r
        (retried (repost retries batch) batch rest r (flush repost size retries next))
        (retried_total (repost retries batch) batch rest r (flush repost size retries next)
          (h retries batch) (flush_total repost size retries next h))

  account_fleet :
      (p : Posted) (batch : List (TelemetryReading F)) (r : Runner F)
      → (account p batch r).fleet ≡ r.fleet
  unfolding sent
  account_fleet response batch r = refl
  account_fleet refused batch r = refl
  account_fleet (raised e) batch r = refl

  account_all_fleet :
      (post : ℕ → List (TelemetryReading F) → Posted) (i : ℕ)
      (rest : List (List (TelemetryReading F))) (r : Runner F)
      → (account_all post i rest r).fleet ≡ r.fleet
  unfolding account_all
  account_all_fleet post i [] r = refl
  account_all_fleet post i (batch ∷ rest) r =
      account_all_fleet post (suc i) rest (account (post i batch) batch r)
      ∙ account_fleet (post i batch) batch r

  deliver_readings_total :
      (out : Outside F) (size : ℕ) (readings : List (TelemetryReading F)) (r : Runner F)
      → 0 < size
      → NeverRaises out.repost
      → Continues r.fleet (deliver_readings out size readings r)
  unfolding deliver_readings flush_buffer
  deliver_readings_total out zero readings r p h = absurd (omega (arith, p))
  deliver_readings_total out (suc n) readings r p h =
      let split = batches (length readings) (suc n) readings in
      let mid = account_all out.post 0 split r in
      let (r', e, k) =
        unless_empty_total mid.buffer mid (flush_buffer out.repost (suc n) mid)
          (flush_total out.repost (suc n) (min_nat 3 (length mid.buffer / suc n + 1)) mid h) in
      (r', e, k ∙ account_all_fleet out.post 0 split r)

module _ {F : Type 0} ⦃f : Float F⦄ where
  -- A notch from 0 to 8, and a place of which `Q` holds.
  abbrev pub IsSound : (Place F → Type 0) → LocomotiveState F → Type 0
  IsSound Q s = (s.notch ≤ 8) × Q (place s)

  abbrev pub AreSound : (Place F → Type 0) → Dict ℕ (LocomotiveState F) → Type 0
  AreSound Q fleet = All (λ (entry : ℕ × LocomotiveState F). IsSound Q entry.1) fleet

  -- The fleet is sound and the buffer within its bound.
  abbrev pub IsHealthy : (Place F → Type 0) → Runner F → Type 0
  IsHealthy Q r = AreSound Q r.fleet × (length r.buffer ≤ buffer_max)

  -- The batch size of the round: 200 in a burst.
  abbrev pub size_of : Settings F → Outside F → Runner F → ℕ
  size_of settings out r =
      batch_size_of settings (effective_multiplier settings.burst_multiplier out.monotonic_batch r)

  drop_arrived-AreSound :
      (Q : Place F → Type 0) (fleet : Dict ℕ (LocomotiveState F))
      → AreSound Q fleet
      → AreSound Q (drop_arrived fleet)
  unfolding drop_arrived
  drop_arrived-AreSound Q [] h = h
  drop_arrived-AreSound Q ((id, s) ∷ fleet) (h, hs) =
      kept (s.arrived && is_remove s.on_arrival) (drop_arrived fleet)
        (drop_arrived-AreSound Q fleet hs) h
    where
      kept :
          (b : Bool) (rest : Dict ℕ (LocomotiveState F))
          → AreSound Q rest
          → IsSound Q s
          → AreSound Q (if b then rest else (id, s) ∷ rest)
      kept true rest k h = k
      kept false rest k h = (h, k)

  -- The round ends, every locomotive is sound after it, and its readings are delivered. Without a
  -- locomotive nothing is measured, and buffer and count stay.
  abbrev pub Advances :
      (Place F → Type 0) → Settings F → Outside F → Runner F → Result (Runner F) → Type 0
  Advances Q settings out r next =
      (r' : Runner F) × (next ≡ ok r')
      × AreSound Q r'.fleet
      × (length r'.buffer ≤ buffer_max)
      × (((r.fleet ≡ []) × (r'.buffer ≡ r.buffer) × (r'.events_sent ≡ r.events_sent))
          ⊎ (ticked : Dict ℕ (LocomotiveState F)) × (readings : List (TelemetryReading F))
            × (tick_all settings out r r.fleet ≡ ok (ticked, readings))
            × (length readings ≡ length r.fleet)
            × IsDelivered out (size_of settings out r) readings r r')

  -- A tick keeps `Q`.
  abbrev pub TickKeeps : (Place F → Type 0) → Type 0
  TickKeeps Q =
      (random : Random F) (s s' : LocomotiveState F)
      → Q (place s)
      → tick random (f.lit 10 1) s ≡ ok s'
      → Q (place s')

  module _ (o : IsOrdered F) (l : IsRounded F) (Q : Place F → Type 0) (keeps : TickKeeps Q) where
    tick_one-IsSound :
        (out : Outside F) (multiplier : F) (id : ℕ) (s : LocomotiveState F)
        → (out.random id).choice ≤ 8
        → IsSound Q s
        → (s' : LocomotiveState F) × (reading : TelemetryReading F) × (tick_one out multiplier id s
            ≡ ok (s', reading))
          × IsSound Q s'
    unfolding tick_one
    tick_one-IsSound out multiplier id s c (h, i) =
        let (s1, e1, h1) = tick_notch o l (out.random id) (f.lit 10 1) s c h in
        let i1 = keeps (out.random id) s s1 i e1 in
        let (sensors, s2, e2, _, (_, _, same, still, _)) =
          generate_sensors-IsComplete o l (out.noise id) s1 h1 in
        (
          s2,
          make_reading out.now multiplier s2 sensors,
          rw (e1, e2),
          (rw same h1, subst Q (sym still) i1),
        )

    tick_all-AreSound :
        (settings : Settings F) (out : Outside F) (r : Runner F)
        (fleet : Dict ℕ (LocomotiveState F))
        → ((id : ℕ) → (out.random id).choice ≤ 8)
        → AreSound Q fleet
        → (ticked : Dict ℕ (LocomotiveState F)) × (readings : List (TelemetryReading F)) × (tick_all
              settings out r fleet
            ≡ ok (ticked, readings))
          × AreSound Q ticked
          × (length readings ≡ length fleet)
    unfolding tick_all
    tick_all-AreSound settings out r [] c h = ([], [], refl, tt, refl)
    tick_all-AreSound settings out r ((id, s) ∷ fleet) c (h, hs) =
        let multiplier = effective_multiplier settings.burst_multiplier (out.monotonic id) r in
        let (s', reading, e, k) = tick_one-IsSound out multiplier id s (c id) h in
        let (ticked, readings, es, ks, count) = tick_all-AreSound settings out r fleet c hs in
        ((id, s') ∷ ticked, reading ∷ readings, rw (e, es), (k, ks), ap suc count)

    batch_size_pos :
        (settings : Settings F) (multiplier : F)
        → 0 < settings.batch_size
        → 0 < batch_size_of settings multiplier
    batch_size_pos settings multiplier h = elim (Bool-cases (f.lt (f.lit 1 0) multiplier)) [
      | inl e ↦ rw e (omega arith)
      | inr e ↦ rw e h
    ]

    unless_idle :
        (settings : Settings F) (out : Outside F) (fleet : Dict ℕ (LocomotiveState F))
        (r : Runner F) (next : Result (Runner F))
        → r.fleet ≡ fleet
        → length r.buffer ≤ buffer_max
        → AreSound Q r.fleet
        → Advances Q settings out r next
        → Advances Q settings out r (unless_empty fleet r next)
    unless_idle settings out [] r next e h i k = (r, refl, i, h, inl (e, refl, refl))
    unless_idle settings out (x ∷ xs) r next e h i k = k

    do_tick-Advances :
        (settings : Settings F) (out : Outside F) (r : Runner F)
        → ((id : ℕ) → (out.random id).choice ≤ 8)
        → 0 < settings.batch_size
        → NeverRaises out.repost
        → AreSound Q r.fleet
        → length r.buffer ≤ buffer_max
        → Advances Q settings out r (do_tick settings out r)
    unfolding do_tick
    do_tick-Advances settings out r c p never h b =
        let size = size_of settings out r in
        let (ticked, readings, e, sound, count) = tick_all-AreSound settings out r r.fleet c h in
        let kept = record r { fleet = drop_arrived ticked } in
        let (r', k, same) =
          deliver_readings_total out size readings kept (batch_size_pos settings _ p) never in
        let d = deliver_readings-IsDelivered out size readings kept r' b k in
        let arrived = subst (AreSound Q) (sym same) (drop_arrived-AreSound Q ticked sound) in
        let delivered = IsDelivered-with out size readings kept r r' r' refl refl refl refl d in
        unless_idle settings out r.fleet r _ refl b h
          (r', rw (e, k), arrived, d.bounded, inr (ticked, readings, e, count, delivered))

    -- A round ends and keeps `Q`.
    pub run_round_keeps :
        (settings : Settings F) (out : Outside F) (r : Runner F)
        → ((id : ℕ) → (out.random id).choice ≤ 8)
        → 0 < settings.batch_size
        → NeverRaises out.repost
        → AreSound Q r.fleet
        → length r.buffer ≤ buffer_max
        → Advances Q settings out r (run_round settings out r)
    unfolding run_round
    run_round_keeps settings out r c p never h b =
        let (r', e, sound, bound, readings) = do_tick-Advances settings out r c p never h b in
        let counted = record r' { tick_count = r'.tick_count + 1 } in
        (
          counted,
          rw e,
          sound,
          bound,
          elim readings [
            | inl idle ↦ inl idle
            | inr (ticked, measured, k, count, d) ↦ inr (
              ticked,
              measured,
              k,
              count,
              IsDelivered-with out (size_of settings out r) measured r r r' counted refl refl refl
                  refl d,
            )
          ],
        )

  module _ (o : IsOrdered F) (l : IsRounded F) (n : ℕ) where
    pub tick-IsPlaced : n < 10 ^ 15 → TickKeeps (IsPlaced n)
    tick-IsPlaced small random s s' =
        tick_keeps o l (IsPlaced n) (λ b d z h i. move-IsInSegment o l b n d z small h i) random s

    pub tick-IsOnRoute : n < 10 ^ 15 → TickKeeps (IsOnRoute n)
    tick-IsOnRoute small random s s' =
        tick_keeps o l (IsOnRoute n) (λ b d z h i. move-IsOnRoute o l n b d z small h i) random s

    -- Where the retries of the delivery raise nothing, the batch size is not 0 and the random choice
    -- is at most 8, a round of the run ends: from a fleet whose locomotives have a notch from 0 to 8
    -- and a place within their segment of a route of less than 10 ^ 15 metres, it gives such a fleet.
    -- One reading for each locomotive, as `tick_all` gives them, is posted in order, in batches of at
    -- most the batch size. The readings of exactly the batches that are answered with a response are
    -- counted as sent, and all the others are put behind the buffer, which must be within its bound,
    -- in order: it keeps the newest `buffer_max`, and the rest went out at its front. Then the buffer
    -- is flushed as in `IsFlushed`, and stays within its bound. An empty fleet leaves buffer and
    -- count as they are. The float arithmetic obeys `IsOrdered` and `IsRounded`.
    pub run_round-Advances :
        (settings : Settings F) (out : Outside F) (r : Runner F)
        → n < 10 ^ 15
        → ((id : ℕ) → (out.random id).choice ≤ 8)
        → 0 < settings.batch_size
        → NeverRaises out.repost
        → AreSound (IsPlaced n) r.fleet
        → length r.buffer ≤ buffer_max
        → Advances (IsPlaced n) settings out r (run_round settings out r)
    run_round-Advances settings out r small c p never h b =
        run_round_keeps o l (IsPlaced n) (tick-IsPlaced small) settings out r c p never h b

-- ===== src/Simulator/Locomotive/Notch.antt =====
-- The notch of a locomotive, over any ticks.
use hackathon_nu.Base.{
  ℕ, suc, ◌≤◌, ◌<◌, ◌^◌, ◌≡◌, refl, arith, Bool, true, false, Bool-cases, not, if◌then◌else◌, inl,
  inr, leb,
}
use hackathon_nu.Base.Results.{ok}
use hackathon_nu.Float.{Float, min, zero_f}
use hackathon_nu.Float.Laws.{IsOrdered, IsRounded}
use hackathon_nu.Float.Order.{not-le_of_lt, zero-lt, div_total}
use hackathon_nu.Shared.Enums.{LocomotiveType, te33a, kz8a}
use hackathon_nu.Simulator.Locomotive.{
  LocomotiveState, LocomotiveMode, depot, departure, cruising, arrival, aess_sleep, emergency,
  recovery, LocomotiveScenario, normal_scenario, degradation_scenario, emergency_scenario,
  OnArrival, loop, stop, remove, Random, enter_mode, when_over, when_arrived, advance, transition,
  share, heated, braked, with_pose, scenario_overrides, apply_scenario, segment_bound_hit, move,
  update_gps, tick, departure_notch, cruising_notch, arrival_notch, recovery_notch,
}

departure_notch_le :
    (t : LocomotiveType) (ticks notch : ℕ) → notch ≤ 8 → departure_notch t ticks notch ≤ 8
departure_notch_le kz8a ticks notch h = h
departure_notch_le te33a ticks notch h = ground arith

recovery_notch_le :
    (t : LocomotiveType) (ticks notch : ℕ) → notch ≤ 8 → recovery_notch t ticks notch ≤ 8
recovery_notch_le kz8a ticks notch h = h
recovery_notch_le te33a ticks notch h = ground arith

cruising_notch_le :
    (t : LocomotiveType) (choice notch : ℕ)
    → choice ≤ 8
    → notch ≤ 8
    → cruising_notch t choice notch ≤ 8
cruising_notch_le kz8a choice notch c h = h
cruising_notch_le te33a choice notch c h = c

arrival_notch_le : (t : LocomotiveType) (notch : ℕ) → notch ≤ 8 → arrival_notch t notch ≤ 8
arrival_notch_le kz8a notch h = h
arrival_notch_le te33a notch h = omega arith

module _ {F : Type 0} ⦃f : Float F⦄ where
  when_over_notch :
      (random : Random F) (mode : LocomotiveMode) (s : LocomotiveState F)
      → (when_over random mode s).notch ≡ s.notch
  unfolding enter_mode
  when_over_notch random mode s = elim (Bool-cases (leb s.mode_duration s.mode_ticks)) [
    | inl e ↦ rw e
    | inr e ↦ rw e
  ]

  when_arrived_notch :
      (random : Random F) (s : LocomotiveState F) → s.notch ≤ 8 → (when_arrived random s).notch ≤ 8
  unfolding enter_mode
  when_arrived_notch random s h = elim (Bool-cases (leb s.mode_duration s.mode_ticks)) [
    | inl e ↦ rw e (omega arith)
    | inr e ↦ rw e h
  ]

  over_notch :
      (random : Random F) (mode : LocomotiveMode) (s : LocomotiveState F)
      → s.notch ≤ 8
      → (when_over random mode s).notch ≤ 8
  over_notch random mode s h = rw (when_over_notch random mode s) h

  advance_notch :
      (random : Random F) (mode : LocomotiveMode) (s : LocomotiveState F)
      → random.choice ≤ 8
      → s.notch ≤ 8
      → (advance random mode s).notch ≤ 8
  advance_notch random depot s c h = over_notch random departure s h
  advance_notch random departure s c h =
      over_notch random cruising _ (departure_notch_le s.loco_type s.mode_ticks s.notch h)
  advance_notch random cruising s c h =
      over_notch random arrival _ (cruising_notch_le s.loco_type random.choice s.notch c h)
  advance_notch random arrival s c h =
      when_arrived_notch random _ (arrival_notch_le s.loco_type s.notch h)
  advance_notch random aess_sleep s c h =
      over_notch random departure (record s { speed = f.lit 0 1; notch = 0 }) (omega arith)
  advance_notch random emergency s c h = over_notch random recovery _ h
  advance_notch random recovery s c h =
      over_notch random cruising _ (recovery_notch_le s.loco_type s.mode_ticks s.notch h)

  if_notch :
      (b : Bool) (x y : LocomotiveState F)
      → x.notch ≤ 8
      → y.notch ≤ 8
      → (if b then x else y).notch ≤ 8
  if_notch true x y h k = h
  if_notch false x y h k = k

  transition_notch :
      (random : Random F) (s : LocomotiveState F)
      → random.choice ≤ 8
      → s.notch ≤ 8
      → (transition random s).notch ≤ 8
  unfolding transition
  transition_notch random s c h =
      if_notch (not s.auto_mode) s _ h
        (advance_notch random s.mode (record s { mode_ticks = suc s.mode_ticks }) c h)

  segment_bound_hit_notch :
      (a : OnArrival) (at_end : Bool) (s : LocomotiveState F)
      → (segment_bound_hit a at_end s).notch ≡ s.notch
  segment_bound_hit_notch loop at_end s = refl
  segment_bound_hit_notch stop true s = refl
  segment_bound_hit_notch stop false s = refl
  segment_bound_hit_notch remove true s = refl
  segment_bound_hit_notch remove false s = refl

  move_notch : (forward : Bool) (d : F) (s : LocomotiveState F) → (move forward d s).notch ≡ s.notch
  move_notch true d s = elim (Bool-cases (f.le s.end_distance_m (f.add s.distance_m d))) [
    | inl e ↦ rw e (segment_bound_hit_notch s.on_arrival true _)
    | inr e ↦ rw e
  ]
  move_notch false d s = elim (Bool-cases (f.le (f.sub s.distance_m d) s.start_distance_m)) [
    | inl e ↦ rw e (segment_bound_hit_notch s.on_arrival false _)
    | inr e ↦ rw e
  ]

  module _ (o : IsOrdered F) (l : IsRounded F) where
    share_total : (ticks n : ℕ) → 0 < n → n < 10 ^ 15 → (q : F) × (share ticks n ≡ ok q)
    share_total ticks n p q =
        let (x, e) =
          div_total o l (f.lit ticks 0) (f.lit n 0)
            (not-le_of_lt o zero_f (f.lit n 0) (zero-lt o n 0 p q (omega arith))) in
        (x, rw e)

    scenario_notch :
        (c : LocomotiveScenario) (s : LocomotiveState F)
        → (s' : LocomotiveState F) × (scenario_overrides c s ≡ ok s') × (s'.notch ≡ s.notch)
    scenario_notch normal_scenario s = (_, refl, refl)
    scenario_notch degradation_scenario s =
        let (q, e) = share_total s.scenario_tick 1200 (omega arith) (omega arith) in
        (heated (min (f.lit 10 1) q) s, rw e, refl)
    scenario_notch emergency_scenario s =
        let (q, e) = share_total s.scenario_tick 10 (omega arith) (omega arith) in
        elim (Bool-cases (leb s.scenario_tick 10)) [
          | inl k ↦ (
            braked (f.add (f.lit 51 1) (f.mul (f.sub (f.lit 18 1) (f.lit 51 1)) q)) s,
            rw (k, e),
            refl,
          )
          | inr k ↦ (braked (f.lit 18 1) s, rw k, refl)
        ]

    update_gps_notch :
        (dt : F) (s : LocomotiveState F)
        → (s' : LocomotiveState F) × (update_gps dt s ≡ ok s') × (s'.notch ≡ s.notch)
    unfolding update_gps
    update_gps_notch dt s =
        let (q, e) = div_total o l (f.mul s.speed (f.lit 10000 1)) (f.lit 36000 1) (
          not-le_of_lt o zero_f (f.lit 36000 1)
            (zero-lt o 36000 1 (omega arith) (omega arith) (omega arith))) in
        elim (Bool-cases (f.lt (f.lit 0 0) s.speed)) [
          | inl k ↦ (
            with_pose (move s.forward (f.mul q dt) s),
            rw (k, e),
            move_notch s.forward (f.mul q dt) s,
          )
          | inr k ↦ (with_pose s, rw k, refl)
        ]

    -- `tick` never raises, and it keeps the notch from 0 to 8 in every mode, scenario and policy of
    -- arrival, if the random choice is one of at most 8. The float arithmetic obeys `IsOrdered` and
    -- `IsRounded`.
    pub tick_notch :
        (random : Random F) (dt : F) (s : LocomotiveState F)
        → random.choice ≤ 8
        → s.notch ≤ 8
        → (s' : LocomotiveState F) × (tick random dt s ≡ ok s') × (s'.notch ≤ 8)
    unfolding tick apply_scenario
    tick_notch random dt s c h =
        let s1 = transition random s in
        let (s2, e2, n2) =
          scenario_notch s1.scenario (record s1 { scenario_tick = suc s1.scenario_tick }) in
        let (s3, e3, n3) = update_gps_notch dt s2 in
        let bound = transition_notch random s c h in (s3, rw (e2, e3), rw (n3, n2) bound)

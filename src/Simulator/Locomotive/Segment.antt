-- ===== src/Simulator/Locomotive/Segment.antt =====
-- The position of a locomotive in its segment of the route.
use hackathon_nu.Base.{
  ℕ, suc, ◌<◌, ◌∙◌, ◌^◌, ◌≡◌, refl, sym, subst, arith, Bool, true, false, Bool-cases, not, inl, inr,
  leb, if◌then◌else◌,
}
use hackathon_nu.Base.Results.{
  ok, err, Result, ok-injective, ◌>>=◌, >>=-eq-ok, or_raise, or_raise-eq-ok, zero_division,
}
use hackathon_nu.Float.{Float, ◌≼◌, zero_f, max, min}
use hackathon_nu.Float.Laws.{IsOrdered, IsRounded}
use hackathon_nu.Float.Order.{clip_bounds, zero-le}
use hackathon_nu.Simulator.Locomotive.{
  LocomotiveState, LocomotiveMode, depot, departure, cruising, arrival, aess_sleep, emergency,
  recovery, LocomotiveScenario, normal_scenario, degradation_scenario, emergency_scenario,
  OnArrival, loop, stop, remove, Random, Route, enter_mode, when_over, advance, transition, share,
  braked, scenario_overrides, apply_scenario, segment_bound_hit, move, update_gps, tick, post_init,
}

-- What the segment says of a locomotive: its route, start and end, and its position.
abbrev pub Place : Type 0 → Type 0
Place F = Route F × F × F × F

module _ {F : Type 0} ⦃f : Float F⦄ where
  abbrev pub place : LocomotiveState F → Place F
  place s = (s.route, s.start_distance_m, s.end_distance_m, s.distance_m)

  -- The length of a route is a finite number.
  abbrev pub IsFinite : ℕ → Route F → Type 0
  IsFinite n r = (zero_f ≼ r.length_m) × (r.length_m ≼ f.lit n 0)

  -- 0 <= start <= distance <= end <= length <= n
  abbrev pub IsPlaced : ℕ → Place F → Type 0
  IsPlaced n (route, start, end, distance) =
      (zero_f ≼ start)
      × (start ≼ distance)
      × (distance ≼ end)
      × (end ≼ route.length_m)
      × (route.length_m ≼ f.lit n 0)

  abbrev pub IsInSegment : ℕ → LocomotiveState F → Type 0
  IsInSegment n s = IsPlaced n (place s)

  if_place :
      (b : Bool) (x y : LocomotiveState F) (p : Place F)
      → place x ≡ p
      → place y ≡ p
      → place (if b then x else y) ≡ p
  if_place true x y p h k = h
  if_place false x y p h k = k

  place-when_over :
      (random : Random F) (mode : LocomotiveMode) (s : LocomotiveState F)
      → place (when_over random mode s) ≡ place s
  unfolding enter_mode
  place-when_over random mode s =
      if_place (leb s.mode_duration s.mode_ticks) (enter_mode random mode s) s (place s) refl refl

  place-advance :
      (random : Random F) (mode : LocomotiveMode) (s : LocomotiveState F)
      → place (advance random mode s) ≡ place s
  unfolding enter_mode
  place-advance random depot s = place-when_over random departure s
  place-advance random departure s = place-when_over random cruising _
  place-advance random cruising s = place-when_over random arrival _
  place-advance random arrival s =
      if_place (leb s.mode_duration s.mode_ticks) _ _ (place s) refl refl
  place-advance random aess_sleep s = place-when_over random departure _
  place-advance random emergency s = place-when_over random recovery _
  place-advance random recovery s = place-when_over random cruising _

  place-transition :
      (random : Random F) (s : LocomotiveState F) → place (transition random s) ≡ place s
  unfolding transition
  place-transition random s =
      if_place (not s.auto_mode) s _ (place s) refl
        (place-advance random s.mode (record s { mode_ticks = suc s.mode_ticks }))

  place-braked :
      (brake : Result F) (s : LocomotiveState F) {s' : LocomotiveState F}
      → (brake >>= (λ b. ok (braked b s))) ≡ ok s'
      → place s' ≡ place s
  place-braked (err e) s h = cc
  place-braked (ok b) s h = subst (λ z. place z ≡ place s) (ok-injective h) refl

  place-scenario_overrides :
      (c : LocomotiveScenario) (s : LocomotiveState F) {s' : LocomotiveState F}
      → scenario_overrides c s ≡ ok s'
      → place s' ≡ place s
  place-scenario_overrides normal_scenario s h =
      subst (λ z. place z ≡ place s) (ok-injective h) refl
  place-scenario_overrides degradation_scenario s h =
      let (q, e, k) = >>=-eq-ok {A = F} (share s.scenario_tick 1200) _ h in
      subst (λ z. place z ≡ place s) (ok-injective k) refl
  place-scenario_overrides emergency_scenario s h = place-braked _ s h

  if_IsInSegment :
      (n : ℕ) (b : Bool) (x y : LocomotiveState F)
      → (b ≡ true → IsInSegment n x)
      → (b ≡ false → IsInSegment n y)
      → IsInSegment n (if b then x else y)
  if_IsInSegment n true x y h k = h refl
  if_IsInSegment n false x y h k = k refl

  pub place-segment_bound_hit :
      (a : OnArrival) (at_end : Bool) (s : LocomotiveState F)
      → place (segment_bound_hit a at_end s) ≡ place s
  place-segment_bound_hit loop at_end s = refl
  place-segment_bound_hit stop true s = refl
  place-segment_bound_hit stop false s = refl
  place-segment_bound_hit remove true s = refl
  place-segment_bound_hit remove false s = refl

  module _ (o : IsOrdered F) (l : IsRounded F) where
    -- The clamps of the source keep to a segment whatever they are given.
    pub clamped_place :
        (n : ℕ) (r : Route F) (start end distance : F)
        → zero_f ≼ start
        → start ≼ end
        → end ≼ r.length_m
        → r.length_m ≼ f.lit n 0
        → IsPlaced n (r, start, end, max start (min distance end))
    clamped_place n r start end distance h k m x =
        let (low, high) = clip_bounds o start end distance k in (h, low, high, m, x)

    pub lit_zero_le : (x : F) → zero_f ≼ x → f.lit 0 1 ≼ x
    lit_zero_le x h = rw (o.lit_zero 1) h

    -- A new locomotive.
    pub post_init-IsInSegment :
        (random : Random F) (n : ℕ) (s : LocomotiveState F)
        → IsFinite n s.route
        → IsInSegment n (post_init random s)
    unfolding post_init
    post_init-IsInSegment random n s (h, x) =
        let end =
          if f.le s.end_distance_m (f.lit 0 0) then s.route.length_m else s.end_distance_m in
        let (a, b) =
          clip_bounds o (f.lit 0 1) s.route.length_m s.start_distance_m
            (lit_zero_le s.route.length_m h) in
        let start = max (f.lit 0 1) (min s.start_distance_m s.route.length_m) in
        let (c, d) = clip_bounds o start s.route.length_m end b in
        clamped_place n s.route start (max start (min end s.route.length_m)) s.distance_m
          (o.le_trans zero_f (f.lit 0 1) start (zero-le o 0 1) a) c d x

    pub above : (a b : F) → b ≼ b → a ≼ a → f.le a b ≡ false → b ≼ a
    above a b h k e = elim (o.le_total b a h k) [
      | inl lt ↦ o.le_of_lt b a lt
      | inr le ↦ absurd (ground (arith, e, le))
    ]

    move_forward :
        (n : ℕ) (d : F) (s : LocomotiveState F)
        → zero_f ≼ d
        → IsInSegment n s
        → IsInSegment n (move true d s)
    move_forward n d s h (a, b, c, e, x) =
        let positive = o.le_trans zero_f s.start_distance_m s.distance_m a b in
        let (grown, _) = l.add_nonneg s.distance_m d positive h in
        let whole = o.le_trans s.start_distance_m s.distance_m s.end_distance_m b c in
        let at = (record s { distance_m = s.end_distance_m }) in
        if_IsInSegment n (f.le s.end_distance_m (f.add s.distance_m d))
          (segment_bound_hit s.on_arrival true at) (record s { distance_m = f.add s.distance_m d })
          (λ _.
            subst (IsPlaced n) (sym (place-segment_bound_hit s.on_arrival true at))
              (a, whole, (o.refl_of_le s.distance_m s.end_distance_m c).1, e, x))
          (λ k. (
            a,
            o.le_trans s.start_distance_m s.distance_m (f.add s.distance_m d) b grown,
            above s.end_distance_m (f.add s.distance_m d)
                (o.refl_of_le s.distance_m (f.add s.distance_m d) grown).1
                (o.refl_of_le s.distance_m s.end_distance_m c).1 k,
            e,
            x,
          ))

    move_back :
        (n : ℕ) (d : F) (s : LocomotiveState F)
        → n < 10 ^ 15
        → zero_f ≼ d
        → IsInSegment n s
        → IsInSegment n (move false d s)
    move_back n d s small h (a, b, c, e, x) =
        let below =
          o.le_trans s.distance_m s.end_distance_m (f.lit n 0) c
            (o.le_trans s.end_distance_m s.route.length_m (f.lit n 0) e x) in
        let fallen = l.sub_le s.distance_m d n 0 small below h in
        let whole = o.le_trans s.start_distance_m s.distance_m s.end_distance_m b c in
        let at = (record s { distance_m = s.start_distance_m }) in
        if_IsInSegment n (f.le (f.sub s.distance_m d) s.start_distance_m)
          (segment_bound_hit s.on_arrival false at) (record s { distance_m = f.sub s.distance_m d })
          (λ _.
            subst (IsPlaced n) (sym (place-segment_bound_hit s.on_arrival false at))
              (a, (o.refl_of_le s.start_distance_m s.distance_m b).0, whole, e, x))
          (λ k. (
            a,
            above (f.sub s.distance_m d) s.start_distance_m
                (o.refl_of_le s.start_distance_m s.distance_m b).0
                (o.refl_of_le (f.sub s.distance_m d) s.distance_m fallen).0 k,
            o.le_trans (f.sub s.distance_m d) s.distance_m s.end_distance_m fallen c,
            e,
            x,
          ))

    pub move-IsInSegment :
        (b : Bool) (n : ℕ) (d : F) (s : LocomotiveState F)
        → n < 10 ^ 15
        → zero_f ≼ d
        → IsInSegment n s
        → IsInSegment n (move b d s)
    move-IsInSegment true n d s k h i = move_forward n d s h i
    move-IsInSegment false n d s k h i = move_back n d s k h i

    -- Whatever every move of a locomotive keeps of its place is kept by a tick.
    module _ (Q : Place F → Type 0)
        (moved : (b : Bool) (d : F) (s : LocomotiveState F)
          → zero_f ≼ d
          → Q (place s)
          → Q (place (move b d s))) where
      update_gps_keeps :
          (s : LocomotiveState F) {s' : LocomotiveState F}
          → update_gps (f.lit 10 1) s ≡ ok s'
          → Q (place s)
          → Q (place s')
      unfolding update_gps
      update_gps_keeps s e h = elim (Bool-cases (f.lt (f.lit 0 0) s.speed)) [
        | inl moving ↦
            let (q, e1, e2) =
              >>=-eq-ok
                (or_raise zero_division (f.div (f.mul s.speed (f.lit 10000 1)) (f.lit 36000 1))) _
                (rw moving at e) in
            let metres =
              l.mul_lit_nonneg s.speed 10000 1 (omega arith) (omega arith) (omega arith)
                (o.le_of_lt zero_f s.speed moving) in
            let speed_ms =
              l.div_lit_nonneg (f.mul s.speed (f.lit 10000 1)) q 36000 1 (omega arith) (omega arith)
                (omega arith) metres (or_raise-eq-ok zero_division _ e1) in
            let delta =
              l.mul_lit_nonneg q 10 1 (omega arith) (omega arith) (omega arith) speed_ms in
            subst (λ z. Q (place z)) (ok-injective e2)
              (moved s.forward (f.mul q (f.lit 10 1)) s delta h)
        | inr still ↦ subst (λ z. Q (place z)) (ok-injective (rw still at e)) h
      ]

      pub tick_keeps :
          (random : Random F) (s : LocomotiveState F) {s' : LocomotiveState F}
          → Q (place s)
          → tick random (f.lit 10 1) s ≡ ok s'
          → Q (place s')
      unfolding tick apply_scenario
      tick_keeps random s h e =
          let s1 = transition random s in
          let (s2, e2, e3) = >>=-eq-ok (apply_scenario s1) _ e in
          let same : place s2 ≡ place s =
            place-scenario_overrides s1.scenario
              (record s1 { scenario_tick = suc s1.scenario_tick }) e2
            ∙ place-transition random s in
          update_gps_keeps s2 e3 (subst Q (sym same) h)

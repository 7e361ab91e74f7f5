-- ===== src/Simulator/Locomotive/OnRoute.antt =====
-- The position of a locomotive on its route, wherever its segment lies.
use hackathon_nu.Base.{ℕ, ◌<◌, ◌^◌, ◌≡◌, refl, sym, subst, Bool, true, false, if◌then◌else◌}
use hackathon_nu.Float.{Float, ◌≼◌, zero_f}
use hackathon_nu.Float.Laws.{IsOrdered, IsRounded}
use hackathon_nu.Simulator.Locomotive.{LocomotiveState, segment_bound_hit, move}
use hackathon_nu.Simulator.Locomotive.Segment.{
  Place, place, IsPlaced, place-segment_bound_hit, above,
}

module _ {F : Type 0} ⦃f : Float F⦄ where
  -- Start, end and distance are all from 0 to the length of the route.
  abbrev pub IsOnRoute : ℕ → Place F → Type 0
  IsOnRoute n (route, start, end, distance) =
      ((zero_f ≼ start) × (start ≼ route.length_m))
      × ((zero_f ≼ end) × (end ≼ route.length_m))
      × ((zero_f ≼ distance) × (distance ≼ route.length_m))
      × (route.length_m ≼ f.lit n 0)

  if_place_keeps :
      (Q : Place F → Type 0) (b : Bool) (x y : LocomotiveState F)
      → (b ≡ true → Q (place x))
      → (b ≡ false → Q (place y))
      → Q (place (if b then x else y))
  if_place_keeps Q true x y h k = h refl
  if_place_keeps Q false x y h k = k refl

  module _ (o : IsOrdered F) (l : IsRounded F) (n : ℕ) where
    pub IsPlaced-IsOnRoute : (p : Place F) → IsPlaced n p → IsOnRoute n p
    IsPlaced-IsOnRoute (route, start, end, distance) (a, b, c, e, x) =
        let positive = o.le_trans zero_f start distance a b in
        let below = o.le_trans distance end route.length_m c e in
        (
          (a, o.le_trans start distance route.length_m b below),
          (o.le_trans zero_f distance end positive c, e),
          (positive, below),
          x,
        )

    pub move-IsOnRoute :
        (b : Bool) (d : F) (s : LocomotiveState F)
        → n < 10 ^ 15
        → zero_f ≼ d
        → IsOnRoute n (place s)
        → IsOnRoute n (place (move b d s))
    move-IsOnRoute true d s small h (a, (e0, e1), (d0, d1), x) =
        let (grown, _) = l.add_nonneg s.distance_m d d0 h in
        let at = record s { distance_m = s.end_distance_m } in
        let there = f.add s.distance_m d in
        if_place_keeps (IsOnRoute n) (f.le s.end_distance_m there)
          (segment_bound_hit s.on_arrival true at) (record s { distance_m = there })
          (λ _.
            subst (IsOnRoute n) (sym (place-segment_bound_hit s.on_arrival true at))
              (a, (e0, e1), (e0, e1), x))
          (λ k.
            let below =
              above o l s.end_distance_m there (o.refl_of_le s.distance_m there grown).1
                (o.refl_of_le zero_f s.end_distance_m e0).1 k in
            (
              a,
              (e0, e1),
              (
                o.le_trans zero_f s.distance_m there d0 grown,
                o.le_trans there s.end_distance_m s.route.length_m below e1,
              ),
              x,
            ))
    move-IsOnRoute false d s small h ((s0, s1), e, (d0, d1), x) =
        let fallen =
          l.sub_le s.distance_m d n 0 small
            (o.le_trans s.distance_m s.route.length_m (f.lit n 0) d1 x) h in
        let at = record s { distance_m = s.start_distance_m } in
        let there = f.sub s.distance_m d in
        if_place_keeps (IsOnRoute n) (f.le there s.start_distance_m)
          (segment_bound_hit s.on_arrival false at) (record s { distance_m = there })
          (λ _.
            subst (IsOnRoute n) (sym (place-segment_bound_hit s.on_arrival false at))
              ((s0, s1), e, (s0, s1), x))
          (λ k.
            let over =
              above o l there s.start_distance_m (o.refl_of_le zero_f s.start_distance_m s0).1
                (o.refl_of_le there s.distance_m fallen).0 k in
            (
              (s0, s1),
              e,
              (
                o.le_trans zero_f s.start_distance_m there s0 over,
                o.le_trans there s.distance_m s.route.length_m fallen d1,
              ),
              x,
            ))

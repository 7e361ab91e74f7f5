-- ===== src/Simulator/Runner/Sound.antt =====
-- The edits of a locomotive's place: its route, the start and the end of its segment.
use hackathon_nu.Base.{
  ℕ, ◌≡◌, subst, Bool-cases, ◌⊎◌, inl, inr, Option, none, some, List, [], ◌∷◌, All, String,
  string_eq, nat_eq, ◌==◌,
}
use mathlib.Core.Option.{some-injective}
use hackathon_nu.Base.Results.{ok, ok-injective, >>=-eq-ok, or_raise-eq-ok}
use hackathon_nu.Float.{Float, ◌≼◌, zero_f}
use hackathon_nu.Float.Laws.{IsOrdered, IsRounded}
use hackathon_nu.Float.Order.{clip_bounds, zero-le, lit_refl}
use hackathon_nu.Simulator.Locomotive.{LocomotiveState, Route}
use hackathon_nu.Simulator.Locomotive.Segment.{
  IsFinite, Place, place, IsPlaced, IsInSegment, clamped_place, lit_zero_le,
}
use hackathon_nu.Simulator.Runner.{get_route, find_route}
use hackathon_nu.Simulator.Runner.Fleet.{Update, set_route, set_start, set_end, clamp_distance}

module _ {F : Type 0} ⦃f : Float F⦄ where
  abbrev pub AreFinite : ℕ → List (Route F) → Type 0
  AreFinite n routes = All (IsFinite n) routes

  -- An edit that moves the start also says where the end is.
  abbrev pub IsSafe : Update F → Type 0
  IsSafe u = (u.start_km ≡ none) ⊎ ((km : F) × (u.end_km ≡ some km))

  -- The edits of the place in an update keep `Q`.
  abbrev pub EditKeeps : (Place F → Type 0) → List (Route F) → Update F → Type 0
  EditKeeps Q routes u =
      (s routed : LocomotiveState F)
      → Q (place s)
      → set_route routes u.route_name s ≡ ok routed
      → Q (place (clamp_distance (set_end u.end_km (set_start u.start_km routed))))

  get_route-IsFinite :
      (n : ℕ) (name : String) (routes : List (Route F)) (r : Route F)
      → AreFinite n routes
      → get_route name routes ≡ some r
      → IsFinite n r
  unfolding get_route
  get_route-IsFinite n name [] r h e = cc
  get_route-IsFinite n name (x ∷ routes) r (h, hs) e = elim (Bool-cases (x.name == name)) [
    | inl same ↦ subst (IsFinite n) (some-injective x r (rw same at e)) h
    | inr other ↦ get_route-IsFinite n name routes r hs (rw other at e)
  ]

  pub find_route-IsFinite :
      (n : ℕ) (name : String) (routes : List (Route F)) (r : Route F)
      → AreFinite n routes
      → find_route name routes ≡ ok r
      → IsFinite n r
  find_route-IsFinite n name routes r h e =
      get_route-IsFinite n name routes r h (or_raise-eq-ok _ (get_route name routes) e)

  module _ (o : IsOrdered F) (l : IsRounded F) (n : ℕ) where
    set_route-IsPlaced :
        (routes : List (Route F)) (name : Option String) (s s' : LocomotiveState F)
        → AreFinite n routes
        → IsPlaced n (place s)
        → set_route routes name s ≡ ok s'
        → IsPlaced n (place s')
    set_route-IsPlaced routes none s s' h i e = subst (λ z. IsPlaced n (place z)) (ok-injective e) i
    set_route-IsPlaced routes (some name) s s' h i e =
        let (r, k, m) = >>=-eq-ok (find_route name routes) _ e in
        let (positive, bound) = find_route-IsFinite n name routes r h k in
        subst (λ z. IsPlaced n (place z)) (ok-injective m)
          (
            zero-le o 0 1,
            lit_refl o 0 1,
            lit_zero_le o l r.length_m positive,
            (o.refl_of_le r.length_m (f.lit n 0) bound).0,
            bound,
          )

    -- The segment that the clamp of the distance is given.
    abbrev IsSegment : LocomotiveState F → Type 0
    IsSegment s =
        (zero_f ≼ s.start_distance_m)
        × (s.start_distance_m ≼ s.end_distance_m)
        × (s.end_distance_m ≼ s.route.length_m)
        × (s.route.length_m ≼ f.lit n 0)

    clamp_distance-IsInSegment :
        (s : LocomotiveState F) → IsSegment s → IsInSegment n (clamp_distance s)
    clamp_distance-IsInSegment s (a, b, c, d) =
        clamped_place o l n s.route s.start_distance_m s.end_distance_m s.distance_m a b c d

    set_end-IsSegment :
        (km : F) (s : LocomotiveState F)
        → zero_f ≼ s.start_distance_m
        → s.start_distance_m ≼ s.route.length_m
        → s.route.length_m ≼ f.lit n 0
        → IsSegment (set_end (some km) s)
    set_end-IsSegment km s a b d =
        let (low, high) =
          clip_bounds o s.start_distance_m s.route.length_m (f.mul km (f.lit 10000 1)) b in
        (a, low, high, d)

    set_bounds-IsSegment :
        (start_km end_km : Option F) (s : LocomotiveState F)
        → (start_km ≡ none) ⊎ ((km : F) × (end_km ≡ some km))
        → IsInSegment n s
        → IsSegment (set_end end_km (set_start start_km s))
    set_bounds-IsSegment none none s safe (a, b, c, d, e) =
        (a, o.le_trans s.start_distance_m s.distance_m s.end_distance_m b c, d, e)
    set_bounds-IsSegment none (some km) s safe (a, b, c, d, e) =
        set_end-IsSegment km s a
          (o.le_trans s.start_distance_m s.end_distance_m s.route.length_m
            (o.le_trans s.start_distance_m s.distance_m s.end_distance_m b c) d)
          e
    set_bounds-IsSegment (some start) none s (inl h) i = cc
    set_bounds-IsSegment (some start) none s (inr (km, h)) i = cc
    set_bounds-IsSegment (some start) (some km) s safe (a, b, c, d, e) =
        let positive =
          o.le_trans zero_f s.end_distance_m s.route.length_m
            (o.le_trans zero_f s.distance_m s.end_distance_m
              (o.le_trans zero_f s.start_distance_m s.distance_m a b) c)
            d in
        let (low, high) =
          clip_bounds o (f.lit 0 1) s.route.length_m (f.mul start (f.lit 10000 1))
            (lit_zero_le o l s.route.length_m positive) in
        let moved = set_start (some start) s in
        set_end-IsSegment km moved
          (o.le_trans zero_f (f.lit 0 1) moved.start_distance_m (zero-le o 0 1) low) high e

    -- Safe edits keep the segment.
    pub edit-IsPlaced :
        (routes : List (Route F)) (u : Update F)
        → AreFinite n routes
        → IsSafe u
        → EditKeeps (IsPlaced n) routes u
    edit-IsPlaced routes u h safe s routed i e =
        let inside = set_route-IsPlaced routes u.route_name s routed h i e in
        let bounded = set_end u.end_km (set_start u.start_km routed) in
        clamp_distance-IsInSegment bounded
          (set_bounds-IsSegment u.start_km u.end_km routed safe inside)

-- ===== src/Simulator/Runner/OnRoute.antt =====
-- Any edit leaves a locomotive on its route.
use hackathon_nu.Base.{ℕ, ◌≡◌, subst, Bool-cases, inl, inr, Option, none, some, List, String}
use hackathon_nu.Base.Results.{ok, ok-injective, >>=-eq-ok}
use hackathon_nu.Float.{Float, ◌≼◌, zero_f, max, min}
use hackathon_nu.Float.Laws.{IsOrdered, IsRounded}
use hackathon_nu.Float.Order.{clip_bounds, zero-le}
use hackathon_nu.Simulator.Locomotive.{LocomotiveState, Route}
use hackathon_nu.Simulator.Locomotive.Segment.{place, lit_zero_le}
use hackathon_nu.Simulator.Locomotive.OnRoute.{IsOnRoute}
use hackathon_nu.Simulator.Runner.{find_route}
use hackathon_nu.Simulator.Runner.Fleet.{Update, set_route, set_start, set_end, clamp_distance}
use hackathon_nu.Simulator.Runner.Sound.{AreFinite, EditKeeps, find_route-IsFinite}

module _ {F : Type 0} ⦃f : Float F⦄ where
  max_keeps : (P : F → Type 0) (a b : F) → P a → P b → P (max a b)
  max_keeps P a b h k = elim (Bool-cases (f.lt a b)) [ inl e ↦ rw e k | inr e ↦ rw e h ]

  min_keeps : (P : F → Type 0) (a b : F) → P a → P b → P (min a b)
  min_keeps P a b h k = elim (Bool-cases (f.lt b a)) [ inl e ↦ rw e k | inr e ↦ rw e h ]

  module _ (o : IsOrdered F) (l : IsRounded F) (n : ℕ) where
    set_route-IsOnRoute :
        (routes : List (Route F)) (name : Option String) (s s' : LocomotiveState F)
        → AreFinite n routes
        → IsOnRoute n (place s)
        → set_route routes name s ≡ ok s'
        → IsOnRoute n (place s')
    set_route-IsOnRoute routes none s s' h i e =
        subst (λ z. IsOnRoute n (place z)) (ok-injective e) i
    set_route-IsOnRoute routes (some name) s s' h i e =
        let (r, k, m) = >>=-eq-ok (find_route name routes) _ e in
        let (positive, bound) = find_route-IsFinite n name routes r h k in
        let low = lit_zero_le o l r.length_m positive in
        subst (λ z. IsOnRoute n (place z)) (ok-injective m)
          (
            (zero-le o 0 1, low),
            (positive, (o.refl_of_le r.length_m (f.lit n 0) bound).0),
            (zero-le o 0 1, low),
            bound,
          )

    set_start-IsOnRoute :
        (km : Option F) (s : LocomotiveState F)
        → IsOnRoute n (place s)
        → IsOnRoute n (place (set_start km s))
    set_start-IsOnRoute none s i = i
    set_start-IsOnRoute (some km) s ((a, b), e, d, x) =
        let positive = o.le_trans zero_f s.start_distance_m s.route.length_m a b in
        let (low, high) =
          clip_bounds o (f.lit 0 1) s.route.length_m (f.mul km (f.lit 10000 1))
            (lit_zero_le o l s.route.length_m positive) in
        ((o.le_trans zero_f (f.lit 0 1) _ (zero-le o 0 1) low, high), e, d, x)

    set_end-IsOnRoute :
        (km : Option F) (s : LocomotiveState F)
        → IsOnRoute n (place s)
        → IsOnRoute n (place (set_end km s))
    set_end-IsOnRoute none s i = i
    set_end-IsOnRoute (some km) s ((a, b), e, d, x) =
        let (low, high) =
          clip_bounds o s.start_distance_m s.route.length_m (f.mul km (f.lit 10000 1)) b in
        ((a, b), (o.le_trans zero_f s.start_distance_m _ a low, high), d, x)

    clamp_distance-IsOnRoute :
        (s : LocomotiveState F) → IsOnRoute n (place s) → IsOnRoute n (place (clamp_distance s))
    clamp_distance-IsOnRoute s (a, e, d, x) =
        let P : F → Type 0 = λ v. (zero_f ≼ v) × (v ≼ s.route.length_m) in
        let near = min_keeps P s.distance_m s.end_distance_m d e in
        (a, e, max_keeps P s.start_distance_m (min s.distance_m s.end_distance_m) a near, x)

    pub edit-IsOnRoute :
        (routes : List (Route F)) (u : Update F)
        → AreFinite n routes
        → EditKeeps (IsOnRoute n) routes u
    edit-IsOnRoute routes u h s routed i e =
        let on = set_route-IsOnRoute routes u.route_name s routed h i e in
        let started = set_start u.start_km routed in
        clamp_distance-IsOnRoute (set_end u.end_km started)
          (set_end-IsOnRoute u.end_km started (set_start-IsOnRoute u.start_km routed on))

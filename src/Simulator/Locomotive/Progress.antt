-- ===== src/Simulator/Locomotive/Progress.antt =====
-- services/simulator/simulator/models/locomotive_state.py: how far a locomotive has come.
use hackathon_nu.Base.{◌≡◌, arith, Bool-cases, inl, inr, if◌then◌else◌}
use hackathon_nu.Base.Results.{Result, ok, zero_division, or_raise, ◌>>=◌}
use hackathon_nu.Float.{Float, ◌≼◌, max, min}
use hackathon_nu.Float.Laws.{IsOrdered, IsRounded}
use hackathon_nu.Float.Order.{div_total, clamp_bounds, lit_refl}
use hackathon_nu.Simulator.Locomotive.{LocomotiveState}

module _ {F : Type 0} ⦃f : Float F⦄ where
  -- max(0.0, min(1.0, done / whole)), and 0.0 where there is no way to go
  abbrev pub share_done : F → F → Result F
  share_done done whole = if f.le whole (f.lit 0 0) then ok (f.lit 0 1) else (do
    share ← or_raise zero_division (f.div done whole)
    ok (max (f.lit 0 1) (min (f.lit 10 1) share)))

  unfoldable pub route_progress : LocomotiveState F → Result F
  route_progress s = share_done s.distance_m s.route.length_m

  unfoldable pub segment_progress : LocomotiveState F → Result F
  segment_progress s =
      share_done (f.sub s.distance_m s.start_distance_m) (f.sub s.end_distance_m s.start_distance_m)

  -- A number from 0 to 1.
  abbrev pub IsShare : Result F → Type 0
  IsShare r = (p : F) × (r ≡ ok p) × (f.lit 0 1 ≼ p) × (p ≼ f.lit 10 1)

  module _ (o : IsOrdered F) (l : IsRounded F) where
    share_done-IsShare : (done whole : F) → IsShare (share_done done whole)
    share_done-IsShare done whole = elim (Bool-cases (f.le whole (f.lit 0 0))) [
      | inl e ↦ (f.lit 0 1, rw e, lit_refl o 0 1, o.lit_le 0 10 1 (omega arith))
      | inr e ↦
          let (q, k) = div_total o l done whole (λ h. ground (arith, e, h)) in
          let (low, high) =
            clamp_bounds o (f.lit 0 1) (f.lit 10 1) q (o.lit_le 0 10 1 (omega arith)) in
          (max (f.lit 0 1) (min (f.lit 10 1) q), rw (e, k), low, high)
    ]

    -- The progress along the route and the progress within the segment never raise and are numbers
    -- from 0 to 1, wherever the locomotive is, a route or a segment without length included. The
    -- float arithmetic obeys `IsOrdered` and `IsRounded`.
    pub segment_progress-IsShare :
        (s : LocomotiveState F) → IsShare (route_progress s) × IsShare (segment_progress s)
    unfolding route_progress segment_progress
    segment_progress-IsShare s = (
      share_done-IsShare s.distance_m s.route.length_m,
      share_done-IsShare (f.sub s.distance_m s.start_distance_m)
          (f.sub s.end_distance_m s.start_distance_m),
    )

-- ===== src/Simulator/Runner/Edits.antt =====
-- The fleet stays sound while operators edit it.
use hackathon_nu.Base.{
  ℕ, ◌≤◌, ◌≡◌, ◌∙◌, if◌then◌else◌, sym, subst, arith, Bool, true, false, not, Option, none, some,
  List, String, string_eq, nat_eq,
}
use hackathon_nu.Base.Dict.{get, has, put, pop, All-put, All-get, All-pop}
use hackathon_nu.Base.Results.{
  Error, value_error, key_error, ok, err, ok-injective, >>=-eq-ok, or_raise-eq-ok,
}
use hackathon_nu.Float.{Float, max, min}
use hackathon_nu.Float.Laws.{IsOrdered, IsRounded}
use hackathon_nu.Simulator.Locomotive.{LocomotiveState, Route, Random, post_init}
use hackathon_nu.Simulator.Locomotive.Segment.{
  IsFinite, Place, place, IsPlaced, post_init-IsInSegment,
}
use hackathon_nu.Simulator.Runner.{Runner, find_route, get_locomotive, remove_locomotive}
use hackathon_nu.Simulator.Runner.Fleet.{
  NewLocomotive, Update, kilometres, end_or, new_state, with_defaults, add_locomotive, set_route,
  set_start, set_end, clamp_distance, update_state, update_locomotive, set_mode, set_scenario,
  set_on_arrival, set_auto_mode, set_speed, set_name,
}
use hackathon_nu.Simulator.Runner.Keeps.{
  Keeps, Keeps-trans, set_mode-Keeps, set_scenario-Keeps, set_on_arrival-Keeps, set_auto_mode-Keeps,
  set_speed-Keeps, set_name-Keeps, set_start_notch, set_end_notch,
}
use hackathon_nu.Simulator.Runner.Rounds.{IsSound, IsHealthy}
use hackathon_nu.Simulator.Runner.Sound.{AreFinite, EditKeeps, find_route-IsFinite}

module _ {F : Type 0} ⦃f : Float F⦄ where
  set_route_notch :
      (routes : List (Route F)) (name : Option String) (s s' : LocomotiveState F)
      → s.notch ≤ 8
      → set_route routes name s ≡ ok s'
      → s'.notch ≤ 8
  set_route_notch routes none s s' h e =
      subst (λ (z : LocomotiveState F). z.notch ≤ 8) (ok-injective e) h
  set_route_notch routes (some name) s s' h e =
      let (r, k, m) = >>=-eq-ok (find_route name routes) _ e in
      subst (λ (z : LocomotiveState F). z.notch ≤ 8) (ok-injective m) h

  -- `Q` holds wherever a new locomotive is placed.
  module _ (o : IsOrdered F) (l : IsRounded F) (n : ℕ) (Q : Place F → Type 0)
      (fresh : (p : Place F) → IsPlaced n p → Q p) where
    IsSound-Keeps : (s s' : LocomotiveState F) → Keeps s s' → IsSound Q s → IsSound Q s'
    IsSound-Keeps s s' (h, k) (i, j) = (rw h i, subst Q (sym k) j)

    update_state-IsSound :
        (routes : List (Route F)) (u : Update F) (s s' : LocomotiveState F)
        → EditKeeps Q routes u
        → IsSound Q s
        → update_state routes u s ≡ ok s'
        → IsSound Q s'
    unfolding update_state
    update_state-IsSound routes u s s' edits (low, i) e =
        let (routed, e1, e2) = >>=-eq-ok (set_route routes u.route_name s) _ e in
        let notch = set_route_notch routes u.route_name s routed low e1 in
        let bounded = set_end u.end_km (set_start u.start_km routed) in
        let placed = clamp_distance bounded in
        let in_place = edits s routed i e1 in
        let kept_notch : placed.notch ≡ routed.notch =
          set_end_notch u.end_km (set_start u.start_km routed)
          ∙ set_start_notch u.start_km routed in
        let moded = set_mode u.mode placed in
        let scened = set_scenario u.scenario moded in
        let arriving = set_on_arrival u.on_arrival scened in
        let auto = set_auto_mode u.auto_mode arriving in
        let fast = set_speed u.speed_kmh auto in
        let named = set_name u.name fast in
        let chain =
          Keeps-trans placed fast named
            (Keeps-trans placed auto fast
              (Keeps-trans placed arriving auto
                (Keeps-trans placed scened arriving
                  (Keeps-trans placed moded scened (set_mode-Keeps u.mode placed)
                    (set_scenario-Keeps u.scenario moded))
                  (set_on_arrival-Keeps u.on_arrival scened))
                (set_auto_mode-Keeps u.auto_mode arriving))
              (set_speed-Keeps u.speed_kmh auto))
            (set_name-Keeps u.name fast) in
        let sound : IsSound Q named =
          IsSound-Keeps placed named chain (rw kept_notch notch, in_place) in
        subst (IsSound Q) (ok-injective e2) sound

    pub update_locomotive-IsHealthy :
        (routes : List (Route F)) (loco_id : ℕ) (u : Update F) (r r' : Runner F)
        → EditKeeps Q routes u
        → IsHealthy Q r
        → update_locomotive routes loco_id u r ≡ ok r'
        → IsHealthy Q r'
    unfolding update_locomotive get_locomotive
    update_locomotive-IsHealthy routes loco_id u r r' edits (sound, bound) e =
        let (s, e1, e2) = >>=-eq-ok (get_locomotive loco_id r) _ e in
        let (updated, e3, e4) = >>=-eq-ok (update_state routes u s) _ e2 in
        let old =
          All-get (IsSound Q) loco_id s r.fleet sound (or_raise-eq-ok _ (get loco_id r.fleet) e1) in
        subst (IsHealthy Q) (ok-injective e4) (
          All-put (IsSound Q) loco_id updated r.fleet
              (update_state-IsSound routes u s updated edits old e3) sound,
          bound,
        )

    new_state-IsSound :
        (random : Random F) (route : Route F) (loco : NewLocomotive F) (start_m end_m : F)
        → IsFinite n route
        → IsSound Q (new_state random route loco start_m end_m)
    unfolding new_state post_init
    new_state-IsSound random route loco start_m end_m h = (
      omega arith,
      fresh (place (post_init random (with_defaults route loco start_m end_m)))
          (post_init-IsInSegment o l random n (with_defaults route loco start_m end_m) h),
    )

    unless_known :
        (error : Error) (known : Bool) (r r' : Runner F)
        → (if known then err error else ok r) ≡ ok r'
        → IsHealthy Q r
        → IsHealthy Q r'
    unless_known error true r r' e h = cc
    unless_known error false r r' e h = subst (IsHealthy Q) (ok-injective e) h

    pub add_locomotive-IsHealthy :
        (routes : List (Route F)) (random : Random F) (loco : NewLocomotive F) (r r' : Runner F)
        → AreFinite n routes
        → IsHealthy Q r
        → add_locomotive routes random loco r ≡ ok r'
        → IsHealthy Q r'
    unfolding add_locomotive new_state
    add_locomotive-IsHealthy routes random loco r r' h (sound, bound) e =
        let (route, e1, e2) = >>=-eq-ok (find_route loco.route_name routes) _ e in
        let (length_km, e3, e4) = >>=-eq-ok (kilometres route.length_m) _ e2 in
        let start_m = f.mul (max (f.lit 0 1) (min loco.start_km length_km)) (f.lit 10000 1) in
        let (start_km, e5, e6) = >>=-eq-ok (kilometres start_m) _ e4 in
        let end_m =
          f.mul (max start_km (min (end_or length_km loco.end_km) length_km)) (f.lit 10000 1) in
        let created = new_state random route loco start_m end_m in
        let finite = find_route-IsFinite n loco.route_name routes route h e1 in
        unless_known value_error (has loco.loco_id r.fleet)
          (record r { fleet = put loco.loco_id created r.fleet }) r' e6
          (
            All-put (IsSound Q) loco.loco_id created r.fleet
                (new_state-IsSound random route loco start_m end_m finite) sound,
            bound,
          )

    pub remove_locomotive-IsHealthy :
        (loco_id : ℕ) (r r' : Runner F)
        → IsHealthy Q r
        → remove_locomotive loco_id r ≡ ok r'
        → IsHealthy Q r'
    unfolding remove_locomotive
    remove_locomotive-IsHealthy loco_id r r' (sound, bound) e =
        unless_known key_error (not (has loco_id r.fleet))
          (record r { fleet = pop loco_id r.fleet }) r' e
          (All-pop (IsSound Q) loco_id r.fleet sound, bound)

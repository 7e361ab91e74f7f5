-- ===== src/Simulator/Runner/Fleet.antt =====
-- runner.py: `add_locomotive` and `update_locomotive`. An object of the fleet is updated in place, so
-- the new one takes its entry. An unknown route raises before anything is written.
use hackathon_nu.Base.{
  ℕ, Bool, true, false, Option, none, some, List, String, nat_eq, string_eq, if◌then◌else◌,
}
use hackathon_nu.Base.Dict.{put, has}
use hackathon_nu.Base.Results.{Result, ok, err, zero_division, value_error, or_raise, ◌>>=◌}
use hackathon_nu.Float.{Float, max, min}
use hackathon_nu.Shared.Enums.{LocomotiveType}
use hackathon_nu.Simulator.Locomotive.{
  LocomotiveState, LocomotiveMode, LocomotiveScenario, normal_scenario, degradation_scenario,
  emergency_scenario, OnArrival, Route, Random, post_init, with_pose,
}
use hackathon_nu.Simulator.Runner.{Runner, find_route, get_locomotive}

-- The keyword arguments of `add_locomotive`.
pub record NewLocomotive (F : Type 0) : Type 0 where
  pub loco_id : ℕ
  pub loco_type : LocomotiveType
  pub route_name : String
  pub name : String
  pub start_km : F
  pub end_km : Option F
  pub mode : LocomotiveMode
  pub scenario : LocomotiveScenario
  pub on_arrival : OnArrival
  pub auto_mode : Bool
  pub initial_speed_kmh : F

-- The keyword arguments of `update_locomotive`.
pub record Update (F : Type 0) : Type 0 where
  pub route_name : Option String
  pub start_km : Option F
  pub end_km : Option F
  pub mode : Option LocomotiveMode
  pub scenario : Option LocomotiveScenario
  pub on_arrival : Option OnArrival
  pub auto_mode : Option Bool
  pub speed_kmh : Option F
  pub name : Option String

abbrev pub scenario_beq : LocomotiveScenario → LocomotiveScenario → Bool
scenario_beq normal_scenario normal_scenario = true
scenario_beq degradation_scenario degradation_scenario = true
scenario_beq emergency_scenario emergency_scenario = true
scenario_beq _ _ = false

module _ {F : Type 0} where
  -- The parts of `update_locomotive`, one for each keyword.
  abbrev pub set_mode : Option LocomotiveMode → LocomotiveState F → LocomotiveState F
  set_mode none s = s
  set_mode (some mode) s = record s { mode = mode; mode_ticks = 0 }

  abbrev pub cleared : LocomotiveScenario → LocomotiveState F → LocomotiveState F
  cleared normal_scenario s = record s { igbt_override = none; brake_override = none }
  cleared _ s = s

  abbrev pub set_scenario : Option LocomotiveScenario → LocomotiveState F → LocomotiveState F
  set_scenario none s = s
  set_scenario (some scenario) s =
      if scenario_beq scenario s.scenario
      then s
      else cleared scenario (record s { scenario = scenario; scenario_tick = 0 })

  abbrev pub set_on_arrival : Option OnArrival → LocomotiveState F → LocomotiveState F
  set_on_arrival none s = s
  set_on_arrival (some on_arrival) s = record s { on_arrival = on_arrival }

  abbrev pub set_auto_mode : Option Bool → LocomotiveState F → LocomotiveState F
  set_auto_mode none s = s
  set_auto_mode (some auto_mode) s = record s { auto_mode = auto_mode }

  abbrev pub set_name : Option String → LocomotiveState F → LocomotiveState F
  set_name none s = s
  set_name (some name) s = record s { name = name }

module _ {F : Type 0} ⦃f : Float F⦄ where
  -- a / 1000.0
  abbrev pub kilometres : F → Result F
  kilometres a = or_raise zero_division (f.div a (f.lit 10000 1))

  abbrev pub end_or : F → Option F → F
  end_or d none = d
  end_or d (some km) = km

  -- The LocomotiveState with the defaults of its other fields.
  abbrev pub with_defaults : Route F → NewLocomotive F → F → F → LocomotiveState F
  with_defaults route l start_m end_m = record {
    id = l.loco_id;
    name = l.name;
    loco_type = l.loco_type;
    route = route;
    mode = l.mode;
    scenario = l.scenario;
    auto_mode = l.auto_mode;
    speed = l.initial_speed_kmh;
    notch = 0;
    fuel_level = f.lit 900 1;
    distance_m = start_m;
    start_distance_m = start_m;
    end_distance_m = end_m;
    on_arrival = l.on_arrival;
    arrived = false;
    lat = f.lit 0 1;
    lon = f.lit 0 1;
    bearing_deg = f.lit 0 1;
    coolant_temp = f.lit 720 1;
    traction_motor_temp = f.lit 400 1;
    igbt_temp = f.lit 350 1;
    transformer_temp = f.lit 450 1;
    mode_ticks = 0;
    mode_duration = 0;
    igbt_override = none;
    brake_override = none;
    scenario_tick = 0;
    forward = true;
  }

  unfoldable pub new_state : Random F → Route F → NewLocomotive F → F → F → LocomotiveState F
  new_state random route l start_m end_m = post_init random (with_defaults route l start_m end_m)

  unfoldable pub add_locomotive :
      List (Route F) → Random F → NewLocomotive F → Runner F → Result (Runner F)
  unfolding new_state
  add_locomotive routes random l r = do
    route ← find_route l.route_name routes
    length_km ← kilometres route.length_m
    let start_m = f.mul (max (f.lit 0 1) (min l.start_km length_km)) (f.lit 10000 1)
    start_km ← kilometres start_m
    let end_m = f.mul (max start_km (min (end_or length_km l.end_km) length_km)) (f.lit 10000 1)
    (if has l.loco_id r.fleet
        then err value_error
        else ok
            (record r { fleet = put l.loco_id (new_state random route l start_m end_m) r.fleet }))

  abbrev pub set_route :
      List (Route F) → Option String → LocomotiveState F → Result (LocomotiveState F)
  set_route routes none s = ok s
  set_route routes (some name) s = do
    route ← find_route name routes
    ok (record s {
      route = route;
      start_distance_m = f.lit 0 1;
      end_distance_m = route.length_m;
      distance_m = f.lit 0 1;
    })

  abbrev pub set_start : Option F → LocomotiveState F → LocomotiveState F
  set_start none s = s
  set_start (some km) s = record s {
    start_distance_m = max (f.lit 0 1) (min (f.mul km (f.lit 10000 1)) s.route.length_m);
  }

  abbrev pub set_end : Option F → LocomotiveState F → LocomotiveState F
  set_end none s = s
  set_end (some km) s = record s {
    end_distance_m = max s.start_distance_m (min (f.mul km (f.lit 10000 1)) s.route.length_m);
  }

  abbrev pub clamp_distance : LocomotiveState F → LocomotiveState F
  clamp_distance s = record s {
    distance_m = max s.start_distance_m (min s.distance_m s.end_distance_m);
  }

  abbrev pub set_speed : Option F → LocomotiveState F → LocomotiveState F
  set_speed none s = s
  set_speed (some speed) s = record s { speed = max (f.lit 0 1) speed }

  unfoldable pub update_state :
      List (Route F) → Update F → LocomotiveState F → Result (LocomotiveState F)
  update_state routes u s = do
    routed ← set_route routes u.route_name s
    let placed = clamp_distance (set_end u.end_km (set_start u.start_km routed))
    let moded = set_on_arrival u.on_arrival (set_scenario u.scenario (set_mode u.mode placed))
    ok (with_pose (set_name u.name (set_speed u.speed_kmh (set_auto_mode u.auto_mode moded))))

  unfoldable pub update_locomotive : List (Route F) → ℕ → Update F → Runner F → Result (Runner F)
  unfolding get_locomotive update_state
  update_locomotive routes loco_id u r = do
    s ← get_locomotive loco_id r
    updated ← update_state routes u s
    ok (record r { fleet = put loco_id updated r.fleet })

-- ===== src/Simulator/Locomotive.antt =====
-- services/simulator/simulator/models/locomotive_state.py: the state of a locomotive, its modes and
-- its way along the route. The results of `random` in one tick are a parameter, and a route is its
-- name and its length with its `position_at`.
pub mod Notch
pub mod Segment
pub mod OnRoute
pub mod Progress
use Prim.Native.Nat.{◌%◌, min as min_nat}
use hackathon_nu.Base.{
  ℕ, suc, ◌+◌, ◌-◌, Bool, true, false, not, ◌&&◌, Option, none, some, String, ltb, leb, nat_beq,
  if◌then◌else◌,
}
use hackathon_nu.Base.Results.{Result, ok, err, Error, zero_division, or_raise, ◌>>=◌}
use hackathon_nu.Float.{Float, max, min}
use hackathon_nu.Shared.Enums.{LocomotiveType, te33a, kz8a}

pub data LocomotiveMode : Type 0 where
  depot departure cruising arrival aess_sleep emergency recovery : LocomotiveMode

pub data LocomotiveScenario : Type 0 where
  normal_scenario degradation_scenario emergency_scenario : LocomotiveScenario

pub data OnArrival : Type 0 where
  loop stop remove : OnArrival

-- MODE_DURATIONS
unfoldable pub mode_durations : LocomotiveMode → ℕ × ℕ
mode_durations depot = (600, 7200)
mode_durations departure = (180, 600)
mode_durations cruising = (1800, 10800)
mode_durations arrival = (180, 600)
mode_durations aess_sleep = (300, 1800)
mode_durations emergency = (60, 300)
mode_durations recovery = (300, 900)

pub record Route (F : Type 0) : Type 0 where
  pub name : String
  pub length_m : F
  pub position_at : F → F × F × F

-- randint in the bounds of a mode, choice([5, 6, 7]), gauss(0, 1)
pub record Random (F : Type 0) : Type 0 where
  pub randint : ℕ × ℕ → ℕ
  pub choice : ℕ
  pub gauss : F

pub record LocomotiveState (F : Type 0) : Type 0 where
  pub id : ℕ
  pub name : String
  pub loco_type : LocomotiveType
  pub route : Route F
  pub mode : LocomotiveMode
  pub scenario : LocomotiveScenario
  pub auto_mode : Bool
  pub speed : F
  pub notch : ℕ
  pub fuel_level : F
  pub distance_m : F
  pub start_distance_m : F
  pub end_distance_m : F
  pub on_arrival : OnArrival
  pub arrived : Bool
  pub lat : F
  pub lon : F
  pub bearing_deg : F
  pub coolant_temp : F
  pub traction_motor_temp : F
  pub igbt_temp : F
  pub transformer_temp : F
  pub mode_ticks : ℕ
  pub mode_duration : ℕ
  pub igbt_override : Option F
  pub brake_override : Option F
  pub scenario_tick : ℕ
  pub forward : Bool

-- The steps of the notch, which only a TE33A has.
abbrev pub departure_notch : LocomotiveType → ℕ → ℕ → ℕ
departure_notch kz8a ticks notch = notch
departure_notch te33a ticks notch =
    let target = min_nat 8 (notch + 1) in
    if nat_beq (ticks % 20) 0 && ltb notch target then target else notch

abbrev pub cruising_notch : LocomotiveType → ℕ → ℕ → ℕ
cruising_notch kz8a choice notch = notch
cruising_notch te33a choice notch = choice

abbrev pub arrival_notch : LocomotiveType → ℕ → ℕ
arrival_notch kz8a notch = notch
arrival_notch te33a notch = notch - 1

abbrev pub recovery_notch : LocomotiveType → ℕ → ℕ → ℕ
recovery_notch kz8a ticks notch = notch
recovery_notch te33a ticks notch = min_nat 4 (notch + (if nat_beq (ticks % 30) 0 then 1 else 0))

module _ {F : Type 0} where
  -- state.lat, state.lon, state.bearing_deg = state.route.position_at(state.distance_m)
  abbrev pub with_pose : LocomotiveState F → LocomotiveState F
  with_pose s =
      let pose = s.route.position_at s.distance_m in
      record s { lat = pose.0; lon = pose.1; bearing_deg = pose.2 }

  unfoldable pub enter_mode : Random F → LocomotiveMode → LocomotiveState F → LocomotiveState F
  enter_mode random mode s = record s {
    mode = mode;
    mode_ticks = 0;
    mode_duration = random.randint (mode_durations mode);
  }

  -- `if state.mode_ticks >= state.mode_duration: _enter_mode(...)`
  abbrev pub when_over : Random F → LocomotiveMode → LocomotiveState F → LocomotiveState F
  when_over random mode s = if leb s.mode_duration s.mode_ticks then enter_mode random mode s else s

module _ {F : Type 0} ⦃f : Float F⦄ where
  unfoldable pub post_init : Random F → LocomotiveState F → LocomotiveState F
  post_init random s =
      let duration =
        if nat_beq s.mode_duration 0
        then random.randint (mode_durations s.mode)
        else s.mode_duration in
      let end0 = if f.le s.end_distance_m (f.lit 0 0) then s.route.length_m else s.end_distance_m in
      let start = max (f.lit 0 1) (min s.start_distance_m s.route.length_m) in
      let end1 = max start (min end0 s.route.length_m) in
      with_pose (record s {
        mode_duration = duration;
        start_distance_m = start;
        end_distance_m = end1;
        distance_m = max start (min s.distance_m end1);
      })

  -- The end of an arrival.
  abbrev pub when_arrived : Random F → LocomotiveState F → LocomotiveState F
  when_arrived random s =
      if leb s.mode_duration s.mode_ticks
      then enter_mode random depot
          (record s { speed = f.lit 0 1; notch = 0; forward = not s.forward })
      else s

  -- The match of `_transition`, once `mode_ticks` has been increased.
  abbrev pub advance : Random F → LocomotiveMode → LocomotiveState F → LocomotiveState F
  advance random depot s = when_over random departure s
  advance random departure s = when_over random cruising (record s {
    notch = departure_notch s.loco_type s.mode_ticks s.notch;
    speed = min (f.lit 1000 1) (f.add s.speed (f.lit 5 1));
  })
  advance random cruising s = when_over random arrival (record s {
    notch = cruising_notch s.loco_type random.choice s.notch;
    speed = max (f.lit 500 1) (min (f.lit 1100 1) (f.add s.speed random.gauss));
  })
  advance random arrival s = when_arrived random (record s {
    notch = arrival_notch s.loco_type s.notch;
    speed = max (f.lit 0 1) (f.sub s.speed (f.lit 8 1));
  })
  advance random aess_sleep s =
      when_over random departure (record s { speed = f.lit 0 1; notch = 0 })
  advance random emergency s =
      when_over random recovery (record s { speed = max (f.lit 0 1) (f.sub s.speed (f.lit 20 1)) })
  advance random recovery s = when_over random cruising (record s {
    speed = min (f.lit 600 1) (f.add s.speed (f.lit 3 1));
    notch = recovery_notch s.loco_type s.mode_ticks s.notch;
  })

  unfoldable pub transition : Random F → LocomotiveState F → LocomotiveState F
  unfolding enter_mode
  transition random s =
      if not s.auto_mode
      then s
      else advance random s.mode (record s { mode_ticks = suc s.mode_ticks })

  -- scenario_tick / duration
  abbrev pub share : ℕ → ℕ → Result F
  share ticks duration = or_raise zero_division (f.div (f.lit ticks 0) (f.lit duration 0))

  abbrev pub heated : F → LocomotiveState F → LocomotiveState F
  heated progress s = record s {
    igbt_override = some (f.add (f.lit 570 1) (f.mul (f.sub (f.lit 870 1) (f.lit 570 1)) progress));
    brake_override = none;
  }

  abbrev pub braked : F → LocomotiveState F → LocomotiveState F
  braked brake s = record s {
    brake_override = some brake;
    mode = emergency;
    speed = max (f.lit 0 1) (f.sub s.speed (f.lit 20 1));
    igbt_override = none;
  }

  abbrev pub scenario_overrides :
      LocomotiveScenario → LocomotiveState F → Result (LocomotiveState F)
  scenario_overrides normal_scenario s =
      ok (record s { igbt_override = none; brake_override = none })
  scenario_overrides degradation_scenario s = do
    ratio ← share s.scenario_tick 1200
    let progress = min (f.lit 10 1) ratio
    ok (heated progress s)
  scenario_overrides emergency_scenario s = do
    brake ←
        (if leb s.scenario_tick 10
          then share s.scenario_tick 10 >>= (λ progress.
            ok (f.add (f.lit 51 1) (f.mul (f.sub (f.lit 18 1) (f.lit 51 1)) progress)))
          else ok (f.lit 18 1))
    ok (braked brake s)

  unfoldable pub apply_scenario : LocomotiveState F → Result (LocomotiveState F)
  apply_scenario s =
      scenario_overrides s.scenario (record s { scenario_tick = suc s.scenario_tick })

  abbrev pub segment_bound_hit : OnArrival → Bool → LocomotiveState F → LocomotiveState F
  segment_bound_hit loop at_end s = record s { forward = not s.forward }
  segment_bound_hit stop true s = record s {
    speed = f.lit 0 1;
    mode = depot;
    auto_mode = false;
    arrived = true;
  }
  segment_bound_hit remove true s = record s { speed = f.lit 0 1; arrived = true }
  segment_bound_hit _ false s = record s { speed = f.lit 0 1; forward = true }

  abbrev pub move : Bool → F → LocomotiveState F → LocomotiveState F
  move true delta_m s =
      let distance = f.add s.distance_m delta_m in
      if f.le s.end_distance_m distance
      then segment_bound_hit s.on_arrival true (record s { distance_m = s.end_distance_m })
      else record s { distance_m = distance }
  move false delta_m s =
      let distance = f.sub s.distance_m delta_m in
      if f.le distance s.start_distance_m
      then segment_bound_hit s.on_arrival false (record s { distance_m = s.start_distance_m })
      else record s { distance_m = distance }

  unfoldable pub update_gps : F → LocomotiveState F → Result (LocomotiveState F)
  update_gps dt_seconds s =
      if f.lt (f.lit 0 0) s.speed
      then (do
        speed_ms ← or_raise zero_division (f.div (f.mul s.speed (f.lit 10000 1)) (f.lit 36000 1))
        ok (with_pose (move s.forward (f.mul speed_ms dt_seconds) s)))
      else ok (with_pose s)

  unfoldable pub tick : Random F → F → LocomotiveState F → Result (LocomotiveState F)
  unfolding transition apply_scenario update_gps
  tick random dt_seconds s = do s2 ← apply_scenario (transition random s); update_gps dt_seconds s2

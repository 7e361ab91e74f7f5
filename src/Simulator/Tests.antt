-- ===== src/Simulator/Tests.antt =====
-- The theorems on the simulator, at a departing TE33A in the emergency scenario.
use hackathon_nu.Base.{
  ℕ, zero, suc, ◌≤◌, ◌≡◌, refl, arith, none, some, inr, true, false, List, [], ◌∷◌,
}
use hackathon_nu.Base.Int.{ℤ, pos}
use hackathon_nu.Base.Results.{Result, ok, err}
use hackathon_nu.Float.Fixed.{fixed_float}
use hackathon_nu.Float.Fixed.Ordered.{fixed-IsOrdered}
use hackathon_nu.Float.Fixed.Rounded.{fixed-IsRounded}
use hackathon_nu.Shared.Enums.{te33a}
use hackathon_nu.Shared.Schemas.{TelemetryReading}
use hackathon_nu.Simulator.Locomotive.{
  LocomotiveState, Random, Route, departure, emergency_scenario, loop, tick,
}
use hackathon_nu.Simulator.Locomotive.Notch.{tick_notch}
use hackathon_nu.Simulator.Locomotive.Progress.{
  IsShare, route_progress, segment_progress, segment_progress-IsShare,
}
use hackathon_nu.Simulator.Locomotive.Segment.{IsFinite, IsPlaced}
use hackathon_nu.Simulator.Generators.{Noise, generate_sensors}
use hackathon_nu.Simulator.Generators.Complete.{IsComplete, generate_sensors-IsComplete}
use hackathon_nu.Simulator.Runner.{Runner, new_runner}
use hackathon_nu.Simulator.Runner.Fleet.{
  NewLocomotive, Update, add_locomotive, update_state, update_locomotive,
}
use hackathon_nu.Simulator.Runner.Ticks.{
  Settings, Outside, Posted, refused, response, run_round, flush_buffer,
}
use hackathon_nu.Simulator.Runner.Buffer.{IsFlushed, flush_buffer-IsFlushed}
use hackathon_nu.Simulator.Runner.Rounds.{
  IsSound, IsHealthy, NeverRaises, Advances, run_round-Advances,
}
use hackathon_nu.Simulator.Runner.Runs.{
  Reached, booted, added, updated, Reached-IsHealthy, Reached-IsPlaced,
}
use hackathon_nu.Simulator.Runner.Sound.{IsSafe}
use hackathon_nu.Simulator.Locomotive.OnRoute.{IsOnRoute}

abbrev dice : Random ℤ
dice = record { randint = λ range. range.0; choice = 6; gauss = pos 0 }

abbrev departing : LocomotiveState ℤ
departing = record {
  id = 7;
  name = "TE33A-7";
  loco_type = te33a;
  route = record {
    name = "Almaty-Astana";
    length_m = fixed_float.lit 5000 0;
    position_at = λ d. (pos 0, pos 0, pos 0);
  };
  mode = departure;
  scenario = emergency_scenario;
  auto_mode = true;
  speed = fixed_float.lit 40 0;
  notch = 7;
  fuel_level = fixed_float.lit 90 0;
  distance_m = fixed_float.lit 100 0;
  start_distance_m = pos 0;
  end_distance_m = fixed_float.lit 5000 0;
  on_arrival = loop;
  arrived = false;
  lat = pos 0;
  lon = pos 0;
  bearing_deg = pos 0;
  coolant_temp = fixed_float.lit 72 0;
  traction_motor_temp = fixed_float.lit 40 0;
  igbt_temp = fixed_float.lit 35 0;
  transformer_temp = fixed_float.lit 45 0;
  mode_ticks = 19;
  mode_duration = 200;
  igbt_override = none;
  brake_override = none;
  scenario_tick = 3;
  forward = true;
}

tick_notch_example :
    (s' : LocomotiveState ℤ) × (tick dice (fixed_float.lit 1 0) departing ≡ ok s') × (s'.notch ≤ 8)
tick_notch_example =
    tick_notch fixed-IsOrdered fixed-IsRounded dice (fixed_float.lit 1 0) departing (omega arith)
      (omega arith)

abbrev calm : ℕ → Noise ℤ
calm _ = record { gauss = λ _. pos 0; random = pos 0; spike = λ v. v }

generate_sensors-IsComplete_example : IsComplete te33a departing (generate_sensors calm departing)
generate_sensors-IsComplete_example =
    generate_sensors-IsComplete fixed-IsOrdered fixed-IsRounded calm departing (omega arith)

abbrev running : Runner ℤ
running = record {
  fleet = (7, departing) ∷ [];
  tick_count = 0;
  events_sent = 0;
  errors = 0;
  buffer = [];
  running = true;
  burst_multiplier = fixed_float.lit 1 0;
  burst_until = pos 0;
}

abbrev settings : Settings ℤ
settings = record { burst_multiplier = fixed_float.lit 1 0; batch_size = 100 }

-- The processor refuses the first batch and takes the retry.
abbrev outside : Outside ℤ
outside = record {
  now = 50;
  random = λ _. dice;
  noise = λ _. calm;
  monotonic = λ _. pos 5;
  monotonic_batch = pos 5;
  post = λ _ _. refused;
  repost = λ _ _. response;
}

repost_never : NeverRaises outside.repost
repost_never i batch e h = cc

departing-IsSound : IsSound (IsPlaced 5000) departing
unfolding hackathon_nu.Float.Fixed.leb_ℤ
departing-IsSound = (omega arith, (refl, refl, refl, refl, refl))

run_round-Advances_example :
    Advances (IsPlaced 5000) settings outside running (run_round settings outside running)
run_round-Advances_example =
    run_round-Advances fixed-IsOrdered fixed-IsRounded 5000 settings outside running (omega arith)
      (λ _. omega arith) (omega arith) repost_never (departing-IsSound, tt) (omega arith)

abbrev waiting : TelemetryReading ℤ
waiting = record {
  locomotive_id = 7;
  locomotive_type = te33a;
  timestamp = 49;
  sample_rate_hz = fixed_float.lit 1 0;
  gps = none;
  sensors = [];
  route_name = none;
}

abbrev backlog : Runner ℤ
backlog = record running { buffer = waiting ∷ waiting ∷ [] }

abbrev half_sent : Runner ℤ
half_sent = record running { buffer = waiting ∷ []; events_sent = 1 }

-- The second retry is refused.
abbrev once : ℕ → List (TelemetryReading ℤ) → Posted
once zero batch = refused
once (suc zero) batch = refused
once (suc (suc n)) batch = response

backlog_flushed : flush_buffer once 1 backlog ≡ ok half_sent
unfolding flush_buffer
backlog_flushed = refl

flush_buffer-IsFlushed_example : IsFlushed once 1 3 backlog half_sent
flush_buffer-IsFlushed_example = flush_buffer-IsFlushed once 1 backlog half_sent backlog_flushed

abbrev astana : Route ℤ
astana = departing.route

abbrev newcomer : NewLocomotive ℤ
newcomer = record {
  loco_id = 8;
  loco_type = te33a;
  route_name = "Almaty-Astana";
  name = "TE33A-8";
  start_km = fixed_float.lit 5 1;
  end_km = some (fixed_float.lit 1 0);
  mode = departure;
  scenario = emergency_scenario;
  on_arrival = loop;
  auto_mode = true;
  initial_speed_kmh = pos 0;
}

abbrev outcome : Result (Runner ℤ) → Runner ℤ
outcome (ok r) = r
outcome (err e) = running

abbrev peopled : Runner ℤ
peopled = outcome (add_locomotive (astana ∷ []) dice newcomer (new_runner (fixed_float.lit 1 0)))

add_locomotive-newcomer :
    add_locomotive (astana ∷ []) dice newcomer (new_runner (fixed_float.lit 1 0)) ≡ ok peopled
unfolding add_locomotive hackathon_nu.Float.Fixed.fixed_ops hackathon_nu.Simulator.Runner.get_route
    hackathon_nu.Base.Dict.has new_runner
add_locomotive-newcomer = refl

astana-IsFinite : IsFinite 5000 astana
unfolding hackathon_nu.Float.Fixed.leb_ℤ
astana-IsFinite = (refl, refl)

-- An update that moves the start past the end of the segment, and says nothing of the end.
abbrev late_start : Update ℤ
late_start = record {
  route_name = none;
  start_km = some (fixed_float.lit 4 0);
  end_km = none;
  mode = none;
  scenario = none;
  on_arrival = none;
  auto_mode = none;
  speed_kmh = none;
  name = none;
}

abbrev short : LocomotiveState ℤ
short = record departing { end_distance_m = fixed_float.lit 1000 0 }

abbrev escaped : LocomotiveState ℤ
escaped = record short {
  start_distance_m = fixed_float.lit 4000 0;
  distance_m = fixed_float.lit 4000 0;
}

late_start_escapes : update_state (astana ∷ []) late_start short ≡ ok escaped
unfolding update_state hackathon_nu.Float.Fixed.fixed_ops
late_start_escapes = refl

-- The runner after that update.
abbrev edited : Runner ℤ
edited = outcome (update_locomotive (astana ∷ []) 8 late_start peopled)

update_locomotive-late_start : update_locomotive (astana ∷ []) 8 late_start peopled ≡ ok edited
unfolding update_locomotive update_state hackathon_nu.Float.Fixed.fixed_ops
    hackathon_nu.Simulator.Runner.get_route hackathon_nu.Base.Dict.has hackathon_nu.Base.Dict.get
    hackathon_nu.Base.Dict.put hackathon_nu.Simulator.Runner.get_locomotive add_locomotive
    new_runner
update_locomotive-late_start = refl

peopled-Reached : (Allowed : Update ℤ → Type 0) → Reached settings (astana ∷ []) Allowed peopled
peopled-Reached Allowed = added dice newcomer (booted (fixed_float.lit 1 0)) add_locomotive-newcomer

Reached-IsHealthy_example : IsHealthy (IsOnRoute 5000) edited
Reached-IsHealthy_example =
    Reached-IsHealthy fixed-IsOrdered fixed-IsRounded 5000 settings (astana ∷ []) (λ u. Unit) edited
      (omega arith) (omega arith) (astana-IsFinite, tt)
      (updated 8 late_start (peopled-Reached (λ u. Unit)) tt update_locomotive-late_start)

Reached-IsPlaced_example : IsHealthy (IsPlaced 5000) peopled
Reached-IsPlaced_example =
    Reached-IsPlaced fixed-IsOrdered fixed-IsRounded 5000 settings (astana ∷ []) peopled
      (omega arith) (omega arith) (astana-IsFinite, tt) (peopled-Reached IsSafe)

segment_progress-IsShare_example :
    IsShare (route_progress departing) × IsShare (segment_progress departing)
segment_progress-IsShare_example =
    segment_progress-IsShare fixed-IsOrdered fixed-IsRounded departing

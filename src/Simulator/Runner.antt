-- ===== src/Simulator/Runner.antt =====
-- services/simulator/simulator/runner.py, `SimulationRunner`: the fleet that operators build. The
-- routes of the library, the clock and the results of `random` are arguments; `_last_log_time` and
-- `_events_since_log`, which only the log line reads, are left out.
use hackathon_nu.Base.{
  ℕ, Bool, true, false, not, ◌&&◌, Option, none, some, List, [], ◌∷◌, String, nat_eq, string_eq,
  ◌==◌, length, map, if◌then◌else◌,
}
use hackathon_nu.Base.Dict.{Dict, get, put, pop, has}
use hackathon_nu.Base.Results.{
  Result, ok, err, Error, zero_division, value_error, key_error, or_raise, ◌>>=◌,
}
use hackathon_nu.Float.{Float, max, min}
use hackathon_nu.Shared.Enums.{LocomotiveType}
use hackathon_nu.Shared.Schemas.{TelemetryReading}
use hackathon_nu.Simulator.Locomotive.{
  LocomotiveState, LocomotiveMode, LocomotiveScenario, normal_scenario, degradation_scenario,
  emergency_scenario, OnArrival, Route, Random, post_init, with_pose,
}
pub mod Fleet
pub mod Ticks
pub mod Latest
pub mod Buffer
pub mod Delivery
pub mod Rounds
pub mod Keeps
pub mod Sound
pub mod Edits
pub mod OnRoute
pub mod Runs

pub record Runner (F : Type 0) : Type 0 where
  pub fleet : Dict ℕ (LocomotiveState F)
  pub tick_count : ℕ
  pub events_sent : ℕ
  pub errors : ℕ
  pub buffer : List (TelemetryReading F)
  pub running : Bool
  pub burst_multiplier : F
  pub burst_until : F

-- What `get_metrics` reports.
pub record Metrics (F : Type 0) : Type 0 where
  pub tick_count : ℕ
  pub fleet_size : ℕ
  pub events_sent : ℕ
  pub errors : ℕ
  pub buffer_size : ℕ
  pub burst_multiplier : F
  pub running : Bool

module _ {F : Type 0} where
  -- get_route of shared/shared/route_geometry.py, over the list ROUTES
  unfoldable pub get_route : String → List (Route F) → Option (Route F)
  get_route name [] = none
  get_route name (r ∷ routes) = if r.name == name then some r else get_route name routes

  abbrev pub find_route : String → List (Route F) → Result (Route F)
  find_route name routes = or_raise value_error (get_route name routes)

  unfoldable pub get_locomotive : ℕ → Runner F → Result (LocomotiveState F)
  get_locomotive loco_id r = or_raise key_error (get loco_id r.fleet)

  unfoldable pub remove_locomotive : ℕ → Runner F → Result (Runner F)
  remove_locomotive loco_id r =
      if not (has loco_id r.fleet)
      then err key_error
      else ok (record r { fleet = pop loco_id r.fleet })

  unfoldable pub stop : Runner F → Runner F
  stop r = record r { running = false }

  unfoldable pub init_fleet : Runner F → Runner F
  init_fleet r = record r { fleet = [] }

module _ {F : Type 0} ⦃f : Float F⦄ where
  unfoldable pub new_runner : F → Runner F
  new_runner burst_multiplier = record {
    fleet = [];
    tick_count = 0;
    events_sent = 0;
    errors = 0;
    buffer = [];
    running = false;
    burst_multiplier = burst_multiplier;
    burst_until = f.lit 0 1;
  }

  -- `monotonic` is the clock.
  unfoldable pub set_burst : F → F → F → Runner F → Runner F
  set_burst monotonic multiplier duration r = record r {
    burst_multiplier = multiplier;
    burst_until = f.add monotonic duration;
  }

  unfoldable pub effective_multiplier : F → F → Runner F → F
  effective_multiplier configured monotonic r =
      if f.lt monotonic r.burst_until then r.burst_multiplier else configured

  unfoldable pub get_metrics : F → F → Runner F → Metrics F
  get_metrics configured monotonic r = record {
    tick_count = r.tick_count;
    fleet_size = length r.fleet;
    events_sent = r.events_sent;
    errors = r.errors;
    buffer_size = length r.buffer;
    burst_multiplier = effective_multiplier configured monotonic r;
    running = r.running;
  }

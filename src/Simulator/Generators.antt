-- ===== src/Simulator/Generators.antt =====
-- services/simulator/simulator/generators/: the sensor values of a locomotive. Each reading of
-- `random` is a parameter, for every call of `add_noise` its own.
use hackathon_nu.Base.{
  ℕ, ◌*◌, Bool, true, false, not, ◌&&◌, Option, none, some, List, [], ◌∷◌, ◌++◌, String,
  if◌then◌else◌,
}
use hackathon_nu.Base.Results.{Result, ok, err, Error, zero_division, overflow, or_raise, ◌>>=◌}
use hackathon_nu.Float.{Float, max, min}
use hackathon_nu.Shared.Enums.{
  LocomotiveType, te33a, kz8a, SensorType, diesel_rpm, oil_pressure, coolant_temp, fuel_level,
  fuel_rate, traction_motor_temp, crankcase_pressure, catenary_voltage, pantograph_current,
  transformer_temp, igbt_temp, recuperation_current, dc_link_voltage, speed_actual, speed_target,
  brake_pipe_pressure, wheel_slip_ratio,
}
use hackathon_nu.Shared.Schemas.{SensorPayload}
use hackathon_nu.Simulator.Locomotive.{LocomotiveState, LocomotiveMode, arrival, aess_sleep}
pub mod Complete

-- gauss(0, sigma), random(), and the second gauss of a spike
pub record Noise (F : Type 0) : Type 0 where
  pub gauss : F → F
  pub random : F
  pub spike : F → F

-- The locomotive as a generator leaves it, and its values.
abbrev pub Generated : Type 0 → Type 0
Generated F = List (SensorPayload F) × LocomotiveState F

abbrev pub or_default : {F : Type 0} → F → Option F → F
or_default d none = d
or_default d (some v) = v

-- `state.mode == LocomotiveMode...`
abbrev pub is_aess_sleep : LocomotiveMode → Bool
is_aess_sleep aess_sleep = true
is_aess_sleep _ = false

abbrev pub is_arrival : LocomotiveMode → Bool
is_arrival arrival = true
is_arrival _ = false

module _ {F : Type 0} ⦃f : Float F⦄ where
  unfoldable pub add_noise : Noise F → F → F → F
  add_noise n value nominal =
      let nonzero = not (f.le nominal (f.lit 0 0) && f.le (f.lit 0 0) nominal) in
      let noisy =
        f.add value
          (if nonzero then n.gauss (f.mul nominal (f.lit 5 3)) else n.gauss (f.lit 1 2)) in
      if f.lt n.random (f.lit 1 3)
      then f.add noisy
          (if nonzero then n.spike (f.mul nominal (f.lit 5 2)) else n.spike (f.lit 1 1))
      else noisy

  abbrev pub payload : SensorType → F → String → SensorPayload F
  payload s value unit = record { sensor_type = s; value = value; unit = unit }

  -- old + (target - old) * rate
  abbrev pub approach : F → F → F → F
  approach old target rate = f.add old (f.mul (f.sub target old) rate)

  -- `_common_sensors`, which `generate_kz8a` spells out: the four draws from the i-th on
  unfoldable pub common_sensors : (ℕ → Noise F) → LocomotiveState F → List (SensorPayload F)
  unfolding add_noise
  common_sensors noise s =
      payload speed_actual (add_noise (noise 0) s.speed (f.lit 60 0)) "km/h"
      ∷ payload speed_target (add_noise (noise 1) (f.add s.speed (f.lit 5 0)) (f.lit 60 0)) "km/h"
      ∷ payload brake_pipe_pressure
          (add_noise (noise 2) (or_default (f.lit 51 1) s.brake_override) (f.lit 51 1)) "bar"
      ∷ payload wheel_slip_ratio (add_noise (noise 3) (f.lit 0 1) (f.lit 0 0)) "ratio"
      ∷ []

  -- The engine shut down.
  unfoldable pub asleep_sensors : (ℕ → Noise F) → LocomotiveState F → Generated F
  unfolding add_noise
  asleep_sensors noise s =
      let coolant = approach s.coolant_temp (f.lit 350 1) (f.lit 1 2) in
      let motor = approach s.traction_motor_temp (f.lit 300 1) (f.lit 1 2) in
      (
        payload diesel_rpm (add_noise (noise 4) (f.lit 0 0) (f.lit 300 0)) "RPM"
            ∷ payload oil_pressure (add_noise (noise 5) (f.lit 0 0) (f.lit 35 1)) "bar"
            ∷ payload fuel_rate (f.lit 0 1) "L/h"
            ∷ payload coolant_temp (add_noise (noise 6) coolant (f.lit 82 0)) "C"
            ∷ payload traction_motor_temp (add_noise (noise 7) motor (f.lit 85 0)) "C"
            ∷ [],
        record s { coolant_temp = coolant; traction_motor_temp = motor },
      )

  -- The speed of the diesel engine in the state's notch.
  abbrev pub diesel_speed : LocomotiveState F → F
  diesel_speed s = f.add (f.lit 300 0) (f.mul (f.lit s.notch 0) (f.lit 9375 2))

  abbrev pub burn_rate : F → F
  burn_rate power = f.add (f.lit 15 0) (f.mul power (f.lit 165 0))

  -- The engine at work: n / 8, its power 1.5, rpm / 1050 and fuel_rate / 3600 are computed.
  unfoldable pub engine_values : (ℕ → Noise F) → LocomotiveState F → F → F → F → F → Generated F
  unfolding add_noise
  engine_values noise s eighths power share used =
      let rpm = diesel_speed s in
      let rate = burn_rate power in
      let pressure = f.add (f.lit 15 1) (f.mul share (f.lit 30 1)) in
      let coolant =
        approach s.coolant_temp (f.add (f.lit 72 0) (f.mul (f.lit s.notch 0) (f.lit 25 1)))
          (f.lit 5 2) in
      let motor =
        approach s.traction_motor_temp (f.add (f.lit 40 0) (f.mul eighths (f.lit 70 0)))
          (f.lit 3 2) in
      (
        payload diesel_rpm (add_noise (noise 4) rpm (f.lit 700 0)) "RPM"
            ∷ payload oil_pressure (add_noise (noise 5) pressure (f.lit 35 1)) "bar"
            ∷ payload coolant_temp (add_noise (noise 6) coolant (f.lit 82 0)) "C"
            ∷ payload fuel_rate (add_noise (noise 7) rate (f.lit 80 0)) "L/h"
            ∷ payload traction_motor_temp (add_noise (noise 8) motor (f.lit 85 0)) "C"
            ∷ [],
        record s {
          coolant_temp = coolant;
          traction_motor_temp = motor;
          fuel_level = max (f.lit 0 1) (f.sub s.fuel_level used);
        },
      )

  unfoldable pub engine_sensors : (ℕ → Noise F) → LocomotiveState F → Result (Generated F)
  unfolding engine_values
  engine_sensors noise s = do
    eighths ← or_raise zero_division (f.div (f.lit s.notch 0) (f.lit 8 0))
    power ← or_raise overflow (f.pow eighths (f.lit 15 1))
    share ← or_raise zero_division (f.div (diesel_speed s) (f.lit 1050 0))
    used ← or_raise zero_division (f.div (burn_rate power) (f.lit 3600 0))
    ok (engine_values noise s eighths power share used)

  -- What follows the engine's own sensors.
  abbrev pub with_tank : (ℕ → Noise F) → Generated F → Generated F
  with_tank noise (sensors, s) = (
    sensors
        ++ payload fuel_level (add_noise (noise 9) s.fuel_level (f.lit 50 0)) "%"
          ∷ payload crankcase_pressure (add_noise (noise 10) (f.lit 20 1) (f.lit 0 0)) "mbar"
          ∷ common_sensors noise s,
    s,
  )

  unfoldable pub generate_te33a : (ℕ → Noise F) → LocomotiveState F → Result (Generated F)
  unfolding asleep_sensors engine_sensors common_sensors
  generate_te33a noise s = do
    own ← (if is_aess_sleep s.mode then ok (asleep_sensors noise s) else engine_sensors noise s)
    ok (with_tank noise own)

  -- The temperature of the IGBT: the override of a scenario, or on its way to the target.
  abbrev pub igbt_next : Option F → F → F → F
  igbt_next (some override) old share = override
  igbt_next none old share =
      approach old (f.add (f.lit 35 0) (f.mul share (f.lit 40 0))) (f.lit 5 2)

  -- 50 + (speed / 120) * 300
  abbrev pub pantograph : F → F
  pantograph load = f.add (f.lit 50 0) (f.mul load (f.lit 300 0))

  -- With speed / 120, pantograph_current / 400 and (120 - speed) / 120 computed.
  unfoldable pub kz8a_values : (ℕ → Noise F) → LocomotiveState F → F → F → F → Generated F
  unfolding add_noise common_sensors
  kz8a_values noise s load share braking =
      let current = pantograph load in
      let voltage = f.sub (f.lit 25000 0) (f.mul current (f.lit 8 0)) in
      let igbt = igbt_next s.igbt_override s.igbt_temp share in
      let transformer =
        approach s.transformer_temp (f.add (f.lit 45 0) (f.mul share (f.lit 35 0))) (f.lit 3 2) in
      let recuperation =
        if is_arrival s.mode && f.lt (f.lit 20 0) s.speed
        then f.mul braking (f.lit 200 0)
        else f.lit 0 1 in
      (
        payload catenary_voltage (add_noise (noise 4) voltage (f.lit 25000 0)) "V"
            ∷ payload pantograph_current (add_noise (noise 5) current (f.lit 200 0)) "A"
            ∷ payload igbt_temp (add_noise (noise 6) igbt (f.lit 57 0)) "C"
            ∷ payload transformer_temp (add_noise (noise 7) transformer (f.lit 65 0)) "C"
            ∷ payload dc_link_voltage (add_noise (noise 8) (f.lit 28000 1) (f.lit 2800 0)) "V"
            ∷ payload recuperation_current (add_noise (noise 9) recuperation (f.lit 100 0)) "A"
            ∷ common_sensors noise s,
        record s { igbt_temp = igbt; transformer_temp = transformer },
      )

  unfoldable pub generate_kz8a : (ℕ → Noise F) → LocomotiveState F → Result (Generated F)
  unfolding kz8a_values
  generate_kz8a noise s = do
    load ← or_raise zero_division (f.div s.speed (f.lit 120 0))
    share ← or_raise zero_division (f.div (pantograph load) (f.lit 400 0))
    braking ← or_raise zero_division (f.div (f.sub (f.lit 120 0) s.speed) (f.lit 120 0))
    ok (kz8a_values noise s load share braking)

  -- `_generate_sensors`
  abbrev pub generate_by : LocomotiveType → (ℕ → Noise F) → LocomotiveState F → Result (Generated F)
  generate_by te33a noise s = generate_te33a noise s
  generate_by kz8a noise s = generate_kz8a noise s

  unfoldable pub generate_sensors : (ℕ → Noise F) → LocomotiveState F → Result (Generated F)
  unfolding generate_te33a generate_kz8a
  generate_sensors noise s = generate_by s.loco_type noise s

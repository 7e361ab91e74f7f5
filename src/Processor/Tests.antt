-- ===== src/Processor/Tests.antt =====
-- Concrete readings, on the floats of Float/Fixed, for the tests and the witnesses below it.
use hackathon_nu.Base.{ℕ, none, some, List, [], ◌∷◌}
use hackathon_nu.Base.Int.{ℤ, pos}
use hackathon_nu.Float.{Float}
use hackathon_nu.Float.Fixed.{fixed_float}
use hackathon_nu.Shared.Enums.{
  LocomotiveType, te33a, kz8a, SensorType, diesel_rpm, oil_pressure, coolant_temp, igbt_temp,
  catenary_voltage,
}
use hackathon_nu.Shared.Schemas.{TelemetryReading, SensorPayload}
pub mod Examples
pub mod Runs
pub mod Batches

abbrev pub num : ℕ → ℕ → ℤ
num n e = fixed_float.lit n e

abbrev pub sensor : SensorType → ℤ → SensorPayload ℤ
sensor s v = record { sensor_type = s; value = v; unit = "u" }

abbrev reading : LocomotiveType → ℤ → List (SensorPayload ℤ) → TelemetryReading ℤ
reading t rate ps = record {
  locomotive_id = 7;
  locomotive_type = t;
  timestamp = 100;
  sample_rate_hz = rate;
  gps = none;
  sensors = ps;
  route_name = none;
}

-- The engine asleep, with the oil pressure of a standing pump and a hot coolant.
abbrev pub asleep_reading : TelemetryReading ℤ
asleep_reading = reading te33a (num 10 1) (
    sensor diesel_rpm (num 40 0)
    ∷ sensor oil_pressure (num 5 1)
    ∷ sensor coolant_temp (num 96 0)
    ∷ [])

abbrev pub hot_reading : TelemetryReading ℤ
hot_reading =
    reading kz8a (num 10 0)
      (sensor igbt_temp (num 69 0) ∷ sensor catenary_voltage (num 19500 0) ∷ [])

-- ===== src/Shared/Enums.antt =====
-- shared/shared/enums.py. A member's text is its `value`; the members of one enum differ in it, so
-- a dict that the code keys by the text is keyed here by the member.
use hackathon_nu.Base.{
  ℕ, zero, suc, String, ◌≡◌, refl, sym, ap, ◌∙◌, ◌↔◌, Bool, true, List, [], ◌∷◌, Option, none, some,
  Eq, nat_beq, nat_beq_iff,
}
use mathlib.Core.Option.{some-injective}

pub data LocomotiveType : Type 0 where
  te33a kz8a : LocomotiveType

pub data SensorType : Type 0 where
  diesel_rpm oil_pressure coolant_temp fuel_level fuel_rate : SensorType
  traction_motor_temp crankcase_pressure catenary_voltage pantograph_current transformer_temp :
      SensorType
  igbt_temp recuperation_current dc_link_voltage speed_actual speed_target : SensorType
  brake_pipe_pressure wheel_slip_ratio : SensorType

pub data ThresholdType : Type 0 where
  bidirectional upper_bound lower_bound exact_match : ThresholdType

pub data AlertSeverity : Type 0 where
  info warning critical emergency : AlertSeverity

unfoldable pub sensor_value : SensorType → String
sensor_value diesel_rpm = "diesel_rpm"
sensor_value oil_pressure = "oil_pressure"
sensor_value coolant_temp = "coolant_temp"
sensor_value fuel_level = "fuel_level"
sensor_value fuel_rate = "fuel_rate"
sensor_value traction_motor_temp = "traction_motor_temp"
sensor_value crankcase_pressure = "crankcase_pressure"
sensor_value catenary_voltage = "catenary_voltage"
sensor_value pantograph_current = "pantograph_current"
sensor_value transformer_temp = "transformer_temp"
sensor_value igbt_temp = "igbt_temp"
sensor_value recuperation_current = "recuperation_current"
sensor_value dc_link_voltage = "dc_link_voltage"
sensor_value speed_actual = "speed_actual"
sensor_value speed_target = "speed_target"
sensor_value brake_pipe_pressure = "brake_pipe_pressure"
sensor_value wheel_slip_ratio = "wheel_slip_ratio"

unfoldable pub type_value : LocomotiveType → String
type_value te33a = "TE33A"
type_value kz8a = "KZ8A"

unfoldable pub severity_value : AlertSeverity → String
severity_value info = "info"
severity_value warning = "warning"
severity_value critical = "critical"
severity_value emergency = "emergency"

abbrev all_sensors : List SensorType
all_sensors =
    diesel_rpm ∷ oil_pressure ∷ coolant_temp ∷ fuel_level ∷ fuel_rate ∷ traction_motor_temp
    ∷ crankcase_pressure ∷ catenary_voltage ∷ pantograph_current ∷ transformer_temp ∷ igbt_temp
    ∷ recuperation_current ∷ dc_link_voltage ∷ speed_actual ∷ speed_target ∷ brake_pipe_pressure
    ∷ wheel_slip_ratio ∷ []

abbrev position : SensorType → ℕ
position diesel_rpm = 0
position oil_pressure = 1
position coolant_temp = 2
position fuel_level = 3
position fuel_rate = 4
position traction_motor_temp = 5
position crankcase_pressure = 6
position catenary_voltage = 7
position pantograph_current = 8
position transformer_temp = 9
position igbt_temp = 10
position recuperation_current = 11
position dc_link_voltage = 12
position speed_actual = 13
position speed_target = 14
position brake_pipe_pressure = 15
position wheel_slip_ratio = 16

abbrev nth : List SensorType → ℕ → Option SensorType
nth [] i = none
nth (x ∷ xs) zero = some x
nth (x ∷ xs) (suc i) = nth xs i

nth-position : (s : SensorType) → nth all_sensors (position s) ≡ some s
nth-position diesel_rpm = refl
nth-position _ = refl

unfoldable pub sensor_beq : SensorType → SensorType → Bool
sensor_beq a b = nat_beq (position a) (position b)

position-injective : (a b : SensorType) → position a ≡ position b → a ≡ b
position-injective a b e =
    some-injective a b (sym (nth-position a) ∙ ap (nth all_sensors) e ∙ nth-position b)

pub sensor_beq_iff : (a b : SensorType) → (sensor_beq a b ≡ true) ↔ (a ≡ b)
unfolding sensor_beq
sensor_beq_iff a b =
    (λ h. position-injective a b ((nat_beq_iff _ _).0 h), λ e. (nat_beq_iff _ _).1 (ap position e))

instance abbrev pub sensor_eq : Eq SensorType
sensor_eq = record { equals = sensor_beq; equals_iff = sensor_beq_iff }

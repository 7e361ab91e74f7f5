-- ===== src/Shared/Constants.antt =====
-- shared/shared/constants.py: the sensor specifications and the constants of the formulas.
use hackathon_nu.Base.{Bool, true, false, [], ◌∷◌}
use hackathon_nu.Base.Dict.{Dict}
use hackathon_nu.Float.{Float, max}
use hackathon_nu.Shared.Enums.{
  LocomotiveType, te33a, kz8a, ThresholdType, bidirectional, upper_bound, lower_bound, SensorType,
  diesel_rpm, oil_pressure, coolant_temp, fuel_level, fuel_rate, traction_motor_temp,
  crankcase_pressure, catenary_voltage, pantograph_current, transformer_temp, igbt_temp,
  recuperation_current, dc_link_voltage, speed_actual, brake_pipe_pressure, wheel_slip_ratio,
}

pub record SensorSpec (F : Type 0) : Type 0 where
  pub weight : F
  pub p_nom : F
  pub delta_safe : F
  pub p_crit : F
  pub threshold_type : ThresholdType
  pub k : F
  pub is_aging_param : Bool
  pub montsinger_ref_temp : F

module _ {F : Type 0} ⦃f : Float F⦄ where
  unfoldable pub crit_range : SensorSpec F → F
  crit_range spec = max (f.lit 1 6) (f.sub (f.abs (f.sub spec.p_crit spec.p_nom)) spec.delta_safe)

  -- The defaults of the last two fields.
  abbrev sensor_spec : F → F → F → F → ThresholdType → F → SensorSpec F
  sensor_spec weight p_nom delta_safe p_crit threshold_type k = record {
    weight = weight;
    p_nom = p_nom;
    delta_safe = delta_safe;
    p_crit = p_crit;
    threshold_type = threshold_type;
    k = k;
    is_aging_param = false;
    montsinger_ref_temp = f.lit 0 1;
  }

  abbrev aging : SensorSpec F → F → SensorSpec F
  aging spec ref = record spec { is_aging_param = true; montsinger_ref_temp = ref }

  unfoldable pub te33a_specs : Dict SensorType (SensorSpec F)
  te33a_specs =
      (
        diesel_rpm,
        sensor_spec (f.lit 15 0) (f.lit 700 0) (f.lit 200 0) (f.lit 1050 0) upper_bound
            (f.lit 20 1),
      )
      ∷ (
        oil_pressure,
        sensor_spec (f.lit 35 0) (f.lit 35 1) (f.lit 10 1) (f.lit 15 1) lower_bound (f.lit 20 1),
      )
      ∷ (
        coolant_temp,
        sensor_spec (f.lit 20 0) (f.lit 82 0) (f.lit 13 0) (f.lit 95 0) upper_bound (f.lit 20 1),
      )
      ∷ (
        fuel_level,
        sensor_spec (f.lit 10 0) (f.lit 50 0) (f.lit 40 0) (f.lit 5 0) lower_bound (f.lit 15 1),
      )
      ∷ (
        fuel_rate,
        sensor_spec (f.lit 10 0) (f.lit 80 0) (f.lit 60 0) (f.lit 200 0) upper_bound (f.lit 15 1),
      )
      ∷ (
        traction_motor_temp,
        sensor_spec (f.lit 15 0) (f.lit 85 0) (f.lit 45 0) (f.lit 130 0) upper_bound (f.lit 20 1),
      )
      ∷ (
        crankcase_pressure,
        sensor_spec (f.lit 40 0) (f.lit 0 0) (f.lit 10 0) (f.lit 50 0) upper_bound (f.lit 30 1),
      )
      ∷ (
        brake_pipe_pressure,
        sensor_spec (f.lit 40 0) (f.lit 51 1) (f.lit 2 1) (f.lit 20 1) lower_bound (f.lit 30 1),
      )
      ∷ (
        wheel_slip_ratio,
        sensor_spec (f.lit 20 0) (f.lit 0 1) (f.lit 5 2) (f.lit 5 1) upper_bound (f.lit 20 1),
      )
      ∷ (
        speed_actual,
        sensor_spec (f.lit 15 0) (f.lit 60 0) (f.lit 60 0) (f.lit 120 0) upper_bound (f.lit 20 1),
      )
      ∷ []

  unfoldable pub kz8a_specs : Dict SensorType (SensorSpec F)
  kz8a_specs =
      (
        catenary_voltage,
        sensor_spec (f.lit 25 0) (f.lit 25000 0) (f.lit 4000 0) (f.lit 19000 0) bidirectional
            (f.lit 20 1),
      )
      ∷ (
        pantograph_current,
        sensor_spec (f.lit 15 0) (f.lit 200 0) (f.lit 150 0) (f.lit 400 0) upper_bound (f.lit 20 1),
      )
      ∷ (
        transformer_temp,
        aging
            (sensor_spec (f.lit 20 0) (f.lit 65 0) (f.lit 15 0) (f.lit 90 0) upper_bound
              (f.lit 20 1))
            (f.lit 650 1),
      )
      ∷ (
        igbt_temp,
        aging
            (sensor_spec (f.lit 30 0) (f.lit 57 0) (f.lit 18 0) (f.lit 85 0) upper_bound
              (f.lit 20 1))
            (f.lit 570 1),
      )
      ∷ (
        recuperation_current,
        sensor_spec (f.lit 5 0) (f.lit 100 0) (f.lit 100 0) (f.lit 0 0) lower_bound (f.lit 10 1),
      )
      ∷ (
        dc_link_voltage,
        sensor_spec (f.lit 20 0) (f.lit 2800 0) (f.lit 300 0) (f.lit 2000 0) bidirectional
            (f.lit 20 1),
      )
      ∷ (
        brake_pipe_pressure,
        sensor_spec (f.lit 40 0) (f.lit 51 1) (f.lit 2 1) (f.lit 20 1) lower_bound (f.lit 30 1),
      )
      ∷ (
        wheel_slip_ratio,
        sensor_spec (f.lit 20 0) (f.lit 0 1) (f.lit 5 2) (f.lit 5 1) upper_bound (f.lit 20 1),
      )
      ∷ (
        speed_actual,
        sensor_spec (f.lit 15 0) (f.lit 60 0) (f.lit 60 0) (f.lit 120 0) upper_bound (f.lit 20 1),
      )
      ∷ []

  unfoldable pub loco_specs : LocomotiveType → Dict SensorType (SensorSpec F)
  unfolding te33a_specs kz8a_specs
  loco_specs te33a = te33a_specs
  loco_specs kz8a = kz8a_specs

  -- `EMA_GAINS.get(sensor_type, EMA_GAINS["__default__"])`
  unfoldable pub ema_gain : SensorType → F
  ema_gain coolant_temp = f.lit 10 2
  ema_gain transformer_temp = f.lit 10 2
  ema_gain igbt_temp = f.lit 15 2
  ema_gain traction_motor_temp = f.lit 10 2
  ema_gain catenary_voltage = f.lit 30 2
  ema_gain pantograph_current = f.lit 30 2
  ema_gain dc_link_voltage = f.lit 35 2
  ema_gain wheel_slip_ratio = f.lit 25 2
  ema_gain diesel_rpm = f.lit 25 2
  ema_gain _ = f.lit 20 2

  abbrev pub aess_rpm_threshold : F
  aess_rpm_threshold = f.lit 500 1

  abbrev pub hi_category_normal : F
  hi_category_normal = f.lit 800 1

  abbrev pub hi_category_warning : F
  hi_category_warning = f.lit 500 1

  abbrev pub montsinger_degree_step : F
  montsinger_degree_step = f.lit 60 1

  abbrev pub montsinger_base_damage : F
  montsinger_base_damage = f.lit 1 3

-- AESS_MASKED_SENSORS
unfoldable pub aess_masked : SensorType → Bool
aess_masked diesel_rpm = true
aess_masked oil_pressure = true
aess_masked _ = false

-- ===== src/Shared/Schemas.antt =====
-- shared/shared/schemas: the messages between the services. UUIDs and times are numbers; the
-- numeric fields are of the type `F` of floats.
use hackathon_nu.Base.{ℕ, Bool, String, List, Option}
use hackathon_nu.Shared.Enums.{LocomotiveType, SensorType, AlertSeverity}

pub record GpsCoordinate (F : Type 0) : Type 0 where
  pub latitude : F
  pub longitude : F
  pub bearing_deg : Option F

pub record SensorPayload (F : Type 0) : Type 0 where
  pub sensor_type : SensorType
  pub value : F
  pub unit : String

pub record TelemetryReading (F : Type 0) : Type 0 where
  pub locomotive_id : ℕ
  pub locomotive_type : LocomotiveType
  pub timestamp : ℕ
  pub sample_rate_hz : F
  pub gps : Option (GpsCoordinate F)
  pub sensors : List (SensorPayload F)
  pub route_name : Option String

pub record AlertEvent (F : Type 0) : Type 0 where
  pub id : ℕ
  pub locomotive_id : ℕ
  pub sensor_type : SensorType
  pub severity : AlertSeverity
  pub value : F
  pub threshold_min : F
  pub threshold_max : F
  pub message : String
  pub recommendation : String
  pub timestamp : ℕ
  pub acknowledged : Bool

pub record HealthFactor (F : Type 0) : Type 0 where
  pub sensor_type : SensorType
  pub value : F
  pub unit : String
  pub penalty : F
  pub contribution_pct : F
  pub deviation_pct : F

pub record HealthIndex (F : Type 0) : Type 0 where
  pub locomotive_id : ℕ
  pub locomotive_type : LocomotiveType
  pub overall_score : F
  pub category : String
  pub top_factors : List (HealthFactor F)
  pub damage_penalty : F
  pub calculated_at : ℕ

-- ===== src/Analytics/Messages.antt =====
-- shared/proto/telemetry.proto: the messages between the analytics service and its client. A double
-- is a float; an unset field is 0, false or the empty text. An
-- int32 is an integer, and what does not fit raises where a message is made.
use hackathon_nu.Base.{◌<◌, Bool, String, List}
use hackathon_nu.Base.Int.{ℤ, pos, negsuc}

-- The integers of an int32 field.
abbrev pub IsInt32 : ℤ → Type 0
IsInt32 (pos n) = n < 2_147_483_648
IsInt32 (negsuc n) = n < 2_147_483_648

pub record TelemetryPoint (F : Type 0) : Type 0 where
  pub bucket : String
  pub locomotive_id : String
  pub sensor_type : String
  pub avg_value : F
  pub min_value : F
  pub max_value : F
  pub last_value : F
  pub unit : String
  pub is_gap : Bool

pub record TelemetryBucketedRequest : Type 0 where
  pub locomotive_id : String
  pub sensor_type : String
  pub start : String
  pub end : String
  pub offset : ℤ
  pub limit : ℤ
  pub bucket_interval : String
  pub max_points : ℤ

pub record TelemetryBucketedResponse (F : Type 0) : Type 0 where
  pub points : List (TelemetryPoint F)
  pub data_source : String
  pub total_points : ℤ

pub record TelemetryRawPoint (F : Type 0) : Type 0 where
  pub time : String
  pub locomotive_id : String
  pub locomotive_type : String
  pub sensor_type : String
  pub value : F
  pub filtered_value : F
  pub unit : String
  pub latitude : F
  pub longitude : F

pub record TelemetryRawRequest : Type 0 where
  pub locomotive_id : String
  pub sensor_type : String
  pub start : String
  pub end : String
  pub offset : ℤ
  pub limit : ℤ

-- `AlertEvent` of the protocol; the client's dict has the same fields.
pub record AlertMessage (F : Type 0) : Type 0 where
  pub id : String
  pub locomotive_id : String
  pub sensor_type : String
  pub severity : String
  pub value : F
  pub threshold_min : F
  pub threshold_max : F
  pub message : String
  pub recommendation : String
  pub timestamp : String
  pub acknowledged : Bool

pub record AlertsListRequest : Type 0 where
  pub locomotive_id : String
  pub severity : String
  pub filter_acknowledged : Bool
  pub acknowledged : Bool
  pub start : String
  pub end : String
  pub offset : ℤ
  pub limit : ℤ

pub record AlertsListResponse (F : Type 0) : Type 0 where
  pub alerts : List (AlertMessage F)
  pub total : ℤ

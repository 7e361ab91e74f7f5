-- ===== src/Analytics.antt =====
-- services/analytics-service/analytics/: the state of the fleet as a whole.
pub mod Aggregator
pub mod Telemetry
pub mod Messages
pub mod Servicer
pub mod Client
pub mod Fallback
pub mod Tests

-- ===== src/Processor.antt =====
-- services/processor: the pipeline from a telemetry reading to rows, alerts and a health index.
pub mod Filter
pub mod Ingestion
pub mod Health
pub mod Alerts
pub mod Router
pub mod Tests

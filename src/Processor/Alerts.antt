-- ===== src/Processor/Alerts.antt =====
-- services/processor/processor/services/alert_evaluator.py: the alerts of a reading.
pub mod Recommendations
pub mod Evaluate
pub mod Selection
pub mod Masked
pub mod Severity

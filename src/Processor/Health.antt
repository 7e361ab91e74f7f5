-- ===== src/Processor/Health.antt =====
-- services/processor/processor/services/health_service.py: the health index of a reading and the
-- accumulated damage, the dict `_damage_state` from a locomotive and a sensor to a penalty.
pub mod Penalties
pub mod Index
pub mod Score
pub mod Bounds
pub mod Raises
pub mod Aging
pub mod Damage
pub mod Factors

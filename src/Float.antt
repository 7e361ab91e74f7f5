-- ===== src/Float.antt =====
-- Python's `float`, taken as a parameter: an interface of operations, its laws, and an instance.
mod Defs
pub mod Laws
pub mod Order
pub mod Fixed
pub mod Sorting
pub use Defs.*

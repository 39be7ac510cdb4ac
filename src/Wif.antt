-- ===== src/Wif.antt =====
-- internal/wif: the constants, the pure functions, the steps and the specification of the engine.
pub mod Keys
pub mod Subject
pub mod Labels
pub mod Scopes
pub mod Find
pub mod Ensure
pub mod Bindings
pub mod DeletionTests
mod Examples
mod StaleTests
pub mod Tests
pub mod Workload
pub mod Spec

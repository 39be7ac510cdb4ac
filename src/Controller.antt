-- ===== src/Controller.antt =====
-- The parts of internal/controller: what it computes on annotations, conditions and config maps, its
-- reconcilers, and what their runs do.
pub mod Annotations
pub mod Conditions
pub mod ConfigMap
mod Tests
pub mod Cleanup
pub mod System
pub mod Binding
pub mod BindingController
pub mod AccountController
mod RunTests
mod AccountTests

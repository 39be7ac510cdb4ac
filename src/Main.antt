-- ===== src/Main.antt =====
-- cmd/main.go
pub mod Setup
pub mod Manager

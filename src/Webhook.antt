-- ===== src/Webhook.antt =====
-- The pod webhook of internal/webhook/podmutator.
mod Tests
pub mod Handler
pub mod Mutate
pub mod Pod

-- ===== src/Security.antt =====
-- apps/engine/src/engine/security: what a run's diff is scanned for.
pub mod Lines
pub mod Secrets
pub mod Diff
pub mod Dependencies
pub mod Pins

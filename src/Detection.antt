-- ===== src/Detection.antt =====
-- packages/detection/lib/GuardDetection.ts: which guards are reachable, found out by nonces.
pub mod State
pub mod Active
pub mod Nonces
pub mod Update
pub mod Places
pub mod Handlers
pub mod Register
pub mod Reachable

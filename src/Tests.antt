-- ===== src/Tests.antt =====
-- The theorems at concrete inputs.
mod Data
mod Messages
mod Guards
mod Signing
mod Keeping
mod Toy
mod Multi
mod Settled
mod Dial

-- ===== src/MultiSig.antt =====
-- packages/ergo-multi-sig/lib: the guards sign a transaction of the Ergo chain together.
pub mod Data
pub mod Ergo
pub mod State
pub mod Hints
pub mod Compare
pub mod Turns
pub mod Queue
pub mod Signing
pub mod Commit
pub mod Dispatch
pub mod Since
pub mod Held
pub mod Reachable
pub mod Forever

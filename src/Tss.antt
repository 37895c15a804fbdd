-- ===== src/Tss.antt =====
-- packages/tss/lib: threshold signatures. One guard at a time may ask the others to sign a message;
-- those that hold the message approve, and with enough approvals all of them call the tss service.
pub mod State
pub mod Turns
pub mod Queue
pub mod Schemes
pub mod Approved
pub mod Requests
pub mod Round
pub mod Approvals
pub mod Results
pub mod Dispatch
pub mod Quorum
pub mod Queueing
pub mod Distinct
pub mod Starting
pub mod Consent
pub mod Settling
pub mod Rotation
pub mod Reachable

-- ===== src/Dialer.antt =====
-- services/keygen-service/src/communication/Dialer.ts: how the guards of a key generation reach
-- each other, over libp2p and its relays.
pub mod State
pub mod Channels
pub mod Peers
pub mod Queue

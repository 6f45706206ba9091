-- ===== src/P2p.antt =====
-- The TCP hole punching programs p2p_transfer_server and p2p_transfer_peer.
pub mod Log
pub mod Message
pub mod Devices
pub mod Server
pub mod Transfer
pub mod Peer
pub mod Client
pub mod Hole
mod Tests

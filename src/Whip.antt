-- ===== src/Whip.antt =====
-- internal/whip: the WHIP endpoint and the tracks of its peer connections.
pub mod Tracks
pub mod Handler
pub mod Peer

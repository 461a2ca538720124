-- ===== src/Transport.antt =====
-- The transports of peerq/transport.py, one module for each.
pub mod Message
pub mod Freshness
pub mod Tcp
pub mod Http
pub mod Sim

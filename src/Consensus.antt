-- ===== src/Consensus.antt =====
-- peerq/consensus.py: vector clocks, task records and their merge.
pub mod Clock
pub mod Record
pub mod Lattice
pub mod Merge
pub mod Wire

-- ===== src/Consensus.antt =====
-- pkg/consensus: the agreement on batches, and the Powers of Tau ceremony.
pub mod Ceremony
pub mod Types
pub mod Pbft
pub mod Rounds
pub mod Crs
pub mod Handler

-- ===== src/Consensus.antt =====
-- One node's part in the consensus: internal/consensus. Each child says which code it is about.
pub mod HeightVoteSet
pub mod State
pub mod Enter
pub mod Commit
pub mod Votes
pub mod Handle
pub mod Protocol
pub mod Refinement
pub mod Runs

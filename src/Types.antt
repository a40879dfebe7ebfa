-- ===== src/Types.antt =====
-- The data that validators agree on: identifiers, votes, validator sets and commits (types/).
pub mod BlockId
pub mod PartSet
pub mod Vote
pub mod ValidatorSet
pub mod Commit
pub mod Validation
pub mod VoteSet
pub mod Fixtures

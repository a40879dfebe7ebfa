-- ===== src/Lib.antt =====
-- A verification library for the core of this Tendermint fork: what validators sign, how their votes
-- are collected, and how commits are verified.
--
-- Parts and files.
-- - Prelude: shared names, signed integers, int64 bit patterns, bytes, maps and call outcomes.
-- - SafeMath: checked arithmetic (libs/math, the end of types/validator_set.go).
-- - Types: BlockId and PartSet (types/part_set.go, types/block.go), Vote (types/vote.go,
--   types/canonical.go), ValidatorSet with its Updates, its Rotation and its Creation
--   (types/validator_set.go, types/validator.go),
--   Commit (types/block.go), Validation (types/validation.go) and VoteSet (types/vote_set.go), each
--   with its theorems in child modules. VoteSet/MakeCommit is the commit of a vote set and the way
--   back (types/vote_set.go, types/vote.go, types/block.go).
-- - Merkle: hash trees, recursive and level by level, and inclusion proofs (crypto/merkle/hash.go,
--   tree.go, proof.go), KeyPath (proof_key_path.go) and chained proofs, Operators (proof_op.go,
--   proof_value.go, types.go), with SHA-256 as a parameter.
-- - Light: headers and their hash (types/block.go, types/light.go, types/encoding_helper.go), and the
--   light client's checks (light/verifier.go).
-- - Privval: the file private validator (privval/file.go) and a signer over time.
-- - Consensus: one node's consensus (internal/consensus/state.go, internal/consensus/types). State,
--   Enter, Commit, Votes and Handle are its functions, HeightVoteSet the votes of a height. Protocol
--   gives the rules of locking as moves and their invariant, with the chain of the states that the
--   block executor, a parameter, makes of the blocks that are committed; Refinement shows each
--   function to follow them, and Runs draws the guarantees for every run.
-- - Statesync: the queue of the chunks of a snapshot (internal/statesync/chunks.go), with a disk whose
--   operations may fail.
--
-- How the code is read. A struct is a record and a method returns the new record. A call returns,
-- returns an error or panics (Prelude/Outcome). Heights and rounds are integers; voting powers are
-- not negative, and their sums are bit patterns modulo 2 ^ 64 that are read as int64. The number
-- of the parts of a block and their bounds are computed modulo 2 ^ 32. A division by 0 panics
-- where a ratio of priorities or a part size divides. A byte slice is a list of numbers, a Go map
-- an association list, a bit array the list of its bits. Locks serialise calls and are left out.
-- Signature schemes, batch verifiers and generated protobuf encoders are parameters; a theorem
-- that relies on their documented behaviour says so.
--
-- Loops recur on the list that they go over. The Merkle tree recurs on fuel, for which the number of
-- the items is given: each half has fewer items. Level by level, the fuel is one more than the number
-- of the hashes, of which each level has fewer. `bits.Len` has 64 as its fuel, as many digits as a
-- uint has, and `binary.PutUvarint` has 10, as many bytes as a uint64 takes. A Merkle proof is read
-- from the root down, so it recurs on the list of its aunts. Of the standard library, key paths use
-- the escapes of net/url, hexadecimal digits and the split at slashes, which are written out.
--
-- Not modelled: networking, storage, RPC and generated code; of the consensus, the write-ahead log,
-- making a proposal, and times; of state sync, the reactor, the syncer and the snapshot pool; and for
-- now block sync, the mempool and evidence.
pub mod Prelude
pub mod SafeMath
pub mod Types
pub mod Merkle
pub mod Light
pub mod Privval
pub mod Consensus
pub mod Statesync

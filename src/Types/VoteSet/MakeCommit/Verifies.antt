-- ===== src/Types/VoteSet/MakeCommit/Verifies.antt =====
-- What MakeCommit (types/vote_set.go) makes of a majority is accepted by VerifyCommit
-- (types/validation.go).
use relaychainmodel.Prelude.{Bool, List, Option, length, ℕ, ◌<◌, ◌≡◌}
use relaychainmodel.Prelude.Bytes.{Bytes}
use relaychainmodel.Prelude.Outcome.{Outcome}
use relaychainmodel.Types.BlockId.{BlockId, PartSetHeader, empty_block_id, hash_size}
use relaychainmodel.Types.Vote.{Crypto, Vote}
use relaychainmodel.Types.ValidatorSet.{ValidatorSet}
use relaychainmodel.Types.Commit.{Commit, CommitSig, for_block}
use relaychainmodel.Types.VoteSet.{Config, VoteSet, vote_at}
use relaychainmodel.Types.VoteSet.MakeCommit.Slots.{slot}

-- The encoding of part set headers tells them apart, and the encoding of the empty one is shorter than
-- a hash.
pub record Encodes (k : Crypto) : Type 0 where
  pub injective : (p q : PartSetHeader) → k.marshal_header p ≡ k.marshal_header q → p ≡ q
  pub short : length (k.marshal_header empty_block_id.part_set_header) < hash_size

module _ (k : Crypto) (cfg : Config) (m : BlockId) (sigs : List CommitSig)
    (primary : List (Option Vote)) where
  -- The commit for a block, and whether the primary vote of an index is for it.
  abbrev made : Commit
  made = record { height = cfg.height; round = cfg.round; block_id = m; signatures = sigs }

  abbrev votes_for : ℕ → Bool
  votes_for i = for_block (slot m (vote_at primary i))

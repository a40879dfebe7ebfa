-- ===== src/Types/VoteSet/Readers.antt =====
-- The methods of types/vote_set.go that read a set.
use relaychainmodel.Prelude.{
  Bool, List, Option, false, if◌then◌else◌, leb, length, none, not, some, ℕ, ◌==◌,
}
use relaychainmodel.Prelude.Int.{ltb_ℤ}
use relaychainmodel.Prelude.Int64.{to_int64}
use relaychainmodel.Prelude.Map.{lookup}
use relaychainmodel.Types.BlockId.{BlockId}
use relaychainmodel.Types.Vote.{Crypto, Vote, precommit_type}
use relaychainmodel.Types.ValidatorSet.{total_voting_power, two_thirds}
use relaychainmodel.Types.VoteSet.{VoteSet, is_some, key, vote_at}

-- `HasTwoThirdsMajority`, `TwoThirdsMajority`
abbrev pub two_thirds_majority : VoteSet → Option BlockId
two_thirds_majority s = s.maj23

-- `IsCommit`
abbrev pub is_commit : VoteSet → Bool
is_commit s = if not (s.signed_msg_type == precommit_type) then false else is_some s.maj23

-- `HasTwoThirdsAny`; `none` where the total panics.
unfoldable pub has_two_thirds_any : VoteSet → Option Bool
has_two_thirds_any s = elim (total_voting_power s.val_set) [
  | none ↦ none
  | some total ↦ some (ltb_ℤ (two_thirds total) (to_int64 s.sum))
]

-- `HasAll`
unfoldable pub has_all : VoteSet → Option Bool
has_all s = elim (total_voting_power s.val_set) [ none ↦ none | some total ↦ some (s.sum == total) ]

-- `BitArrayByBlockID`
abbrev pub bit_array_by_block_id : Crypto → VoteSet → BlockId → Option (List Bool)
bit_array_by_block_id k s b = elim (lookup (key k b) s.votes_by_block) [
  | none ↦ none
  | some v ↦ some v.bit_array
]

-- `GetByIndex`
abbrev pub vote_by_index : VoteSet → ℕ → Option Vote
vote_by_index s i = if leb (length s.votes) i then none else vote_at s.votes i

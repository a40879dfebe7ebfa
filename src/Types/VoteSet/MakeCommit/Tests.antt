-- ===== src/Types/VoteSet/MakeCommit/Tests.antt =====
-- A commit of four precommits, one of them for nil, and the theorems at it.
use relaychainmodel.Prelude.{[], false, none, some, ℕ, ◌∷◌}
use relaychainmodel.Prelude.Int.{pos}
use relaychainmodel.Prelude.Bytes.{bytes_eq}
use relaychainmodel.Prelude.Outcome.{err, ok, panics}
use relaychainmodel.Prelude.Int64.{mul_int64, quot_int64}
use relaychainmodel.Prelude.Map.{insert, lookup}
use relaychainmodel.Types.Fixtures.{block, toy_crypto, validator, vote_by}
use relaychainmodel.Types.BlockId.{BlockId, empty_block_id, is_complete, is_zero}
use relaychainmodel.Types.Vote.{Vote, precommit_type, verify, vote_sign_bytes}
use relaychainmodel.Types.ValidatorSet.{ValidatorSet, get_proposer, total_voting_power}
use relaychainmodel.Types.Commit.{Commit}
use relaychainmodel.Types.Validation.Commits.{verify_commit}
use relaychainmodel.Types.VoteSet.{Config, VoteSet, add_vote, new_block_votes, new_vote_set}
use relaychainmodel.Types.VoteSet.MakeCommit.{commit_to_vote_set, make_commit}

abbrev four_validators : ValidatorSet
four_validators = record {
  validators = validator 1 10 ∷ validator 2 10 ∷ validator 3 10 ∷ validator 4 10 ∷ [];
  proposer = some (validator 1 10);
  total_voting_power = 0;
}

abbrev cfg : Config
cfg = record {
  chain_id = [];
  height = pos 7;
  round = pos 0;
  signed_msg_type = precommit_type;
  val_set = four_validators;
}

abbrev start : VoteSet
start = record {
  config = cfg;
  votes_bit_array = false ∷ false ∷ false ∷ false ∷ [];
  votes = none ∷ none ∷ none ∷ none ∷ [];
  sum = 0;
  maj23 = none;
  votes_by_block = [];
  peer_maj23s = [];
}

all_calls : Unit {0}
unfolding add_vote new_vote_set new_block_votes quot_int64 mul_int64 vote_sign_bytes verify
    total_voting_power bytes_eq lookup insert make_commit commit_to_vote_set verify_commit
    get_proposer is_complete is_zero
all_calls = tt

abbrev precommit_by : ℕ → BlockId → Vote
precommit_by i b = record (vote_by i b) { type = precommit_type }

abbrev after : VoteSet → Vote → VoteSet
after s v = elim (add_vote toy_crypto s (some v)) [
  | ok (s', added, e) ↦ s'
  | err e ↦ s
  | panics ↦ s
]

abbrev one : VoteSet
one = after start (precommit_by 0 (block 4))

abbrev two : VoteSet
two = after one (precommit_by 3 empty_block_id)

abbrev three : VoteSet
three = after two (precommit_by 1 (block 4))

abbrev voted : VoteSet
voted = after three (precommit_by 2 (block 4))

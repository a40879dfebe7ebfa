-- ===== src/Types/Fixtures.antt =====
-- Concrete data for the tests: three validators, a block, and toy signatures that repeat the key.
use relaychainmodel.Prelude.{Bool, List, [], map, none, replicate, some, suc, true, ℕ, ◌&&◌, ◌∷◌}
use relaychainmodel.Prelude.Int.{pos}
use relaychainmodel.Prelude.Bytes.{bytes_eq}
use relaychainmodel.Types.BlockId.{BlockId}
use relaychainmodel.Types.Vote.{Crypto, Vote, prevote_type}
use relaychainmodel.Types.ValidatorSet.{Validator, ValidatorSet}
use relaychainmodel.Types.Commit.{Commit, CommitSig, commit_flag}
use relaychainmodel.Types.Validation.Batch.{Entry, BatchVerifier}

abbrev pub toy_crypto : Crypto
toy_crypto = record {
  address = λ k. k;
  verify_signature = λ k m s. bytes_eq s k;
  marshal_vote = λ v. some (elim v.block_id [ none ↦ 0 ∷ [] | some b ↦ 1 ∷ [] ]);
  marshal_header = λ p. p.total ∷ p.hash;
}

abbrev all_repeat : List Entry → Bool
all_repeat [] = true
all_repeat (e ∷ es) = bytes_eq e.signature e.pub_key && all_repeat es

abbrev flags : List Entry → List Bool
flags = map (λ e. bytes_eq e.signature e.pub_key)

abbrev pub toy_batch : BatchVerifier
toy_batch = record {
  supports = λ k. true;
  add = λ k m s. true;
  verify_all = λ es. (all_repeat es, flags es);
}

abbrev pub validator : ℕ → ℕ → Validator
validator k power = record {
  address = k ∷ [];
  pub_key = k ∷ [];
  voting_power = power;
  proposer_priority = pos 0;
}

abbrev pub three_validators : ValidatorSet
three_validators = record {
  validators = validator 1 10 ∷ validator 2 10 ∷ validator 3 10 ∷ [];
  proposer = some (validator 1 10);
  total_voting_power = 0;
}

abbrev pub block : ℕ → BlockId
block n = record {
  hash = replicate 32 n;
  part_set_header = record { total = 1; hash = replicate 32 n };
}

abbrev pub sig_by : ℕ → CommitSig
sig_by k = record {
  block_id_flag = commit_flag;
  validator_address = k ∷ [];
  timestamp = pos 5;
  signature = k ∷ [];
}

abbrev pub three_commit : BlockId → Commit
three_commit b = record {
  height = pos 7;
  round = pos 0;
  block_id = b;
  signatures = sig_by 1 ∷ sig_by 2 ∷ sig_by 3 ∷ [];
}

-- A prevote of height 7 by the validator at an index.
abbrev pub vote_by : ℕ → BlockId → Vote
vote_by i b = record {
  type = prevote_type;
  height = pos 7;
  round = pos 0;
  block_id = b;
  timestamp = pos 5;
  validator_address = suc i ∷ [];
  validator_index = pos i;
  signature = suc i ∷ [];
}

-- ===== src/Light/Tests.antt =====
-- Runs of the light client's checks on two headers, and the theorems at these inputs.
use relaychainmodel.Prelude.{
  Bool, [], arith, false, inl, length, refl, replicate, some, true, ℕ, ◌*◌, ◌<◌, ◌∷◌, ◌≡◌,
}
use relaychainmodel.Prelude.Int.{pos, ℤ, ◌<ℤ◌}
use relaychainmodel.Prelude.Bytes.{Bytes, bytes_eq, slice}
use relaychainmodel.Prelude.Outcome.{err, ok}
use relaychainmodel.Prelude.Int64.{mul_int64, quot_int64}
use relaychainmodel.SafeMath.{Fraction, safe_mul}
use relaychainmodel.Types.BlockId.{BlockId, empty_block_id, validate_hash}
use relaychainmodel.Types.Fixtures.{toy_crypto, toy_batch}
use relaychainmodel.Types.Validation.Tests.{toy-IsSound}
use relaychainmodel.Types.BlockId
use relaychainmodel.Types.Commit
use relaychainmodel.Types.Commit.{Commit, CommitSig, commit_flag, sig_validate_basic}
use relaychainmodel.Types.ValidatorSet.{Validator, ValidatorSet, IsValid, power, total_voting_power}
use relaychainmodel.Types.ValidatorSet.Power.{power_of}
use relaychainmodel.Types.Validation.Commits.{
  light_run, verify_commit_light, verify_commit_light_trusting,
}
use relaychainmodel.Types.Validation.Soundness.{Signed}
use relaychainmodel.Types.VoteSet.{suc_int64}
use relaychainmodel.Merkle.{bits_len, split_point, hash_from_byte_slices}
use relaychainmodel.Light.{
  Header, SignedHeader, Hasher, header_hash, validators_hash_of, header_validate_basic,
  signed_validate_basic, verify_new_header_and_vals, verify_adjacent, verify_non_adjacent,
  check_required_header_fields, header_expired, validate_trust_level, verify_new_commit,
  trusting_refused, block_protocol, not_adjacent,
}
use relaychainmodel.Light.Guarantees.{Certified, verify_adjacent_sound, verify_non_adjacent_sound}

abbrev hasher : Hasher
hasher = record {
  sum = λ b. length b ∷ replicate 31 0;
  marshal_version = λ block app. some (block ∷ app ∷ []);
  marshal_time = λ t. some (1 ∷ []);
  marshal_block_id = λ b. some b.hash;
  marshal_string = λ s. some s;
  marshal_int64 = λ n. some (2 ∷ []);
  marshal_bytes = λ b. some b;
  marshal_validator = λ key power. some (power ∷ key);
}

abbrev address_of : ℕ → Bytes
address_of k = replicate 20 k

abbrev validator : ℕ → Validator
validator k = record {
  address = address_of k;
  pub_key = k ∷ [];
  voting_power = 10;
  proposer_priority = pos 0;
}

abbrev vals : ValidatorSet
vals = record {
  validators = validator 1 ∷ validator 2 ∷ validator 3 ∷ [];
  proposer = some (validator 1);
  total_voting_power = 0;
}

vals-IsValid : IsValid vals
unfolding power
vals-IsValid = record { cached = inl refl; capped = omega arith }

abbrev sig_by : ℕ → CommitSig
sig_by k = record {
  block_id_flag = commit_flag;
  validator_address = address_of k;
  timestamp = pos 5;
  signature = k ∷ [];
}

abbrev vals_hash : Bytes
vals_hash = slice (validators_hash_of hasher vals)

-- A header of chain 1 at a height and a time.
abbrev header : ℕ → ℕ → Header
header height time = record {
  version_block = block_protocol;
  version_app = 0;
  chain_id = 1 ∷ [];
  height = pos height;
  time = pos time;
  last_block_id = empty_block_id;
  last_commit_hash = [];
  data_hash = [];
  validators_hash = vals_hash;
  next_validators_hash = vals_hash;
  consensus_hash = [];
  app_hash = [];
  last_results_hash = [];
  evidence_hash = [];
  proposer_address = replicate 20 1;
}

abbrev new_commit : Commit
new_commit = record {
  height = pos 7;
  round = pos 0;
  block_id = record {
    hash = slice (header_hash hasher (header 7 100));
    part_set_header = record { total = 1; hash = replicate 32 1 };
  };
  signatures = sig_by 1 ∷ sig_by 2 ∷ sig_by 3 ∷ [];
}

abbrev new_header : SignedHeader
new_header = record { header = header 7 100; commit = some new_commit }

abbrev level : Fraction
level = record { numerator = 1; denominator = 3 }

all_calls : Unit {0}
unfolding verify_adjacent verify_non_adjacent verify_new_commit verify_new_header_and_vals
    signed_validate_basic header_validate_basic header_hash validators_hash_of header_expired
    check_required_header_fields validate_trust_level trusting_refused verify_commit_light
    verify_commit_light_trusting quot_int64 mul_int64 total_voting_power safe_mul bytes_eq
    split_point bits_len validate_hash BlockId.validate_basic Commit.validate_basic
    sig_validate_basic hash_from_byte_slices
all_calls = tt

accepts_next :
    verify_adjacent toy_crypto toy_batch hasher
      (header 6 90)
      new_header
      vals
      (pos 1000)
      (pos 110)
      (pos 10)
    ≡ ok tt
unfolding all_calls
accepts_next = refl

refuses_later :
    verify_adjacent toy_crypto toy_batch hasher
      (header 5 90)
      new_header
      vals
      (pos 1000)
      (pos 110)
      (pos 10)
    ≡ err not_adjacent
unfolding all_calls
refuses_later = refl

accepts_later :
    verify_non_adjacent toy_crypto toy_batch hasher
      (header 5 90)
      vals
      new_header
      vals
      (pos 1000)
      (pos 110)
      (pos 10)
      level
    ≡ ok tt
unfolding all_calls
accepts_later = refl

verify_adjacent_sound_example :
    (new_header.header.height ≡ suc_int64 (pos 6))
    × (vals_hash ≡ vals_hash)
    × (commit : Commit) × Certified toy_crypto toy_batch hasher
        (header 6 90)
        new_header
        vals
        (pos 1000)
        (pos 110)
        (pos 10)
        commit
verify_adjacent_sound_example =
    verify_adjacent_sound toy_crypto toy_batch hasher (header 6 90) new_header vals (pos 1000)
      (pos 110) (pos 10) toy-IsSound vals-IsValid accepts_next

verify_non_adjacent_sound_example :
    (pos 5 <ℤ pos 7)
    × (commit : Commit) × Certified toy_crypto toy_batch hasher
        (header 5 90)
        new_header
        vals
        (pos 1000)
        (pos 110)
        (pos 10)
        commit
    × (needed : ℤ) × (q : ℕ → Bool) × ((i : ℕ)
        → q i ≡ true
        → Signed toy_crypto (light_run false (1 ∷ []) vals commit needed) i)
    × (power vals.validators * 1 < 3 * power_of q vals.validators)
verify_non_adjacent_sound_example =
    verify_non_adjacent_sound toy_crypto toy_batch hasher (header 5 90) new_header vals (pos 1000)
      (pos 110) (pos 10) vals level toy-IsSound vals-IsValid vals-IsValid (omega arith)
      (omega arith) accepts_later

-- ===== src/Types/Validation/Commits.antt =====
-- The entry points of types/validation.go: VerifyCommit, VerifyCommitLight and
-- VerifyCommitLightTrusting.
use relaychainmodel.Prelude.{
  Bool, Option, false, if◌then◌else◌, length, none, not, some, true, ℕ, ◌==◌,
}
use relaychainmodel.Prelude.Int.{eq_ℤ, pos, ℤ}
use relaychainmodel.Prelude.Bytes.{Bytes}
use relaychainmodel.Prelude.Outcome.{Outcome, err, ok, panics, ◌>>=◌}
use relaychainmodel.Prelude.Int64.{quot_int64, to_int64}
use relaychainmodel.SafeMath.{Fraction, safe_mul}
use relaychainmodel.Types.BlockId.{BlockId, equals}
use relaychainmodel.Types.Vote.{Crypto}
use relaychainmodel.Types.ValidatorSet.{ValidatorSet, size, total_voting_power, two_thirds}
use relaychainmodel.Types.Commit.{Commit, absent, for_block}
use relaychainmodel.Types.Validation.{
  CommitError, nil_validator_set, nil_commit, zero_denominator, trust_level_overflow,
  invalid_commit_signatures, invalid_commit_height, wrong_block_id, Run,
}
use relaychainmodel.Types.Validation.Batch.{BatchVerifier, verify_commit_run}

-- `verifyBasicValsAndCommit`; a nil pointer is `none`.
unfoldable pub verify_basic :
    Option ValidatorSet → Option Commit → ℤ → BlockId → Outcome CommitError (ValidatorSet × Commit)
unfolding equals
verify_basic none commit height block_id = err nil_validator_set
verify_basic (some vals) none height block_id = err nil_commit
verify_basic (some vals) (some commit) height block_id =
    if not (size vals == length commit.signatures)
    then err (invalid_commit_signatures (size vals) (length commit.signatures))
    else if not (eq_ℤ height commit.height)
    then err (invalid_commit_height height commit.height)
    else if not (equals block_id commit.block_id)
    then err wrong_block_id
    else ok (vals, commit)

-- `TotalVotingPower`, which may panic.
abbrev pub total_or_panic : ValidatorSet → Outcome CommitError ℕ
total_or_panic vals = elim (total_voting_power vals) [ none ↦ panics | some t ↦ ok t ]

-- The arguments of VerifyCommit: absent signatures are ignored, those for the block are counted, and
-- all are checked.
abbrev pub full_run : Bytes → ValidatorSet → Commit → ℤ → Run
full_run chain_id vals commit needed = record {
  chain_id = chain_id;
  vals = vals;
  commit = commit;
  needed = needed;
  ignore_sig = absent;
  count_sig = for_block;
  count_all = true;
  by_index = true;
}

-- The arguments of the two light verifications: signatures for the block alone, up to enough power.
abbrev pub light_run : Bool → Bytes → ValidatorSet → Commit → ℤ → Run
light_run by_index chain_id vals commit needed = record {
  chain_id = chain_id;
  vals = vals;
  commit = commit;
  needed = needed;
  ignore_sig = λ s. not (for_block s);
  count_sig = λ s. true;
  count_all = false;
  by_index = by_index;
}

module _ (c : Crypto) (b : BatchVerifier) (chain_id : Bytes) where
  -- `VerifyCommit`
  unfoldable pub verify_commit :
      Option ValidatorSet → BlockId → ℤ → Option Commit → Outcome CommitError (Unit {0})
  unfolding verify_commit_run verify_basic equals total_voting_power
  verify_commit vals block_id height commit =
      verify_basic vals commit height block_id >>= λ (vals', commit').
      total_or_panic vals' >>= λ total.
      verify_commit_run c b (full_run chain_id vals' commit' (two_thirds total))

  -- `VerifyCommitLight`
  unfoldable pub verify_commit_light :
      Option ValidatorSet → BlockId → ℤ → Option Commit → Outcome CommitError (Unit {0})
  unfolding verify_commit_run verify_basic equals total_voting_power
  verify_commit_light vals block_id height commit =
      verify_basic vals commit height block_id >>= λ (vals', commit').
      total_or_panic vals' >>= λ total.
      verify_commit_run c b (light_run true chain_id vals' commit' (two_thirds total))

  -- `VerifyCommitLightTrusting`
  unfoldable pub verify_commit_light_trusting :
      Option ValidatorSet → Option Commit → Fraction → Outcome CommitError (Unit {0})
  unfolding verify_commit_run
  verify_commit_light_trusting none commit level = err nil_validator_set
  verify_commit_light_trusting (some vals) commit level =
      if level.denominator == 0 then err zero_denominator else elim commit [
        | none ↦ err nil_commit
        | some commit' ↦ total_or_panic vals >>= λ total.
            let (product, overflow) = safe_mul (pos total) (to_int64 level.numerator) in
            if overflow
            then err trust_level_overflow
            else verify_commit_run c b (
                light_run false chain_id vals commit'
                  (quot_int64 product (to_int64 level.denominator)))
      ]

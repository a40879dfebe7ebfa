-- ===== src/Types/Validation/Batch.antt =====
-- Batch verification: shouldBatchVerify and verifyCommitBatch of types/validation.go. The batch
-- verifiers of crypto/batch are parameters.
use relaychainmodel.Prelude.{
  Bool, List, [], false, if◌then◌else◌, leb, length, ltb, none, not, some, true, ℕ, ◌++◌, ◌+◌, ◌||◌,
  ◌∷◌,
}
use relaychainmodel.Prelude.Bytes.{Bytes}
use relaychainmodel.Prelude.Outcome.{Outcome, err, ok, panics, ◌>>=◌}
use relaychainmodel.Types.Vote.{Crypto}
use relaychainmodel.Types.ValidatorSet.{ValidatorSet, get_proposer}
use relaychainmodel.Types.Commit.{Commit, CommitSig}
use relaychainmodel.Types.Validation.{
  CommitError, batch_bug, batch_add_failed, unsupported_batch, wrong_signature, Seen, Run,
  tally_with, check_tally, may_stop, find_validator, sign_bytes, verify_commit_single,
}

-- One signature handed to the batch verifier, with its position in the commit.
pub record Entry : Type 0 where
  pub pub_key : Bytes
  pub message : Bytes
  pub signature : Bytes
  pub position : ℕ

-- The batch verifiers of the key types: whether a key's type has one, whether `Add` takes a
-- signature, and what `Verify` answers for all that were added.
pub record BatchVerifier : Type 0 where
  pub supports : Bytes → Bool
  pub add : Bytes → Bytes → Bytes → Bool
  pub verify_all : List Entry → Bool × List Bool

abbrev pub batch_verify_threshold : ℕ
batch_verify_threshold = 2

-- Whether the proposer's key supports batches; a nil proposer panics.
abbrev pub proposer_supports : BatchVerifier → ValidatorSet → Outcome CommitError Bool
proposer_supports b vals = elim (get_proposer vals) [
  | some (some p) ↦ ok (b.supports p.pub_key)
  | some none ↦ panics
  | none ↦ panics
]

-- `shouldBatchVerify`; `&&` does not ask the proposer where the commit is short.
unfoldable pub should_batch_verify :
    BatchVerifier → ValidatorSet → Commit → Outcome CommitError Bool
unfolding get_proposer
should_batch_verify b vals commit =
    if leb batch_verify_threshold (length commit.signatures)
    then proposer_supports b vals
    else ok false

-- The loop that finds the first invalid signature of a batch.
unfoldable pub first_invalid : List Bool → List Entry → Outcome CommitError (Unit {0})
first_invalid [] es = err batch_bug
first_invalid (true ∷ fs) [] = first_invalid fs []
first_invalid (true ∷ fs) (e ∷ es) = first_invalid fs es
first_invalid (false ∷ fs) [] = panics
first_invalid (false ∷ fs) (e ∷ es) = err (wrong_signature e.position)

module _ (c : Crypto) (b : BatchVerifier) (r : Run) where
  -- The loop of `verifyCommitBatch` from position `idx`: the tally and the batch at its end.
  unfoldable pub batch_from :
      ℕ → Seen → ℕ → List Entry → List CommitSig → Outcome CommitError (ℕ × List Entry)
  unfolding find_validator sign_bytes
  batch_from idx seen tally batch [] = ok (tally, batch)
  batch_from idx seen tally batch (sig ∷ sigs) =
      let skip = batch_from (idx + 1) seen tally batch sigs in
      if r.ignore_sig sig then skip else elim (find_validator r.by_index r.vals seen idx sig) [
        | err e ↦ err e
        | panics ↦ panics
        | ok none ↦ skip
        | ok (some (i, v, seen')) ↦ sign_bytes c r.chain_id r.commit idx >>= λ message.
            let e : Entry = record {
              pub_key = v.pub_key;
              message = message;
              signature = sig.signature;
              position = idx;
            } in
            let tally' = tally_with r tally sig v in
            let batch' = batch ++ (e ∷ []) in
            let rest = batch_from (idx + 1) seen' tally' batch' sigs in
            if not (b.add v.pub_key message sig.signature)
            then err batch_add_failed
            else if may_stop r tally'
            then ok (tally', batch')
            else rest
      ]

  -- What follows the loop: the tally, then the batch.
  unfoldable pub finish_batch : ℕ × List Entry → Outcome CommitError (Unit {0})
  unfolding first_invalid
  finish_batch (tally, batch) = check_tally r tally >>= λ _.
      let (all_ok, valid_sigs) = b.verify_all batch in
      if all_ok then ok tt else first_invalid valid_sigs batch

  -- `verifyCommitBatch`
  unfoldable pub verify_commit_batch : Outcome CommitError (Unit {0})
  unfolding batch_from finish_batch get_proposer
  verify_commit_batch = proposer_supports b r.vals >>= λ supported.
      if not supported || ltb (length r.commit.signatures) batch_verify_threshold
      then err unsupported_batch
      else batch_from 0 [] 0 [] r.commit.signatures >>= finish_batch

  -- Batch verification where it is supported, else one signature at a time.
  unfoldable pub verify_commit_run : Outcome CommitError (Unit {0})
  unfolding verify_commit_batch verify_commit_single should_batch_verify
  verify_commit_run = should_batch_verify b r.vals r.commit >>= λ batch.
      if batch then verify_commit_batch else verify_commit_single c r

-- ===== src/Types/Validation.antt =====
-- Verification of commits: types/validation.go. A signature may be looked up by its position in the
-- commit or by its validator's address; the loops stop where the source returns, breaks or continues.
pub mod Batch
pub mod Commits
pub mod Equivalence
pub mod Soundness
pub mod Guarantees
pub mod Tests
use relaychainmodel.Prelude.{
  Bool, List, Option, [], false, get_elem?, if◌then◌else◌, none, not, some, true, ℕ, ◌&&◌, ◌+◌,
  ◌==◌, ◌∷◌,
}
use relaychainmodel.Prelude.Int.{leb_ℤ, ltb_ℤ, ℤ}
use relaychainmodel.Prelude.Bytes.{Bytes}
use relaychainmodel.Prelude.Outcome.{Outcome, err, ok, panics, ◌>>=◌}
use relaychainmodel.Prelude.Int64.{add_int64, to_int64}
use relaychainmodel.Types.Vote.{Crypto}
use relaychainmodel.Types.ValidatorSet.{Validator, ValidatorSet, get_by_address}
use relaychainmodel.Types.Commit.{Commit, CommitSig, commit_sign_bytes}

pub data CommitError : Type 0 where
  nil_validator_set nil_commit zero_denominator trust_level_overflow : CommitError
  invalid_commit_signatures : ℕ → ℕ → CommitError
  invalid_commit_height : ℤ → ℤ → CommitError
  wrong_block_id : CommitError
  double_vote : ℕ → ℕ → CommitError
  wrong_signature : ℕ → CommitError
  not_enough_voting_power : ℤ → ℤ → CommitError
  unsupported_batch batch_add_failed batch_bug : CommitError

-- `seenVals`: validator index to position of the first signature.
abbrev pub Seen : Type 0
Seen = List (ℕ × ℕ)

unfoldable pub lookup_seen : ℕ → Seen → Option ℕ
lookup_seen i [] = none
lookup_seen i ((j, n) ∷ m) = if i == j then some n else lookup_seen i m

-- The lookup of a signature's validator in both loops: `none` is `continue`. With the validator
-- come its index and the new `seenVals`.
unfoldable pub find_validator :
    Bool → ValidatorSet → Seen → ℕ → CommitSig → Outcome CommitError (Option (ℕ × Validator × Seen))
unfolding lookup_seen get_by_address
find_validator true vals seen idx sig = elim (get_elem? vals.validators idx) [
  | none ↦ panics
  | some v ↦ ok (some (idx, v, seen))
]
find_validator false vals seen idx sig = elim (get_by_address vals sig.validator_address) [
  | none ↦ ok none
  | some (i, v) ↦ elim (lookup_seen i seen) [
    | some first ↦ err (double_vote first idx)
    | none ↦ ok (some (i, v, (i, idx) ∷ seen))
  ]
]

-- The sign bytes of the signature at a position, in the error type of this file.
unfoldable pub sign_bytes : Crypto → Bytes → Commit → ℕ → Outcome CommitError Bytes
unfolding commit_sign_bytes
sign_bytes c chain_id commit idx = elim (commit_sign_bytes c chain_id commit idx) [
  | ok m ↦ ok m
  | err e ↦ panics
  | panics ↦ panics
]

-- The parameters of a run of a loop.
pub record Run : Type 0 where
  pub chain_id : Bytes
  pub vals : ValidatorSet
  pub commit : Commit
  pub needed : ℤ
  pub ignore_sig : CommitSig → Bool
  pub count_sig : CommitSig → Bool
  pub count_all : Bool
  pub by_index : Bool

-- `if countSig(commitSig) { talliedVotingPower += val.VotingPower }`
abbrev pub tally_with : Run → ℕ → CommitSig → Validator → ℕ
tally_with r tally sig v = if r.count_sig sig then add_int64 tally v.voting_power else tally

-- The check of the tally after either loop.
abbrev pub check_tally : Run → ℕ → Outcome CommitError (Unit {0})
check_tally r tally =
    if leb_ℤ (to_int64 tally) r.needed
    then err (not_enough_voting_power (to_int64 tally) r.needed)
    else ok tt

-- `!countAllSignatures && talliedVotingPower > votingPowerNeeded`
abbrev pub may_stop : Run → ℕ → Bool
may_stop r tally = not r.count_all && ltb_ℤ r.needed (to_int64 tally)

module _ (c : Crypto) (r : Run) where
  -- The loop of `verifyCommitSingle` from position `idx`, with its check of the tally.
  unfoldable pub single_from : ℕ → Seen → ℕ → List CommitSig → Outcome CommitError (Unit {0})
  unfolding find_validator sign_bytes
  single_from idx seen tally [] = check_tally r tally
  single_from idx seen tally (sig ∷ sigs) =
      let skip = single_from (idx + 1) seen tally sigs in
      if r.ignore_sig sig then skip else elim (find_validator r.by_index r.vals seen idx sig) [
        | err e ↦ err e
        | panics ↦ panics
        | ok none ↦ skip
        | ok (some (i, v, seen')) ↦ sign_bytes c r.chain_id r.commit idx >>= λ message.
            let tally' = tally_with r tally sig v in
            let rest = single_from (idx + 1) seen' tally' sigs in
            if not (c.verify_signature v.pub_key message sig.signature)
            then err (wrong_signature idx)
            else if may_stop r tally'
            then ok tt
            else rest
      ]

  -- `verifyCommitSingle`
  unfoldable pub verify_commit_single : Outcome CommitError (Unit {0})
  unfolding single_from
  verify_commit_single = single_from 0 [] 0 r.commit.signatures

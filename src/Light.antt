-- ===== src/Light.antt =====
-- Headers and the light client's checks: Header and its hash of types/block.go, SignedHeader of
-- types/light.go, cdcEncode of types/encoding_helper.go and light/verifier.go. A time is the number
-- of nanoseconds since the zero time. The headers and validator sets that the checks are given are
-- there: a nil one panics when its first field is read.
pub mod Guarantees
mod Tests
use relaychainmodel.Prelude.{
  Bool, List, Option, [], if◌then◌else◌, leb, length, ltb, none, not, some, ℕ, ◌%◌, ◌*◌, ◌==◌, ◌||◌,
  ◌∷◌,
}
use relaychainmodel.Prelude.Int.{eq_ℤ, leb_ℤ, ltb_ℤ, pos, ℤ, ◌+ℤ◌}
use relaychainmodel.Prelude.Bytes.{Bytes, bytes_eq, slice}
use relaychainmodel.Prelude.Outcome.{Outcome, err, fail_if, ok, panic_if, panics, ◌>>=◌, ◌>>◌}
use relaychainmodel.Prelude.Int64.{two64}
use relaychainmodel.SafeMath.{Fraction}
use relaychainmodel.Types.BlockId.{BlockId, validate_hash, is_empty}
use relaychainmodel.Types.BlockId
use relaychainmodel.Types.Vote.{Crypto}
use relaychainmodel.Types.ValidatorSet.{Validator, ValidatorSet}
use relaychainmodel.Types.Commit.{Commit, CommitBasicError, address_size}
use relaychainmodel.Types.Commit
use relaychainmodel.Types.Validation.{CommitError, not_enough_voting_power}
use relaychainmodel.Types.Validation.Batch.{BatchVerifier}
use relaychainmodel.Types.Validation.Commits.{verify_commit_light, verify_commit_light_trusting}
use relaychainmodel.Types.VoteSet.{suc_int64}
use relaychainmodel.Merkle.{hash_from_byte_slices}

-- `version.BlockProtocol`
abbrev pub block_protocol : ℕ
block_protocol = 11

abbrev pub max_chain_id_len : ℕ
max_chain_id_len = 50

pub record Header : Type 0 where
  pub version_block : ℕ
  pub version_app : ℕ
  pub chain_id : Bytes
  pub height : ℤ
  pub time : ℤ
  pub last_block_id : BlockId
  pub last_commit_hash : Bytes
  pub data_hash : Bytes
  pub validators_hash : Bytes
  pub next_validators_hash : Bytes
  pub consensus_hash : Bytes
  pub app_hash : Bytes
  pub last_results_hash : Bytes
  pub evidence_hash : Bytes
  pub proposer_address : Bytes

pub record SignedHeader : Type 0 where
  pub header : Header
  pub commit : Option Commit

-- SHA-256 and the generated encoders, which give `none` where they return an error.
pub record Hasher : Type 0 where
  pub sum : Bytes → Bytes
  pub marshal_version : ℕ → ℕ → Option Bytes
  pub marshal_time : ℤ → Option Bytes
  pub marshal_block_id : BlockId → Option Bytes
  pub marshal_string : Bytes → Option Bytes
  pub marshal_int64 : ℤ → Option Bytes
  pub marshal_bytes : Bytes → Option Bytes
  pub marshal_validator : Bytes → ℕ → Option Bytes

-- Why a header is invalid.
pub data HeaderError : Type 0 where
  wrong_protocol chain_id_too_long negative_height zero_height : HeaderError
  wrong_last_block_id wrong_hash wrong_proposer_address : HeaderError
  missing_commit wrong_chain commit_height_mismatch other_block : HeaderError
  height_not_later time_not_later time_from_future time_not_earlier : HeaderError
  other_validators other_next_validators other_last_block : HeaderError
  wrong_commit : CommitBasicError → HeaderError
  commit_refused : CommitError → HeaderError

pub data LightError : Type 0 where
  not_adjacent adjacent wrong_trust_level : LightError
  old_header_expired : ℤ → ℤ → LightError
  new_val_set_cant_be_trusted : ℤ → ℤ → LightError
  invalid_header : HeaderError → LightError

-- `Header.ValidateBasic`
unfoldable pub header_validate_basic : Header → Outcome HeaderError (Unit {0})
header_validate_basic h = do
  fail_if (not (h.version_block == block_protocol)) wrong_protocol
  fail_if (ltb max_chain_id_len (length h.chain_id)) chain_id_too_long
  fail_if (ltb_ℤ h.height (pos 0)) negative_height
  fail_if (eq_ℤ h.height (pos 0)) zero_height
  fail_if (not (BlockId.validate_basic h.last_block_id)) wrong_last_block_id
  fail_if (not (validate_hash h.last_commit_hash)) wrong_hash
  fail_if (not (validate_hash h.data_hash)) wrong_hash
  fail_if (not (validate_hash h.evidence_hash)) wrong_hash
  fail_if (not (length h.proposer_address == address_size)) wrong_proposer_address
  fail_if (not (validate_hash h.validators_hash)) wrong_hash
  fail_if (not (validate_hash h.next_validators_hash)) wrong_hash
  fail_if (not (validate_hash h.consensus_hash)) wrong_hash
  fail_if (not (validate_hash h.last_results_hash)) wrong_hash

module _ (k : Hasher) where
  -- `cdcEncode` of a string, of an int64 and of bytes: nothing for an empty item.
  abbrev pub encode_string : Bytes → Bytes
  encode_string s = if is_empty s then [] else slice (k.marshal_string s)

  abbrev pub encode_int64 : ℤ → Bytes
  encode_int64 n = if eq_ℤ n (pos 0) then [] else slice (k.marshal_int64 n)

  abbrev pub encode_bytes : Bytes → Bytes
  encode_bytes b = if is_empty b then [] else slice (k.marshal_bytes b)

  -- The encoded fields that `Header.Hash` hashes.
  abbrev pub fields : Header → Bytes → Bytes → Bytes → List Bytes
  fields h version time last =
      version
      ∷ encode_string h.chain_id
      ∷ encode_int64 h.height
      ∷ time
      ∷ last
      ∷ encode_bytes h.last_commit_hash
      ∷ encode_bytes h.data_hash
      ∷ encode_bytes h.validators_hash
      ∷ encode_bytes h.next_validators_hash
      ∷ encode_bytes h.consensus_hash
      ∷ encode_bytes h.app_hash
      ∷ encode_bytes h.last_results_hash
      ∷ encode_bytes h.evidence_hash
      ∷ encode_bytes h.proposer_address
      ∷ []

  -- `Header.Hash`; `none` is nil.
  unfoldable pub header_hash : Header → Option Bytes
  header_hash h =
      if is_empty h.validators_hash
      then none
      else elim (k.marshal_version h.version_block h.version_app) [
        | none ↦ none
        | some version ↦ elim (k.marshal_time h.time) [
          | none ↦ none
          | some time ↦ elim (k.marshal_block_id h.last_block_id) [
            | none ↦ none
            | some last ↦ some (hash_from_byte_slices k.sum (fields h version time last))
          ]
        ]
      ]

  -- The loop of `ValidatorSet.Hash`; a validator that cannot be encoded panics.
  unfoldable pub validator_bytes : List Validator → Option (List Bytes)
  validator_bytes [] = some []
  validator_bytes (v ∷ vs) = elim (k.marshal_validator v.pub_key v.voting_power) [
    | none ↦ none
    | some b ↦ elim (validator_bytes vs) [ none ↦ none | some bs ↦ some (b ∷ bs) ]
  ]

  -- `ValidatorSet.Hash`; `none` is a panic.
  unfoldable pub validators_hash_of : ValidatorSet → Option Bytes
  unfolding validator_bytes
  validators_hash_of vals = elim (validator_bytes vals.validators) [
    | none ↦ none
    | some bs ↦ some (hash_from_byte_slices k.sum bs)
  ]

  -- `SignedHeader.ValidateBasic`
  unfoldable pub signed_validate_basic : SignedHeader → Bytes → Outcome HeaderError (Unit {0})
  signed_validate_basic sh chain_id = elim sh.commit [
    | none ↦ err missing_commit
    | some commit ↦ header_validate_basic sh.header >>= λ _. elim (Commit.validate_basic commit) [
      | err e ↦ err (wrong_commit e)
      | panics ↦ panics
      | ok u ↦ do
        fail_if (not (bytes_eq sh.header.chain_id chain_id)) wrong_chain
        fail_if (not (eq_ℤ commit.height sh.header.height)) commit_height_mismatch
        fail_if (not (bytes_eq (slice (header_hash sh.header)) commit.block_id.hash)) other_block
    ]
  ]

  -- `verifyNewHeaderAndVals`
  unfoldable pub verify_new_header_and_vals :
      SignedHeader → ValidatorSet → Header → ℤ → ℤ → Outcome HeaderError (Unit {0})
  verify_new_header_and_vals untrusted vals trusted now max_clock_drift = do
    signed_validate_basic untrusted trusted.chain_id
    fail_if (leb_ℤ untrusted.header.height trusted.height) height_not_later
    fail_if (leb_ℤ untrusted.header.time trusted.time) time_not_later
    fail_if (leb_ℤ (now +ℤ max_clock_drift) untrusted.header.time) time_from_future
    elim (validators_hash_of vals) [
      | none ↦ panics
      | some hash ↦ fail_if (not (bytes_eq untrusted.header.validators_hash hash)) other_validators
    ]

-- `checkRequiredHeaderFields`
unfoldable pub check_required_header_fields : Header → Outcome LightError (Unit {0})
check_required_header_fields h = do
  panic_if (eq_ℤ h.height (pos 0))
  panic_if (eq_ℤ h.time (pos 0))
  panic_if (is_empty h.chain_id)

-- `ValidateTrustLevel`; three times the numerator wraps around at 2 ^ 64.
unfoldable pub validate_trust_level : Fraction → Bool
validate_trust_level level = not (
    ltb (level.numerator * 3 % two64) level.denominator
    || (leb level.denominator level.numerator || (level.denominator == 0)))

-- `HeaderExpired`
unfoldable pub header_expired : Header → ℤ → ℤ → Bool
header_expired h trusting_period now = leb_ℤ (h.time +ℤ trusting_period) now

-- `ErrInvalidHeader{err}`
abbrev pub as_invalid : Outcome HeaderError (Unit {0}) → Outcome LightError (Unit {0})
as_invalid (ok u) = ok tt
as_invalid (err e) = err (invalid_header e)
as_invalid panics = panics

abbrev pub refused : Outcome CommitError (Unit {0}) → Outcome LightError (Unit {0})
refused (ok u) = ok tt
refused (err e) = err (invalid_header (commit_refused e))
refused panics = panics

-- The cases of the error of `VerifyCommitLightTrusting`.
unfoldable pub trusting_refused : Outcome CommitError (Unit {0}) → Outcome LightError (Unit {0})
trusting_refused (err (not_enough_voting_power got needed)) =
    err (new_val_set_cant_be_trusted got needed)
trusting_refused (err e) = err (invalid_header (commit_refused e))
trusting_refused (ok u) = ok tt
trusting_refused panics = panics

-- `VerifyBackwards`
unfoldable pub verify_backwards : Hasher → Header → Header → Outcome HeaderError (Unit {0})
verify_backwards k untrusted trusted = do
  header_validate_basic untrusted
  fail_if (not (bytes_eq untrusted.chain_id trusted.chain_id)) wrong_chain
  fail_if (leb_ℤ trusted.time untrusted.time) time_not_earlier
  fail_if (not (bytes_eq (slice (header_hash k untrusted)) trusted.last_block_id.hash))
      other_last_block

module _ (c : Crypto) (b : BatchVerifier) (k : Hasher) where
  -- The last check of both: `VerifyCommitLight` by the new validators. The commit is there, since the
  -- header has passed its basic validation.
  unfoldable pub verify_new_commit :
      Header → SignedHeader → ValidatorSet → Outcome LightError (Unit {0})
  verify_new_commit trusted untrusted vals = elim untrusted.commit [
    | none ↦ panics
    | some commit ↦ refused (
        verify_commit_light c b trusted.chain_id (some vals) commit.block_id untrusted.header.height
          (some commit))
  ]

  -- `VerifyAdjacent`
  unfoldable pub verify_adjacent :
      Header → SignedHeader → ValidatorSet → ℤ → ℤ → ℤ → Outcome LightError (Unit {0})
  verify_adjacent trusted untrusted vals trusting_period now max_clock_drift = do
    check_required_header_fields trusted
    panic_if (is_empty trusted.next_validators_hash)
    fail_if (not (eq_ℤ untrusted.header.height (suc_int64 trusted.height))) not_adjacent
    fail_if (header_expired untrusted.header trusting_period now)
        (old_header_expired (untrusted.header.time +ℤ trusting_period) now)
    as_invalid (verify_new_header_and_vals k untrusted vals trusted now max_clock_drift)
    fail_if (not (bytes_eq untrusted.header.validators_hash trusted.next_validators_hash))
        (invalid_header other_next_validators)
    verify_new_commit trusted untrusted vals

  -- `VerifyNonAdjacent`
  unfoldable pub verify_non_adjacent :
      Header
      → ValidatorSet
      → SignedHeader
      → ValidatorSet
      → ℤ
      → ℤ
      → ℤ
      → Fraction
      → Outcome LightError (Unit {0})
  verify_non_adjacent trusted trusted_vals untrusted vals trusting_period now max_clock_drift
        level =
      do
        check_required_header_fields trusted
        fail_if (eq_ℤ untrusted.header.height (suc_int64 trusted.height)) adjacent
        fail_if (not (validate_trust_level level)) wrong_trust_level
        fail_if (header_expired untrusted.header trusting_period now)
            (old_header_expired (untrusted.header.time +ℤ trusting_period) now)
        as_invalid (verify_new_header_and_vals k untrusted vals trusted now max_clock_drift)
        trusting_refused (
            verify_commit_light_trusting c b trusted.chain_id (some trusted_vals) untrusted.commit
              level)
        verify_new_commit trusted untrusted vals

  -- `Verify`
  unfoldable pub verify :
      Header
      → ValidatorSet
      → SignedHeader
      → ValidatorSet
      → ℤ
      → ℤ
      → ℤ
      → Fraction
      → Outcome LightError (Unit {0})
  verify trusted trusted_vals untrusted vals trusting_period now max_clock_drift level =
      if not (eq_ℤ untrusted.header.height (suc_int64 trusted.height))
      then verify_non_adjacent trusted trusted_vals untrusted vals trusting_period now
          max_clock_drift level
      else verify_adjacent trusted untrusted vals trusting_period now max_clock_drift

-- ===== src/Types/Vote.antt =====
-- Votes and what a validator signs: types/vote.go and types/canonical.go.
use relaychainmodel.Prelude.{Bool, Option, arith, if◌then◌else◌, none, not, some, true, ℕ, ◌≡◌}
use relaychainmodel.Prelude.Int.{ℤ}
use relaychainmodel.Prelude.Bytes.{Bytes, bytes_eq}
use relaychainmodel.Prelude.Outcome.{Outcome, err, ok, panics, ◌>>=◌}
use relaychainmodel.Types.BlockId.{PartSetHeader, BlockId, is_zero, validate_basic}

-- `tmproto.SignedMsgType`; a message may carry any number.
abbrev pub unknown_type : ℕ
unknown_type = 0

abbrev pub prevote_type : ℕ
prevote_type = 1

abbrev pub precommit_type : ℕ
precommit_type = 2

abbrev pub proposal_type : ℕ
proposal_type = 32

pub record Vote : Type 0 where
  pub type : ℕ
  pub height : ℤ  -- int64
  pub round : ℤ  -- int32
  pub block_id : BlockId
  pub timestamp : ℤ
  pub validator_address : Bytes
  pub validator_index : ℤ  -- int32
  pub signature : Bytes

pub record CanonicalVote : Type 0 where
  pub type : ℕ
  pub height : ℤ
  pub round : ℤ
  pub block_id : Option BlockId
  pub timestamp : ℤ
  pub chain_id : Bytes

-- The signature schemes and the generated protobuf encoders, which this library only calls. An
-- encoder that returns an error gives `none`.
pub record Crypto : Type 0 where
  pub address : Bytes → Bytes
  pub verify_signature : Bytes → Bytes → Bytes → Bool
  pub marshal_vote : CanonicalVote → Option Bytes
  pub marshal_header : PartSetHeader → Bytes

pub data VoteError : Type 0 where
  vote_nil unexpected_step invalid_index invalid_address : VoteError
  invalid_signature non_deterministic_signature : VoteError
  conflicting_votes : Vote → Vote → VoteError

-- `CanonicalizeBlockID`: an invalid identifier panics, an empty one is left out.
unfoldable pub canonicalize_block_id : BlockId → Outcome VoteError (Option BlockId)
unfolding validate_basic is_zero
canonicalize_block_id b =
    if not (validate_basic b) then panics else ok (if is_zero b then none else some b)

-- `CanonicalizeVote`
unfoldable pub canonicalize_vote : Bytes → Vote → Outcome VoteError CanonicalVote
unfolding canonicalize_block_id
canonicalize_vote chain_id v = canonicalize_block_id v.block_id >>= λ b. ok (record {
  type = v.type;
  height = v.height;
  round = v.round;
  block_id = b;
  timestamp = v.timestamp;
  chain_id = chain_id;
})

-- `MarshalDelimited`, after which the caller panics on an error.
abbrev pub or_panic : Option Bytes → Outcome VoteError Bytes
or_panic none = panics
or_panic (some b) = ok b

module _ (c : Crypto) where
  -- `VoteSignBytes`
  unfoldable pub vote_sign_bytes : Bytes → Vote → Outcome VoteError Bytes
  unfolding canonicalize_vote
  vote_sign_bytes chain_id v = canonicalize_vote chain_id v >>= λ cv. or_panic (c.marshal_vote cv)

  -- `Vote.Verify`
  unfoldable pub verify : Bytes → Bytes → Vote → Outcome VoteError (Unit {0})
  verify chain_id pub_key v =
      if not (bytes_eq (c.address pub_key) v.validator_address)
      then err invalid_address
      else vote_sign_bytes chain_id v >>= λ message.
          if not (c.verify_signature pub_key message v.signature)
          then err invalid_signature
          else ok tt

  -- A vote that verifies is signed over its sign bytes by the key of its address.
  pub verify-ok :
      (chain_id pub_key : Bytes) (v : Vote)
      → verify chain_id pub_key v ≡ ok tt
      → (bytes_eq (c.address pub_key) v.validator_address ≡ true)
        × (message : Bytes) × (vote_sign_bytes chain_id v ≡ ok message)
        × (c.verify_signature pub_key message v.signature ≡ true)
  unfolding verify
  verify-ok chain_id pub_key v h = ground arith

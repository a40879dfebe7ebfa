-- ===== src/Types/Commit.antt =====
-- Commits: CommitSig and Commit of types/block.go, and NewCommitSigAbsent.
use relaychainmodel.Prelude.{
  Bool, List, [], false, get_elem?, if◌then◌else◌, length, ltb, none, not, some, true, ℕ, ◌+◌, ◌==◌,
  ◌∷◌,
}
use relaychainmodel.Prelude.Int.{eq_ℤ, leb_ℤ, ltb_ℤ, pos, ℤ}
use relaychainmodel.Prelude.Bytes.{Bytes}
use relaychainmodel.Prelude.Outcome.{Outcome, err, ok, panics, ◌>>=◌}
use relaychainmodel.Types.BlockId.{BlockId, empty_block_id, is_zero}
use relaychainmodel.Types.Vote.{Vote, VoteError, Crypto, precommit_type, vote_sign_bytes}

-- `BlockIDFlag`, a byte: 1, 2 and 3 have names.
pub data BlockIdFlag : Type 0 where
  absent_flag commit_flag nil_flag : BlockIdFlag
  unknown_flag : ℕ → BlockIdFlag

pub record CommitSig : Type 0 where
  pub block_id_flag : BlockIdFlag
  pub validator_address : Bytes
  pub timestamp : ℤ
  pub signature : Bytes

pub record Commit : Type 0 where
  pub height : ℤ  -- int64
  pub round : ℤ  -- int32
  pub block_id : BlockId
  pub signatures : List CommitSig

-- `NewCommitSigAbsent`; the zero time is the number 0.
abbrev pub new_commit_sig_absent : CommitSig
new_commit_sig_absent = record {
  block_id_flag = absent_flag;
  validator_address = [];
  timestamp = pos 0;
  signature = [];
}

-- `CommitSig.ForBlock`
abbrev pub for_block : CommitSig → Bool
for_block s = elim s.block_id_flag [ commit_flag ↦ true | _ ↦ false ]

-- `CommitSig.Absent`
abbrev pub absent : CommitSig → Bool
absent s = elim s.block_id_flag [ absent_flag ↦ true | _ ↦ false ]

-- `CommitSig.BlockID`
unfoldable pub sig_block_id : CommitSig → BlockId → Outcome VoteError BlockId
sig_block_id s commit_block_id = elim s.block_id_flag [
  | absent_flag ↦ ok empty_block_id
  | commit_flag ↦ ok commit_block_id
  | nil_flag ↦ ok empty_block_id
  | unknown_flag n ↦ panics
]

-- `Commit.GetVote`
unfoldable pub get_vote : Commit → ℕ → Outcome VoteError Vote
unfolding sig_block_id
get_vote c i = elim (get_elem? c.signatures i) [
  | none ↦ panics
  | some s ↦ sig_block_id s c.block_id >>= λ b. ok (record {
    type = precommit_type;
    height = c.height;
    round = c.round;
    block_id = b;
    timestamp = s.timestamp;
    validator_address = s.validator_address;
    validator_index = pos i;
    signature = s.signature;
  })
]

-- `Commit.VoteSignBytes`
unfoldable pub commit_sign_bytes : Crypto → Bytes → Commit → ℕ → Outcome VoteError Bytes
unfolding get_vote vote_sign_bytes
commit_sign_bytes k chain_id c i = get_vote c i >>= λ v. vote_sign_bytes k chain_id v

abbrev pub address_size : ℕ
address_size = 20

abbrev pub max_signature_size : ℕ
max_signature_size = 64

pub data CommitSigError : Type 0 where
  unknown_block_id_flag address_present time_present signature_present : CommitSigError
  address_length signature_missing signature_too_big : CommitSigError

abbrev known_flag : BlockIdFlag → Bool
known_flag (unknown_flag n) = false
known_flag _ = true

-- `CommitSig.ValidateBasic`
unfoldable pub sig_validate_basic : CommitSig → Outcome CommitSigError (Unit {0})
sig_validate_basic s =
    if not (known_flag s.block_id_flag)
    then err unknown_block_id_flag
    else if absent s
    then if not (length s.validator_address == 0)
      then err address_present
      else if not (eq_ℤ s.timestamp (pos 0))
      then err time_present
      else if not (length s.signature == 0)
      then err signature_present
      else ok tt
    else if not (length s.validator_address == address_size)
    then err address_length
    else if length s.signature == 0
    then err signature_missing
    else if ltb max_signature_size (length s.signature)
    then err signature_too_big
    else ok tt

pub data CommitBasicError : Type 0 where
  negative_height negative_round nil_block no_signatures : CommitBasicError
  wrong_commit_sig : ℕ → CommitSigError → CommitBasicError

-- The loop of `Commit.ValidateBasic` over the signatures from position `i`.
unfoldable pub validate_sigs : ℕ → List CommitSig → Outcome CommitBasicError (Unit {0})
validate_sigs i [] = ok tt
validate_sigs i (s ∷ ss) = elim (sig_validate_basic s) [
  | ok u ↦ validate_sigs (i + 1) ss
  | err e ↦ err (wrong_commit_sig i e)
  | panics ↦ panics
]

-- `Commit.ValidateBasic`
unfoldable pub validate_basic : Commit → Outcome CommitBasicError (Unit {0})
unfolding validate_sigs
validate_basic c =
    if ltb_ℤ c.height (pos 0)
    then err negative_height
    else if ltb_ℤ c.round (pos 0)
    then err negative_round
    else if leb_ℤ (pos 1) c.height
    then if is_zero c.block_id
      then err nil_block
      else if length c.signatures == 0
      then err no_signatures
      else validate_sigs 0 c.signatures
    else ok tt

-- ===== src/Consensus/State.antt =====
-- The state of the consensus: RoundState of internal/consensus/types/round_state.go, what
-- internal/consensus/state.go keeps beside it, and what it sends. `none` is a panic.
use relaychainmodel.Prelude.{
  Bool, List, Option, false, if◌then◌else◌, leb, none, not, some, true, ℕ, ◌&&◌, ◌||◌, ◌∷◌,
}
use relaychainmodel.Prelude.Int.{eq_ℤ, ltb_ℤ, negsuc, pos, ℤ}
use relaychainmodel.Prelude.Bytes.{Bytes, bytes_eq}
use relaychainmodel.Prelude.Outcome.{Outcome, err, ok, panics}
use relaychainmodel.Types.BlockId.{BlockId, is_empty}
use relaychainmodel.Types.Vote.{Crypto}
use relaychainmodel.Types.ValidatorSet.{ValidatorSet, get_by_address}
use relaychainmodel.Types.PartSet.{PartSet}
use relaychainmodel.Types.VoteSet.{VoteSet, is_some}
use relaychainmodel.Types.VoteSet.Readers.{has_two_thirds_any, has_all}
use relaychainmodel.Privval.Canonical.{Proposal, Codec}
use relaychainmodel.Consensus.HeightVoteSet.{HeightVoteSet, majority_of, prevotes_of, precommits_of}

-- The steps of `RoundStepType`.
abbrev pub step_new_height : ℕ
step_new_height = 1

abbrev pub step_new_round : ℕ
step_new_round = 2

abbrev pub step_propose : ℕ
step_propose = 3

abbrev pub step_prevote : ℕ
step_prevote = 4

abbrev pub step_prevote_wait : ℕ
step_prevote_wait = 5

abbrev pub step_precommit : ℕ
step_precommit = 6

abbrev pub step_precommit_wait : ℕ
step_precommit_wait = 7

abbrev pub step_commit : ℕ
step_commit = 8

-- A block, as far as the consensus reads it: the value of `Block.Hash`.
pub record Block : Type 0 where
  pub hash : Bytes

-- The fields of `sm.State` that the consensus reads. It is not the empty state.
pub record ChainState : Type 0 where
  pub chain_id : Bytes
  pub initial_height : ℤ
  pub last_block_height : ℤ
  pub validators : ValidatorSet

-- What the consensus sends or asks for, with the height and the round.
pub data Output : Type 0 where
  sign_vote : ℕ → ℤ → ℤ → BlockId → Output  -- a type of vote
  timeout : ℕ → ℤ → ℤ → Output  -- a step
  decide_proposal : ℤ → ℤ → Output
  commit_block : ℤ → ℤ → BlockId → Block → Output

pub record State : Type 0 where
  pub height : ℤ
  pub round : ℤ
  pub step : ℕ
  pub validators : ValidatorSet
  pub proposal : Option Proposal
  pub proposal_block : Option Block
  pub proposal_block_parts : Option PartSet
  pub locked_round : ℤ
  pub locked_block : Option Block
  pub locked_block_parts : Option PartSet
  pub valid_round : ℤ
  pub valid_block : Option Block
  pub valid_block_parts : Option PartSet
  pub votes : HeightVoteSet
  pub commit_round : ℤ
  pub last_commit : Option VoteSet
  pub triggered_timeout_precommit : Bool
  pub chain : ChainState
  pub sent : List Output  -- the newest first

-- The node: its key's address, its configuration, and the parts of the program and of the world that
-- the consensus asks: SHA-256, encoders, the block executor and the store.
pub record Node : Type 0 where
  pub crypto : Crypto
  pub codec : Codec
  pub sum : Bytes → Bytes
  pub address : Option Bytes
  pub skip_timeout_commit : Bool
  pub wait_for_txs : Bool
  pub empty_blocks_interval : Bool
  pub max_bytes : ℕ
  pub need_proof_block : ℤ → Bool
  pub validate_block : ChainState → Block → Bool
  pub decode_block : Bytes → Option Block
  pub apply_block : ChainState → BlockId → Block → Option ChainState

-- `a ← m; …` where `none` is a panic.
infixl 5 ◌>>=◌
abbrev pub ◌>>=◌ {ℓ κ} : {A : Type ℓ} {B : Type κ} → Option A → (A → Option B) → Option B
none >>= f = none
some a >>= f = f a

-- An outcome that was an error, which is only logged, or a value.
unfoldable pub on_return : {E A B : Type 0} → Outcome E A → Option B → (A → Option B) → Option B
on_return panics x f = none
on_return (err e) x f = x
on_return (ok a) x f = f a

-- The value of an outcome that must be one.
abbrev pub returned_value : {E A : Type 0} → Outcome E A → Option A
returned_value panics = none
returned_value (err e) = none
returned_value (ok a) = some a

abbrev pub send : Output → State → State
send o s = record s { sent = o ∷ s.sent }

-- `updateRoundStep`
abbrev pub update_round_step : ℤ → ℕ → State → State
update_round_step round step s = record s { round = round; step = step }

-- `Block.HashesTo`, on a block that may be nil.
unfoldable pub hashes_to : Option Block → Bytes → Bool
hashes_to none hash = false
hashes_to (some b) hash = if is_empty hash then false else bytes_eq b.hash hash

-- `HasTwoThirdsAny` of a set that may be nil.
abbrev pub any_of : Option VoteSet → Option Bool
any_of none = some false
any_of (some s) = has_two_thirds_any s

abbrev pub all_of : Option VoteSet → Option Bool
all_of none = some false
all_of (some s) = has_all s

abbrev pub polka : State → ℤ → Option BlockId
polka s round = majority_of (prevotes_of s.votes round)

abbrev pub commit_majority : State → ℤ → Option BlockId
commit_majority s round = majority_of (precommits_of s.votes round)

-- `HasAddress`
abbrev pub has_address : ValidatorSet → Bytes → Bool
has_address vals a = is_some (get_by_address vals a)

-- `isProposalComplete`
unfoldable pub is_proposal_complete : State → Bool
is_proposal_complete s = elim s.proposal [
  | none ↦ false
  | some p ↦ elim s.proposal_block [
    | none ↦ false
    | some b ↦ if ltb_ℤ p.pol_round (pos 0) then true else is_some (polka s p.pol_round)
  ]
]

-- `signAddVote`: the private validator is asked to sign a vote for this height and round, if the node
-- has a key of a validator.
unfoldable pub sign_add_vote : Node → ℕ → BlockId → State → State
sign_add_vote n type block_id s = elim n.address [
  | none ↦ s
  | some a ↦
      if not (has_address s.validators a)
      then s
      else send (sign_vote type s.height s.round block_id) s
]

-- What every step begins with: it is not for this height, or for a round that is over.
abbrev pub is_stale : State → ℤ → ℤ → Bool
is_stale s height round = not (eq_ℤ s.height height) || ltb_ℤ round s.round

-- Or it was made in this round.
abbrev pub is_done : State → ℤ → ℤ → ℕ → Bool
is_done s height round step = is_stale s height round || (eq_ℤ s.round round && leb step s.step)

-- A header's empty set of parts, as a pointer.
abbrev pub unlocked : State → State
unlocked s = record s { locked_round = negsuc 0; locked_block = none; locked_block_parts = none }

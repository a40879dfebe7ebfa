-- ===== src/Consensus/Protocol.antt =====
-- The rules of locking, on what they are about: the round, the lock, the votes and what was sent. A
-- step of the state machine in internal/consensus/state.go is a sequence of these moves.
pub mod Invariant
pub mod Safety
use relaychainmodel.Prelude.{
  Bool, List, Option, [], false, if◌then◌else◌, none, some, true, ℕ, ◌==◌, ◌∷◌, ◌≡◌, ◌⊎◌,
}
use relaychainmodel.Prelude.Int.{negsuc, pos, ℤ, ◌<ℤ◌, ◌≤ℤ◌}
use relaychainmodel.Types.BlockId.{BlockId, empty_block_id}
use relaychainmodel.Types.Vote.{Crypto, prevote_type, precommit_type}
use relaychainmodel.Types.ValidatorSet.{IsValid}
use relaychainmodel.Consensus.HeightVoteSet.{HeightVoteSet, majority_of, prevotes_of, precommits_of}
use relaychainmodel.Consensus.HeightVoteSet.Growth.{AllReach}
use relaychainmodel.Consensus.HeightVoteSet.Steps.{Keeps}
use relaychainmodel.Consensus.State.{
  State, Block, ChainState, Node, Output, sign_vote, timeout, decide_proposal, commit_block,
  hashes_to, step_new_height,
}
use relaychainmodel.Consensus.Commit as Commit

-- The timeout that starts a height is the first thing that is sent at it.
abbrev pub starts_height : Output → Bool
starts_height (sign_vote type h r b) = false
starts_height (timeout step h r) = step == step_new_height
starts_height (decide_proposal h r) = false
starts_height (commit_block h r b block) = false

-- What was sent since the height began.
abbrev pub since_start : List Output → List Output
since_start [] = []
since_start (o ∷ os) = if starts_height o then o ∷ [] else o ∷ since_start os

-- The blocks that were committed, at this height or before.
abbrev pub decided : Output → List Output → List Output
decided (sign_vote type h r b) ds = ds
decided (timeout step h r) ds = ds
decided (decide_proposal h r) ds = ds
decided (commit_block h r b block) ds = commit_block h r b block ∷ ds

abbrev pub decisions_of : List Output → List Output
decisions_of [] = []
decisions_of (o ∷ os) = decided o (decisions_of os)

abbrev pub Sent : Output → List Output → Type 0
Sent o [] = ⊥
Sent o (p ∷ ps) = (o ≡ p) ⊎ Sent o ps

-- A block, with its identifier, that was committed at a height.
abbrev pub Committed : ℤ → BlockId → Block → List Output → Type 0
Committed h id block ds = (r : ℤ) × Sent (commit_block h r id block) ds

-- What a node is run with: its verification of signatures, its block executor and the chain state that
-- it starts from.
pub record Setting : Type 0 where
  pub crypto : Crypto
  pub apply_block : ChainState → BlockId → Block → Option ChainState
  pub origin : ChainState

abbrev pub setting : Node → ChainState → Setting
setting n c = record { crypto = n.crypto; apply_block = n.apply_block; origin = c }

pub record View : Type 0 where
  pub height : ℤ
  pub round : ℤ
  pub votes : HeightVoteSet
  pub locked_round : ℤ
  pub locked_block : Option Block
  pub log : List Output  -- of this height, the newest first
  pub decisions : List Output
  pub chain : ChainState

abbrev pub view : State → View
view s = record {
  height = s.height;
  round = s.round;
  votes = s.votes;
  locked_round = s.locked_round;
  locked_block = s.locked_block;
  log = since_start s.sent;
  decisions = decisions_of s.sent;
  chain = s.chain;
}

-- The votes of a height are for the chain id and the validators of a chain state, and for its next
-- height.
pub record OfState (c : ChainState) (votes : HeightVoteSet) (h : ℤ) : Type 0 where
  pub chain_id : votes.chain_id ≡ c.chain_id
  pub val_set : votes.val_set ≡ c.validators
  pub height : votes.height ≡ h
  pub next : h ≡ Commit.next_height c

abbrev pub polka_at : View → ℤ → Option BlockId
polka_at v r = majority_of (prevotes_of v.votes r)

abbrev pub logged : Output → View → View
logged o v = record v { log = o ∷ v.log; decisions = decided o v.decisions }

module _ (k : Setting) where
  pub data Move (v : View) : View → Type 0 where
    -- Votes come in, for validators that are in order.
    votes_grow :
        (votes : HeightVoteSet)
        → (IsValid v.votes.val_set → AllReach k.crypto v.votes → Keeps k.crypto v.votes votes)
        → Move v (record v { votes = votes })
    next_round : (r : ℤ) → v.round ≤ℤ r → Move v (record v { round = r })
    -- A timeout is for this round or one before, unless it starts a height.
    schedule :
        (step : ℕ) (h r : ℤ)
        → (step == step_new_height) ≡ false
        → r ≤ℤ v.round
        → Move v (logged (timeout step h r) v)
    propose_block : (h r : ℤ) → Move v (logged (decide_proposal h r) v)
    -- A locked node prevotes for its block, any other for what it likes.
    prevote_locked :
        (h : ℤ) (block : Block) (b : BlockId)
        → v.locked_block ≡ some block
        → b.hash ≡ block.hash
        → Move v (logged (sign_vote prevote_type h v.round b) v)
    prevote_free :
        (h : ℤ) (b : BlockId)
        → v.locked_block ≡ none
        → Move v (logged (sign_vote prevote_type h v.round b) v)
    -- A lock is on the block of a majority of prevotes in this round.
    lock_again :
        (b : BlockId)
        → polka_at v v.round ≡ some b
        → hashes_to v.locked_block b.hash ≡ true
        → Move v (record v { locked_round = v.round })
    lock_block :
        (block : Block) (b : BlockId)
        → polka_at v v.round ≡ some b
        → hashes_to v.locked_block b.hash ≡ false
        → hashes_to (some block) b.hash ≡ true
        → Move v (record v { locked_round = v.round; locked_block = some block })
    -- It is released by a majority for something else, in this round or in one after the lock's.
    release :
        (r : ℤ) (b : BlockId)
        → polka_at v r ≡ some b
        → hashes_to v.locked_block b.hash ≡ false
        → r ≤ℤ v.round
        → (v.locked_round <ℤ r) ⊎ (r ≡ v.round)
        → Move v (record v { locked_round = negsuc 0; locked_block = none })
    -- A precommit is for nil, or for the block that was just locked.
    precommit_nil : (h : ℤ) → Move v (logged (sign_vote precommit_type h v.round empty_block_id) v)
    precommit_block :
        (h : ℤ) (b : BlockId)
        → polka_at v v.round ≡ some b
        → v.locked_round ≡ v.round
        → hashes_to v.locked_block b.hash ≡ true
        → Move v (logged (sign_vote precommit_type h v.round b) v)
    -- A block is committed that has a majority of precommits.
    commit :
        (r : ℤ) (b : BlockId) (block : Block)
        → majority_of (precommits_of v.votes r) ≡ some b
        → hashes_to (some block) b.hash ≡ true
        → Move v (logged (commit_block v.height r b block) v)
    -- The next height has no votes and no lock. It is for the chain state, with validators in order,
    -- that the executor returned for a block that was committed at this one, and its votes are for that state.
    next_height :
        (id : BlockId) (block : Block) (c : ChainState) (votes : HeightVoteSet)
        → Committed v.height id block v.decisions
        → k.apply_block v.chain id block ≡ some c
        → IsValid c.validators
        → AllReach k.crypto votes
        → OfState c votes (Commit.next_height c)
        → Move v (record v {
          height = Commit.next_height c;
          round = pos 0;
          votes = votes;
          locked_round = negsuc 0;
          locked_block = none;
          log = timeout step_new_height (Commit.next_height c) (pos 0) ∷ [];
          chain = c;
        })
    -- A height can start anew, with its votes and its lock.
    start_again : (h : ℤ) → Move v (record v { log = timeout step_new_height h (pos 0) ∷ [] })

  pub data Moves (v : View) : View → Type 0 where
    stay : Moves v v
    followed : {u w : View} → Moves v u → Move u w → Moves v w

  pub Moves-trans : {u v w : View} → Moves u v → Moves v w → Moves u w
  Moves-trans p stay = p
  Moves-trans p (followed q m) = followed (Moves-trans p q) m

  pub one : {v w : View} → Move v w → Moves v w
  one m = followed stay m

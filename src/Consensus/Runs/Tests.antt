-- ===== src/Consensus/Runs/Tests.antt =====
-- A node with the only validator decides a block, and the guarantees in that run.
use relaychainmodel.Prelude.{
  Bool, List, Option, [], arith, false, inl, inr, none, refl, replicate, some, some-injective,
  Option-elim, true, ℕ, ◌∷◌, ◌≡◌,
}
use relaychainmodel.Prelude.Int.{negsuc, pos}
use relaychainmodel.Types.Fixtures.{block, toy_crypto, validator}
use relaychainmodel.Types.PartSet.{Part}
use relaychainmodel.Types.Vote.{Vote, precommit_type, prevote_type}
use relaychainmodel.Types.ValidatorSet.{IsValid, ValidatorSet, power}
use relaychainmodel.Privval.Canonical.{Codec, Proposal}
use relaychainmodel.Consensus.State.{
  Block, ChainState, Node, Output, State, commit_block, step_new_height,
}
use relaychainmodel.Consensus.Commit.{at_height, new_state, next_height}
use relaychainmodel.Consensus.Refinement.Commit.{AppliesValid}
use relaychainmodel.Consensus.Refinement.Votes.{CanSign}
use relaychainmodel.Consensus.HeightVoteSet.{
  new_height_vote_set, set_round, lookup_round, get_vote_set, add_height_vote, pol_info,
}
use relaychainmodel.Consensus.State.{on_return, sign_add_vote, hashes_to, is_proposal_complete}
use relaychainmodel.Types.VoteSet.{new_vote_set, add_vote, new_block_votes}
use relaychainmodel.Types.VoteSet.Readers.{has_two_thirds_any, has_all}
use relaychainmodel.Types.PartSet.{new_part_set_from_header, read_all, add_part}
use relaychainmodel.Types.Vote.{vote_sign_bytes, verify}
use relaychainmodel.Types.ValidatorSet.{
  total_voting_power, get_by_index, get_by_address, get_proposer,
}
use relaychainmodel.Types.BlockId.{equals, is_zero}
use relaychainmodel.SafeMath.{safe_add_int32, safe_sub_int32}
use relaychainmodel.Prelude.Map.{lookup, insert}
use relaychainmodel.Prelude.Bytes.{bytes_eq}
use relaychainmodel.Prelude.Int64.{mul_int64, quot_int64}
use relaychainmodel.Privval.Canonical.{proposal_sign_bytes}
use relaychainmodel.Merkle.{proof_verify, split_point}
use relaychainmodel.Consensus.Protocol.{Moves, decisions_of, setting, since_start, view}
use relaychainmodel.Consensus.Protocol.Invariant.{Chained, Respects}
use relaychainmodel.Consensus.Runs.Guarantees.{
  IsItem, Quorum, commits_sound, locks_respected, precommits_sound, votes_of,
}
use relaychainmodel.Consensus.Runs.{Run, Run-Reached, Start, handle-follows, here, next, starts}
use relaychainmodel.Consensus.Handle.{
  Event, handle, part_received, proposal_received, timed_out, vote_received,
}

all_calls : Unit {0}
unfolding new_height_vote_set set_round lookup_round get_vote_set add_height_vote pol_info on_return
    sign_add_vote hashes_to is_proposal_complete new_state handle new_vote_set add_vote
    new_block_votes has_two_thirds_any has_all new_part_set_from_header read_all add_part
    vote_sign_bytes verify total_voting_power get_by_index get_by_address get_proposer equals
    is_zero safe_add_int32 safe_sub_int32 lookup insert bytes_eq mul_int64 quot_int64
    proposal_sign_bytes proof_verify split_point Option-elim
all_calls = tt

abbrev vals : ValidatorSet
vals = record {
  validators = validator 1 10 ∷ [];
  proposer = some (validator 1 10);
  total_voting_power = 0;
}

vals-IsValid : IsValid vals
unfolding power
vals-IsValid = record { cached = inl refl; capped = omega arith }

abbrev chain : ChainState
chain = record {
  chain_id = [];
  initial_height = pos 1;
  last_block_height = pos 0;
  validators = vals;
}

abbrev codec : Codec
codec = record {
  sign = λ m. some m;
  marshal_proposal = λ p. some [];
  unmarshal_proposal = λ b. none;
  unmarshal_vote = λ b. none;
}

abbrev the_block : Block
the_block = record { hash = replicate 32 5 }

abbrev node : Node
node = record {
  crypto = toy_crypto;
  codec = codec;
  sum = λ b. replicate 32 5;
  address = some (1 ∷ []);
  skip_timeout_commit = false;
  wait_for_txs = false;
  empty_blocks_interval = false;
  max_bytes = 100;
  need_proof_block = λ h. false;
  validate_block = λ c b. true;
  decode_block = λ b. some the_block;
  apply_block = λ c id b. some (record chain { last_block_height = pos 1 });
}

abbrev proposal : Proposal
proposal = record {
  height = pos 1;
  round = pos 0;
  pol_round = negsuc 0;
  block_id = block 5;
  timestamp = pos 5;
  signature = 1 ∷ [];
}

abbrev part : Part
part = record {
  index = 0;
  bytes = 9 ∷ [];
  proof = record { total = pos 1; index = pos 0; leaf_hash = some (replicate 32 5); aunts = [] };
}

abbrev vote : ℕ → Vote
vote type = record {
  type = type;
  height = pos 1;
  round = pos 0;
  block_id = block 5;
  timestamp = pos 5;
  validator_address = 1 ∷ [];
  validator_index = pos 0;
  signature = 1 ∷ [];
}

abbrev returned : Option State → Bool
returned none = false
returned (some s) = true

-- The state that a call returns; the other one is never met.
force : State → Option State → State
force s none = s
force s (some s') = s'

returned-force : (s : State) (o : Option State) → returned o ≡ true → o ≡ some (force s o)
unfolding force
returned-force s none e = cc
returned-force s (some s') e = refl

abbrev start_event : Event
start_event = timed_out step_new_height (pos 1) (pos 0)

abbrev idle : State
idle =
    at_height chain none
      (record {
        chain_id = [];
        height = pos 1;
        val_set = vals;
        round = pos 0;
        round_vote_sets = [];
        peer_catchup_rounds = [];
      })
      []

-- The states of the run.
at_start : State
unfolding force new_state
at_start = force idle (new_state chain none)

proposing : State
unfolding force handle at_start
proposing = force idle (handle node start_event at_start)

proposed : State
unfolding force handle proposing
proposed = force idle (handle node (proposal_received proposal) proposing)

prevoted : State
unfolding force handle proposed
prevoted = force idle (handle node (part_received (pos 1) part) proposed)

precommitted : State
unfolding force handle prevoted
precommitted = force idle (handle node (vote_received (vote prevote_type) []) prevoted)

decided : State
unfolding force handle precommitted
decided = force idle (handle node (vote_received (vote precommit_type) []) precommitted)

starting : Start chain at_start
unfolding at_start all_calls
starting = starts none (returned-force idle (new_state chain none) refl)

applies : AppliesValid node
applies c id b c' e =
    rw (← some-injective (record chain { last_block_height = pos 1 }) c' e) vals-IsValid

signs : (type : ℕ) → CanSign toy_crypto (vote type)
unfolding all_calls
signs type chain_id = (1 ∷ [], refl)

to_prevoted : Run node at_start prevoted
unfolding prevoted all_calls
to_prevoted =
    next (part_received (pos 1) part)
      (next (proposal_received proposal)
        (next start_event here (λ e. inl refl)
          (returned-force idle (handle node start_event at_start) refl))
        tt (returned-force idle (handle node (proposal_received proposal) proposing) refl))
      tt (returned-force idle (handle node (part_received (pos 1) part) proposed) refl)

to_precommitted : Run node at_start precommitted
unfolding precommitted all_calls
to_precommitted =
    next (vote_received (vote prevote_type) []) to_prevoted (signs prevote_type)
      (returned-force idle (handle node (vote_received (vote prevote_type) []) prevoted) refl)

to_decided : Run node at_start decided
unfolding decided all_calls
to_decided =
    next (vote_received (vote precommit_type) []) to_precommitted (signs precommit_type)
      (returned-force idle (handle node (vote_received (vote precommit_type) []) precommitted) refl)

-- The node decides the block of the proposal.
decides : decided.height ≡ pos 2
unfolding decided all_calls
decides = refl

-- The chain state after it is the one that the executor made of the first one with that block.
chained : Chained (setting node chain) (decisions_of decided.sent) decided.chain
chained = (Run-Reached node applies vals-IsValid starting to_decided).inv.chained

commits_sound_example :
    (the_block.hash ≡ (block 5).hash)
    × (older : List Output) × (now : ChainState) × IsItem
        (commit_block (pos 1) (pos 0) (block 5) the_block)
        older
        (decisions_of decided.sent)
    × Chained (setting node chain) older now
    × (next_height now ≡ pos 1)
    × IsValid now.validators
    × Quorum toy_crypto
        (votes_of (pos 1) (pos 0) precommit_type now.chain_id now.validators)
        (block 5)
unfolding decided all_calls
commits_sound_example =
    commits_sound node applies chain vals-IsValid starting to_decided (pos 1) (pos 0) (block 5)
      the_block (inr (inl refl))

precommits_sound_example :
    Quorum toy_crypto
      (votes_of precommitted.height
        (pos 0)
        prevote_type
        precommitted.votes.chain_id
        precommitted.votes.val_set)
      (block 5)
unfolding precommitted all_calls
precommits_sound_example =
    precommits_sound node applies chain vals-IsValid starting to_precommitted (pos 1) (pos 0)
      (block 5) (inl refl) refl

locks_respected_example : Respects precommitted.votes (since_start precommitted.sent)
locks_respected_example = locks_respected node applies chain vals-IsValid starting to_precommitted

handle-follows_example : Moves (setting node chain) (view prevoted) (view precommitted)
unfolding precommitted all_calls
handle-follows_example =
    handle-follows node applies (vote_received (vote prevote_type) []) prevoted precommitted
      (Run-Reached node applies vals-IsValid starting to_prevoted) (signs prevote_type)
      (returned-force idle (handle node (vote_received (vote prevote_type) []) prevoted) refl)

-- ===== src/Consensus/Commit.antt =====
-- The commit of a block and the next height: enterCommit, tryFinalizeCommit, finalizeCommit and
-- updateToState of internal/consensus/state.go. Times, the store and the log of messages are left out.
use relaychainmodel.Prelude.{
  Bool, List, [], Option, Option-elim, false, if◌then◌else◌, leb, none, not, some, ◌&&◌, ◌==◌, ◌||◌,
}
use relaychainmodel.Prelude.Int.{eq_ℤ, leb_ℤ, ltb_ℤ, negsuc, pos, ℤ}
use relaychainmodel.Types.BlockId.{BlockId, is_empty}
use relaychainmodel.Types.PartSet.{has_header}
use relaychainmodel.Types.VoteSet.{VoteSet, is_some, suc_int64}
use relaychainmodel.Consensus.HeightVoteSet.{HeightVoteSet, new_height_vote_set, precommits_of}
use relaychainmodel.Consensus.State.{
  State, Node, Block, ChainState, Output, timeout, commit_block, ◌>>=◌, send, update_round_step,
  hashes_to, commit_majority, step_new_height, step_commit,
}
use relaychainmodel.Consensus.Enter.{id_of, expecting}

-- The commit of the last height, of which `none` is nil; the outer `none` is a panic.
unfoldable pub last_commit_for : ChainState → State → Option (Option VoteSet)
last_commit_for c s =
    if eq_ℤ c.last_block_height (pos 0)
    then some none
    else if ltb_ℤ (negsuc 0) s.commit_round
    then (if is_some (commit_majority s s.commit_round)
        then some (precommits_of s.votes s.commit_round)
        else none)
    else elim s.last_commit [ none ↦ none | some votes ↦ some (some votes) ]

-- The checks of `updateToState` on the new state and on the old one: true where none panics.
unfoldable pub is_next_state : ChainState → State → Bool
is_next_state c s =
    let last = s.chain.last_block_height in
    not (
      ltb_ℤ (negsuc 0) s.commit_round
      && (ltb_ℤ (pos 0) s.height && not (eq_ℤ s.height c.last_block_height)))
    && (not (ltb_ℤ (pos 0) last && not (eq_ℤ (suc_int64 last) s.height))
        && not (ltb_ℤ (pos 0) last && eq_ℤ s.height s.chain.initial_height))

-- The height after a state's last block.
abbrev pub next_height : ChainState → ℤ
next_height c =
    let height = suc_int64 c.last_block_height in
    if eq_ℤ height (pos 1) then c.initial_height else height

-- The state at the beginning of a height.
abbrev pub at_height : ChainState → Option VoteSet → HeightVoteSet → List Output → State
at_height c last_commit votes sent = record {
  height = next_height c;
  round = pos 0;
  step = step_new_height;
  validators = c.validators;
  proposal = none;
  proposal_block = none;
  proposal_block_parts = none;
  locked_round = negsuc 0;
  locked_block = none;
  locked_block_parts = none;
  valid_round = negsuc 0;
  valid_block = none;
  valid_block_parts = none;
  votes = votes;
  commit_round = negsuc 0;
  last_commit = last_commit;
  triggered_timeout_precommit = false;
  chain = c;
  sent = sent;
}

-- `updateToState`
unfoldable pub update_to_state : ChainState → State → Option State
unfolding is_next_state last_commit_for
update_to_state c s =
    if not (is_next_state c s)
    then none
    else if leb_ℤ c.last_block_height s.chain.last_block_height
    then some s
    else last_commit_for c s >>= λ last_commit.
        new_height_vote_set c.chain_id (next_height c) c.validators >>= λ votes.
        some (at_height c last_commit votes s.sent)

-- The last commit of a node that starts: `reconstructLastCommit` finds it in the store, or panics.
unfoldable pub first_last_commit : ChainState → Option VoteSet → Option (Option VoteSet)
first_last_commit c stored =
    if eq_ℤ c.last_block_height (pos 0)
    then some none
    else elim stored [ none ↦ none | some votes ↦ some (some votes) ]

-- `NewState` of a state that is not empty, and round 0 that `OnStart` schedules. The store is asked for
-- the last commit; the log of messages is empty.
unfoldable pub new_state : ChainState → Option VoteSet → Option State
unfolding first_last_commit
new_state c stored = first_last_commit c stored >>= λ last_commit.
    new_height_vote_set c.chain_id (next_height c) c.validators >>= λ votes.
    some (send (timeout step_new_height (next_height c) (pos 0)) (at_height c last_commit votes []))

module _ (n : Node) where
  -- `finalizeCommit` from its checks on: the block is saved and applied, and the next height begins.
  unfoldable pub commit_checked : BlockId → Block → State → Option State
  unfolding update_to_state
  commit_checked b block s =
      let s' = send (commit_block s.height s.commit_round b block) s in
      id_of block s.proposal_block_parts >>= λ id.
      Option-elim (n.apply_block s.chain id block) (some s') (λ c. update_to_state c s' >>= λ s''.
      some (send (timeout step_new_height s''.height (pos 0)) s''))

  -- `finalizeCommit`
  unfoldable pub finalize_commit : ℤ → State → Option State
  unfolding commit_checked
  finalize_commit height s =
      if not (eq_ℤ s.height height) || not (s.step == step_commit)
      then some s
      else commit_majority s s.commit_round >>= λ b.
          if not (has_header s.proposal_block_parts b.part_set_header)
          then none
          else if not (hashes_to s.proposal_block b.hash)
          then none
          else s.proposal_block >>= λ block.
              if not (n.validate_block s.chain block) then none else commit_checked b block s

  -- `tryFinalizeCommit`
  unfoldable pub try_finalize_commit : ℤ → State → Option State
  unfolding finalize_commit
  try_finalize_commit height s =
      if not (eq_ℤ s.height height)
      then none
      else Option-elim (commit_majority s s.commit_round) (some s) (λ b.
        if is_empty b.hash
        then some s
        else if not (hashes_to s.proposal_block b.hash)
        then some s
        else finalize_commit height s)

  -- A block that is locked and has the majority is the proposal block.
  abbrev pub propose_locked : BlockId → State → State
  propose_locked b s =
      if hashes_to s.locked_block b.hash
      then record s { proposal_block = s.locked_block; proposal_block_parts = s.locked_block_parts }
      else s

  -- `enterCommit`
  unfoldable pub enter_commit : ℤ → ℤ → State → Option State
  unfolding try_finalize_commit
  enter_commit height commit_round s =
      if not (eq_ℤ s.height height) || leb step_commit s.step
      then some s
      else commit_majority s commit_round >>= λ b.
          let s₁ = propose_locked b s in
          let s₂ =
            if hashes_to s₁.proposal_block b.hash then s₁ else expecting n b.part_set_header s₁ in
          try_finalize_commit height
            (record (update_round_step s₂.round step_commit s₂) { commit_round = commit_round })

-- ===== src/Consensus/Votes.antt =====
-- What the consensus does with a vote: addVote of internal/consensus/state.go. An error is only logged
-- by its caller, so what is left of it is the state. Evidence of conflicting votes, which goes to its
-- pool, is left out. The readers of sums are called a little earlier than in the code, which matters
-- only if they panic.
use relaychainmodel.Prelude.{
  Option, Option-elim, if◌then◌else◌, leb, none, not, some, ◌&&◌, ◌==◌, ◌||◌,
}
use relaychainmodel.Prelude.Int.{eq_ℤ, leb_ℤ, ltb_ℤ, pos, ℤ}
use relaychainmodel.Prelude.Bytes.{Bytes}
use relaychainmodel.Types.BlockId.{BlockId, is_empty}
use relaychainmodel.Types.Vote.{Vote, prevote_type, precommit_type}
use relaychainmodel.Types.PartSet.{has_header, new_part_set_from_header}
use relaychainmodel.Types.VoteSet.{is_some, add_vote, suc_int64}
use relaychainmodel.Consensus.HeightVoteSet.{
  add_height_vote, prevotes_of, precommits_of, majority_of,
}
use relaychainmodel.Consensus.State.{
  State, Node, on_return, ◌>>=◌, hashes_to, any_of, all_of, polka, is_proposal_complete, unlocked,
  step_new_height, step_prevote,
}
use relaychainmodel.Consensus.Enter.{
  enter_new_round, enter_prevote, enter_prevote_wait, enter_precommit, enter_precommit_wait,
}
use relaychainmodel.Consensus.Commit.{enter_commit}

-- The lock is released by a later majority of prevotes for something else.
unfoldable pub unlock_on_polka : ℤ → BlockId → State → State
unfolding hashes_to
unlock_on_polka round b s =
    if is_some s.locked_block
      && (ltb_ℤ s.locked_round round
          && (leb_ℤ round s.round && not (hashes_to s.locked_block b.hash)))
    then unlocked s
    else s

abbrev pub valid_on_proposal : ℤ → State → State
valid_on_proposal round s = record s {
  valid_round = round;
  valid_block = s.proposal_block;
  valid_block_parts = s.proposal_block_parts;
}

-- The valid block of a majority of prevotes in this round.
unfoldable pub update_valid_block : ℤ → BlockId → State → State
unfolding hashes_to
update_valid_block round b s =
    let s' =
      if hashes_to s.proposal_block b.hash
      then valid_on_proposal round s
      else record s { proposal_block = none } in
    let s'' =
      if has_header s'.proposal_block_parts b.part_set_header
      then s'
      else record s' { proposal_block_parts = some (new_part_set_from_header b.part_set_header) } in
    if not (is_empty b.hash) && (ltb_ℤ s.valid_round round && eq_ℤ round s.round) then s'' else s

module _ (n : Node) where
  -- The case of a prevote in `addVote`, after the vote was added: the lock and the valid block.
  unfoldable pub on_polka : ℤ → State → State
  unfolding unlock_on_polka update_valid_block
  on_polka round s =
      Option-elim (polka s round) s (λ b. update_valid_block round b (unlock_on_polka round b s))

  -- Then the step that the prevote may lead to.
  unfoldable pub after_prevote : Vote → State → Option State
  unfolding enter_new_round enter_precommit enter_prevote_wait enter_prevote is_proposal_complete
  after_prevote vote s = any_of (prevotes_of s.votes vote.round) >>= λ any.
      let waits = if any then enter_prevote_wait n s.height vote.round s else some s in
      if ltb_ℤ s.round vote.round && any
      then enter_new_round n s.height vote.round s
      else if eq_ℤ s.round vote.round && leb step_prevote s.step
      then Option-elim (polka s vote.round) waits (λ b.
        if is_proposal_complete s || is_empty b.hash
        then enter_precommit n s.height vote.round s
        else waits)
      else Option-elim s.proposal (some s) (λ p.
        if leb_ℤ (pos 0) p.pol_round && (eq_ℤ p.pol_round vote.round && is_proposal_complete s)
        then enter_prevote n s.height s.round s
        else some s)

  -- The case of a precommit.
  unfoldable pub after_precommit : Vote → State → Option State
  unfolding enter_new_round enter_precommit enter_commit enter_precommit_wait
  after_precommit vote s =
      let height = s.height in
      let waits = any_of (precommits_of s.votes vote.round) >>= λ any.
      if leb_ℤ s.round vote.round && any
      then (enter_new_round n height vote.round s >>= λ s₁.
          enter_precommit_wait n height vote.round s₁)
      else some s in
      Option-elim (majority_of (precommits_of s.votes vote.round)) waits (λ b.
        all_of (precommits_of s.votes vote.round) >>= λ all.
        enter_new_round n height vote.round s >>= λ s₁.
        enter_precommit n height vote.round s₁ >>= λ s₂.
        if is_empty b.hash
        then enter_precommit_wait n height vote.round s₂
        else enter_commit n height vote.round s₂ >>= λ s₃.
            if n.skip_timeout_commit && all
            then enter_new_round n s₃.height (pos 0) s₃
            else some s₃)

  -- A precommit for the last height, while the node waits for the next one.
  unfoldable pub add_last_precommit : Vote → State → Option State
  unfolding enter_new_round
  add_last_precommit vote s =
      if not (s.step == step_new_height)
      then some s
      else s.last_commit >>= λ last.
          on_return (add_vote n.crypto last (some vote)) (some s) (λ (last', added, e).
            let s' = record s { last_commit = some last' } in
            if not added
            then some s'
            else all_of (some last') >>= λ all.
                if n.skip_timeout_commit && all
                then enter_new_round n s'.height (pos 0) s'
                else some s')

  -- `addVote`
  unfoldable pub add_consensus_vote : Vote → Bytes → State → Option State
  unfolding add_last_precommit on_polka after_prevote after_precommit
  add_consensus_vote vote peer s =
      if eq_ℤ (suc_int64 vote.height) s.height && (vote.type == precommit_type)
      then add_last_precommit vote s
      else if not (eq_ℤ vote.height s.height)
      then some s
      else add_height_vote n.crypto s.votes vote peer >>= λ (votes, added, e).
          let s' = record s { votes = votes } in
          if not added
          then some s'
          else if vote.type == prevote_type
          then after_prevote vote (on_polka vote.round s')
          else after_precommit vote s'

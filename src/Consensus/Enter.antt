-- ===== src/Consensus/Enter.antt =====
-- The steps of a round: the `enter` functions of internal/consensus/state.go. A deferred update of
-- the step is made at the end, on every path. Logs, metrics, events and delays are left out.
use relaychainmodel.Prelude.{
  Option, Option-elim, false, if◌then◌else◌, none, not, some, true, ◌&&◌, ◌==◌, ◌||◌,
}
use relaychainmodel.Prelude.Int.{eq_ℤ, ltb_ℤ, pos, ℤ}
use relaychainmodel.Prelude.Bytes.{bytes_eq}
use relaychainmodel.SafeMath.{safe_add_int32, safe_sub_int32}
use relaychainmodel.Types.BlockId.{BlockId, PartSetHeader, empty_block_id, is_empty}
use relaychainmodel.Types.Vote.{prevote_type, precommit_type}
use relaychainmodel.Types.ValidatorSet.{ValidatorSet, get_proposer}
use relaychainmodel.Types.ValidatorSet.Priorities.{increment_proposer_priority}
use relaychainmodel.Types.PartSet.{PartSet, header_of, has_header, new_part_set_from_header}
use relaychainmodel.Types.VoteSet.{is_some}
use relaychainmodel.Consensus.HeightVoteSet.{set_round, pol_info, prevotes_of, precommits_of}
use relaychainmodel.Consensus.State.{
  State, Node, Block, timeout, decide_proposal, ◌>>=◌, send, update_round_step, hashes_to, any_of,
  polka, has_address, is_proposal_complete, sign_add_vote, is_stale, is_done, unlocked,
  step_new_height, step_new_round, step_propose, step_prevote, step_prevote_wait, step_precommit,
  step_precommit_wait,
}

-- The identifier that a vote for a block has; a nil set of parts is dereferenced.
abbrev pub id_of : Block → Option PartSet → Option BlockId
id_of b none = none
id_of b (some parts) = some (record { hash = b.hash; part_set_header = header_of parts })

module _ (n : Node) where
  -- `defaultDoPrevote`
  unfoldable pub do_prevote : State → Option State
  do_prevote s =
      let vote_nil = some (sign_add_vote n prevote_type empty_block_id s) in
      let vote_for : Block → Option State = λ block.
        if not (n.validate_block s.chain block)
        then vote_nil
        else id_of block s.proposal_block_parts >>= λ b. some (sign_add_vote n prevote_type b s) in
      Option-elim s.locked_block (Option-elim s.proposal_block vote_nil vote_for) (λ locked.
        id_of locked s.locked_block_parts >>= λ b. some (sign_add_vote n prevote_type b s))

  -- `enterPrevote`
  unfoldable pub enter_prevote : ℤ → ℤ → State → Option State
  unfolding do_prevote
  enter_prevote height round s =
      if is_done s height round step_prevote
      then some s
      else do_prevote s >>= λ s'. some (update_round_step round step_prevote s')

  -- `enterPropose` up to its deferred part. A proposer that cannot be found is dereferenced.
  unfoldable pub propose : ℤ → ℤ → State → Option State
  propose height round s =
      let s' = send (timeout step_propose height round) s in
      Option-elim n.address (some s') (λ a.
        if not (has_address s'.validators a)
        then some s'
        else get_proposer s'.validators >>= λ found. found >>= λ p.
            if bytes_eq p.address a then some (send (decide_proposal height round) s') else some s')

  -- `enterPropose`
  unfoldable pub enter_propose : ℤ → ℤ → State → Option State
  unfolding propose enter_prevote is_proposal_complete
  enter_propose height round s =
      if is_done s height round step_propose
      then some s
      else propose height round s >>= λ s'.
          let s'' = update_round_step round step_propose s' in
          if is_proposal_complete s'' then enter_prevote height s''.round s'' else some s''

  -- The validators of a round: their priorities are incremented once for each round.
  unfoldable pub validators_at : ℤ → State → Option ValidatorSet
  validators_at round s =
      if not (ltb_ℤ s.round round)
      then some s.validators
      else safe_sub_int32 round s.round >>= λ times. increment_proposer_priority times s.validators

  -- The state of a new round, before its propose step.
  unfoldable pub begin_round : ℤ → State → Option State
  unfolding validators_at
  begin_round round s = validators_at round s >>= λ vals.
      let s₁ = record (update_round_step round step_new_round s) { validators = vals } in
      let s₂ =
        if eq_ℤ round (pos 0)
        then s₁
        else record s₁ { proposal = none; proposal_block = none; proposal_block_parts = none } in
      safe_add_int32 round (pos 1) >>= λ next. set_round s₂.votes next >>= λ votes.
      some (record s₂ { votes = votes; triggered_timeout_precommit = false })

  -- `enterNewRound`
  unfoldable pub enter_new_round : ℤ → ℤ → State → Option State
  unfolding begin_round enter_propose
  enter_new_round height round s =
      if is_stale s height round || (eq_ℤ s.round round && not (s.step == step_new_height))
      then some s
      else begin_round round s >>= λ s'.
          if n.wait_for_txs && (eq_ℤ round (pos 0) && not (n.need_proof_block height))
          then some (
              if n.empty_blocks_interval then send (timeout step_new_round height round) s' else s')
          else enter_propose height round s'

  -- `enterPrevoteWait`
  unfoldable pub enter_prevote_wait : ℤ → ℤ → State → Option State
  enter_prevote_wait height round s =
      if is_done s height round step_prevote_wait
      then some s
      else any_of (prevotes_of s.votes round) >>= λ enough.
          if not enough
          then none
          else some (
              update_round_step round step_prevote_wait
                (send (timeout step_prevote_wait height round) s))

  -- The lock on the proposal block.
  abbrev pub locked_on_proposal : Block → ℤ → State → State
  locked_on_proposal block round s = record s {
    locked_round = round;
    locked_block = some block;
    locked_block_parts = s.proposal_block_parts;
  }

  -- A majority for a block that the node does not have: the parts that it will wait for.
  abbrev pub expecting : PartSetHeader → State → State
  expecting header s = if has_header s.proposal_block_parts header then s else record s {
    proposal_block = none;
    proposal_block_parts = some (new_part_set_from_header header);
  }

  -- `enterPrecommit` from the majority of prevotes on.
  unfoldable pub precommit_majority : ℤ → BlockId → State → Option State
  unfolding hashes_to
  precommit_majority round b s =
      if ltb_ℤ (pol_info s.votes).0 round
      then none
      else if is_empty b.hash
      then some (
          sign_add_vote n precommit_type empty_block_id
            (if is_some s.locked_block then unlocked s else s))
      else if hashes_to s.locked_block b.hash
      then some (sign_add_vote n precommit_type b (record s { locked_round = round }))
      else if hashes_to s.proposal_block b.hash
      then (s.proposal_block >>= λ block.
          if not (n.validate_block s.chain block)
          then none
          else some (sign_add_vote n precommit_type b (locked_on_proposal block round s)))
      else some
          (sign_add_vote n precommit_type empty_block_id (expecting b.part_set_header (unlocked s)))

  -- `enterPrecommit`
  unfoldable pub enter_precommit : ℤ → ℤ → State → Option State
  unfolding precommit_majority
  enter_precommit height round s =
      if is_done s height round step_precommit
      then some s
      else Option-elim (polka s round) (some (sign_add_vote n precommit_type empty_block_id s))
          (λ b. precommit_majority round b s)
        >>= λ s'. some (update_round_step round step_precommit s')

  -- `enterPrecommitWait`
  unfoldable pub enter_precommit_wait : ℤ → ℤ → State → Option State
  enter_precommit_wait height round s =
      if is_stale s height round || (eq_ℤ s.round round && s.triggered_timeout_precommit)
      then some s
      else any_of (precommits_of s.votes round) >>= λ enough.
          if not enough
          then none
          else some (record (send (timeout step_precommit_wait height round) s) {
            triggered_timeout_precommit = true;
          })

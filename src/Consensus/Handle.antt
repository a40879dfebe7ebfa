-- ===== src/Consensus/Handle.antt =====
-- What the consensus does with a message or a timeout: handleMsg, handleTimeout and
-- handleTxsAvailable of internal/consensus/state.go, with setProposal and addProposalBlockPart. An
-- error is only logged there, so what is left of it is the state. The file that counts transactions
-- is left out.
use relaychainmodel.Prelude.{
  Option, Option-elim, if◌then◌else◌, leb, ltb, none, not, some, ℕ, ◌&&◌, ◌==◌, ◌||◌,
}
use relaychainmodel.Prelude.Int.{eq_ℤ, leb_ℤ, ltb_ℤ, negsuc, pos, ℤ, ◌+ℤ◌}
use relaychainmodel.Prelude.Bytes.{Bytes}
use relaychainmodel.Types.BlockId.{is_zero}
use relaychainmodel.Types.Vote.{Vote}
use relaychainmodel.Types.ValidatorSet.{get_proposer}
use relaychainmodel.Types.PartSet.{Part, add_part, is_complete, read_all, new_part_set_from_header}
use relaychainmodel.Types.VoteSet.{is_some}
use relaychainmodel.Privval.Canonical.{Proposal, proposal_sign_bytes}
use relaychainmodel.Consensus.State.{
  State, Node, returned_value, on_return, timeout, ◌>>=◌, send, hashes_to, polka,
  is_proposal_complete, step_new_height, step_new_round, step_propose, step_prevote_wait,
  step_precommit_wait, step_commit,
}
use relaychainmodel.Consensus.Enter.{enter_new_round, enter_propose, enter_prevote, enter_precommit}
use relaychainmodel.Consensus.Commit.{try_finalize_commit}
use relaychainmodel.Consensus.Votes.{valid_on_proposal, add_consensus_vote}

-- What arrives: messages, timeouts with their step, height and round, and news of transactions.
pub data Event : Type 0 where
  proposal_received : Proposal → Event
  part_received : ℤ → Part → Event
  vote_received : Vote → Bytes → Event
  timed_out : ℕ → ℤ → ℤ → Event
  txs_available : Event

module _ (n : Node) where
  -- `defaultSetProposal`. A proposer that cannot be found is dereferenced.
  unfoldable pub set_proposal : Proposal → State → Option State
  set_proposal p s =
      if is_some s.proposal
      then some s
      else if not (eq_ℤ p.height s.height) || not (eq_ℤ p.round s.round)
      then some s
      else if ltb_ℤ p.pol_round (negsuc 0)
          || (leb_ℤ (pos 0) p.pol_round && leb_ℤ p.round p.pol_round)
      then some s
      else get_proposer s.validators >>= λ found. found >>= λ proposer.
          returned_value (proposal_sign_bytes n.codec s.chain.chain_id p) >>= λ message.
          if not (n.crypto.verify_signature proposer.pub_key message p.signature)
          then some s
          else some (record s {
            proposal = some p;
            proposal_block_parts =
                Option-elim s.proposal_block_parts
                  (some (new_part_set_from_header p.block_id.part_set_header))
                  (λ parts. some parts);
          })

  -- The valid block, after the last part of the proposal block has come.
  unfoldable pub valid_on_complete : State → State
  unfolding hashes_to
  valid_on_complete s = Option-elim (polka s s.round) s (λ b.
      if not (is_zero b) && (ltb_ℤ s.valid_round s.round && hashes_to s.proposal_block b.hash)
      then valid_on_proposal s.round s
      else s)

  -- `addProposalBlockPart` from the complete block on.
  unfoldable pub on_complete_block : ℤ → State → Option State
  unfolding valid_on_complete enter_prevote enter_precommit try_finalize_commit is_proposal_complete
  on_complete_block height s =
      let s' = valid_on_complete s in
      let voted = enter_prevote n height s'.round s' >>= λ s''.
      if is_some (polka s s.round) then enter_precommit n height s''.round s'' else some s'' in
      if leb s'.step step_propose && is_proposal_complete s'
      then voted
      else if s'.step == step_commit
      then try_finalize_commit n height s'
      else some s'

  -- `addProposalBlockPart`. The part goes into the set that the state points to; a set of parts that
  -- is locked or valid is complete and takes no part, so no other field sees the change.
  unfoldable pub add_proposal_block_part : ℤ → Part → State → Option State
  unfolding on_complete_block
  add_proposal_block_part height part s =
      if not (eq_ℤ s.height height)
      then some s
      else Option-elim s.proposal_block_parts (some s) (λ parts.
        on_return (add_part n.sum parts part) (some s) (λ (parts', added).
          let s' = record s { proposal_block_parts = some parts' } in
          if ltb n.max_bytes parts'.byte_size
          then some s'
          else if added && is_complete parts'
          then (read_all parts' >>= λ bytes.
              Option-elim (n.decode_block bytes) (some s')
                (λ block. on_complete_block height (record s' { proposal_block = some block })))
          else some s'))

  -- `handleTimeout`
  unfoldable pub handle_timeout : ℕ → ℤ → ℤ → State → Option State
  unfolding enter_new_round enter_propose enter_prevote enter_precommit
  handle_timeout step height round s =
      let next =
        enter_precommit n height round s >>= λ s'. enter_new_round n height (round +ℤ pos 1) s' in
      if not (eq_ℤ height s.height)
        || (ltb_ℤ round s.round || (eq_ℤ round s.round && ltb step s.step))
      then some s
      else if step == step_new_height
      then enter_new_round n height (pos 0) s
      else if step == step_new_round
      then enter_propose n height (pos 0) s
      else if step == step_propose
      then enter_prevote n height round s
      else if step == step_prevote_wait
      then enter_precommit n height round s
      else if step == step_precommit_wait
      then next
      else none

  -- `handleTxsAvailable`
  unfoldable pub handle_txs_available : State → Option State
  unfolding enter_propose
  handle_txs_available s =
      if not (eq_ℤ s.round (pos 0))
      then some s
      else if s.step == step_new_height
      then some (
          if n.need_proof_block s.height
          then s
          else send (timeout step_new_round s.height (pos 0)) s)
      else if s.step == step_new_round
      then enter_propose n s.height (pos 0) s
      else some s

  -- `handleMsg`, `handleTimeout` and `handleTxsAvailable`, as `receiveRoutine` calls them.
  unfoldable pub handle : Event → State → Option State
  unfolding set_proposal add_proposal_block_part add_consensus_vote handle_timeout
      handle_txs_available
  handle (proposal_received p) s = set_proposal p s
  handle (part_received height part) s = add_proposal_block_part height part s
  handle (vote_received vote peer) s = add_consensus_vote n vote peer s
  handle (timed_out step height round) s = handle_timeout step height round s
  handle txs_available s = handle_txs_available s

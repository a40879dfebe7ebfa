-- ===== src/Consensus/Runs.antt =====
-- What holds of a node in every run of internal/consensus/state.go: from NewState on, through any
-- messages, timeouts that were scheduled and news of transactions.
pub mod Guarantees
mod Tests
use relaychainmodel.Prelude.{[], Option, arith, some, ◌≡◌}
use relaychainmodel.Prelude.Int.{pos, ◌≤ℤ◌}
use relaychainmodel.Types.ValidatorSet.{IsValid}
use relaychainmodel.Types.VoteSet.{VoteSet}
use relaychainmodel.Consensus.HeightVoteSet.{new_height_vote_set}
use relaychainmodel.Consensus.HeightVoteSet.Steps.{new_height_vote_set-AllReach}
use relaychainmodel.Consensus.State.{ChainState, Node, State, timeout}
use relaychainmodel.Consensus.Commit.{at_height, first_last_commit, new_state, next_height}
use relaychainmodel.Consensus.Handle.{
  Event, handle, part_received, proposal_received, timed_out, txs_available, vote_received,
}
use relaychainmodel.Consensus.Protocol.{Moves, setting, since_start, view}
use relaychainmodel.Consensus.Protocol.Invariant.{Inv, from_origin}
use relaychainmodel.Consensus.Protocol.{Sent}
use relaychainmodel.Consensus.Protocol.Safety.{Moves-Inv, start-Inv}
use relaychainmodel.Consensus.Refinement.{
  Advances, Goes-Advances, Post, Post-map, Post-of, Post-read, Stays-Advances, ended,
}
use relaychainmodel.Consensus.Refinement.Commit.{AppliesValid, Executes, new_votes-OfState}
use relaychainmodel.Consensus.Refinement.Votes.{CanSign, add_consensus_vote-Advances}
use relaychainmodel.Consensus.Refinement.Handle.{
  add_proposal_block_part-Advances, handle_timeout-Goes, handle_txs_available-Goes,
  set_proposal-Stays,
}

-- What the world must see to: a vote is one whose sign bytes can be computed, which its basic
-- validation ensures, and a timeout of this height is one that was scheduled in it.
abbrev pub Admissible : Node → State → Event → Type 0
Admissible n s (proposal_received p) = Unit {0}
Admissible n s (part_received h part) = Unit {0}
Admissible n s (vote_received vote peer) = CanSign n.crypto vote
Admissible n s (timed_out step h r) = h ≡ s.height → Sent (timeout step h r) (since_start s.sent)
Admissible n s txs_available = Unit {0}

-- Events that the node handled without a panic.
pub data Run (n : Node) (s : State) : State → Type 0 where
  here : Run n s s
  next :
      {t u : State} (e : Event) → Run n s t → Admissible n t e → handle n e t ≡ some u → Run n s u

-- What every state of a run has.
pub record Reached (n : Node) (c : ChainState) (s : State) : Type 0 where
  pub inv : Inv (setting n c) (view s)
  pub begun : pos 0 ≤ℤ s.round

-- The first state of a run.
pub data Start (c : ChainState) (s : State) : Type 0 where
  starts : (stored : Option VoteSet) → new_state c stored ≡ some s → Start c s

new_state-Reached :
    (n : Node) (c : ChainState) (stored : Option VoteSet)
    → IsValid c.validators
    → Post (Reached n c) (new_state c stored)
unfolding new_state
new_state-Reached n c stored valid = Post-read _ (first_last_commit c stored) _ λ last e.
    Post-read _ (new_height_vote_set c.chain_id (next_height c) c.validators) _ λ votes f.
      let k = setting n c in
      let of_state = new_votes-OfState n.crypto c votes f in
      let h = next_height c in
      ended (record {
        inv =
            start-Inv k (view (at_height c last votes [])) h (rw of_state.val_set valid)
              (new_height_vote_set-AllReach n.crypto c.chain_id h c.validators votes f) from_origin
              of_state tt (λ block g. absurd (ground arith));
        begun = omega arith;
      })

-- The executor of a node is that of its setting.
valid-Executes : (n : Node) (c : ChainState) → AppliesValid n → Executes (setting n c) n
valid-Executes n c applies c' id b after e = (e, applies c' id b after e)

module _ (n : Node) (applies : AppliesValid n) where
  handle-Advances :
      (c : ChainState) (e : Event) (s : State)
      → Reached n c s
      → Admissible n s e
      → Post (Advances (setting n c) s) (handle n e s)
  unfolding handle
  handle-Advances c (proposal_received p) s r ok =
      Post-map _ _ _ (set_proposal-Stays n (setting n c) p s) (λ t. Stays-Advances)
  handle-Advances c (part_received h part) s r ok =
      add_proposal_block_part-Advances n (setting n c) (valid-Executes n c applies) h part s
  handle-Advances c (vote_received vote peer) s r ok =
      add_consensus_vote-Advances n c (valid-Executes n c applies) vote peer s ok
  handle-Advances c (timed_out step h round) s r ok =
      Post-map _ _ _
        (handle_timeout-Goes n (setting n c) step h round s r.begun
          (λ same other. r.inv.timeouts step h round (ok same) other))
        (λ t. Goes-Advances)
  handle-Advances c txs_available s r ok =
      Post-map _ _ _ (handle_txs_available-Goes n (setting n c) s) (λ t. Goes-Advances)

  -- What an admissible event that is handled without a panic, in a state of a run, does to the
  -- round, the lock, the votes and the messages is a sequence of the moves that the rules of
  -- locking allow. The block executor returns validators in order.
  pub handle-follows :
      {c : ChainState} (e : Event) (s s' : State)
      → Reached n c s
      → Admissible n s e
      → handle n e s ≡ some s'
      → Moves (setting n c) (view s) (view s')
  handle-follows {c} e s s' r ok h = (Post-of _ _ s' (handle-Advances c e s r ok) h).moves

  handle-Reached :
      {c : ChainState} (e : Event) (s s' : State)
      → Reached n c s
      → Admissible n s e
      → handle n e s ≡ some s'
      → Reached n c s'
  handle-Reached {c} e s s' r ok h =
      let on = Post-of _ _ s' (handle-Advances c e s r ok) h in
      record { inv = Moves-Inv (setting n c) r.inv on.moves; begun = on.rounds r.begun }

  pub Run-Reached :
      {c : ChainState} {s s' : State}
      → IsValid c.validators
      → Start c s
      → Run n s s'
      → Reached n c s'
  Run-Reached {c} {s} valid (starts stored e) here =
      Post-of _ _ s (new_state-Reached n c stored valid) e
  Run-Reached {c} {s} {s'} valid start (next {t = t} e run ok h) =
      handle-Reached e t s' (Run-Reached valid start run) ok h

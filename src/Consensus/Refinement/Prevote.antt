-- ===== src/Consensus/Refinement/Prevote.antt =====
-- A prevote follows the rules of locking.
use relaychainmodel.Prelude.{Option, arith, none, not, some, ◌≡◌}
use relaychainmodel.Prelude.Int.{ℤ, ◌≤ℤ◌}
use relaychainmodel.Types.BlockId.{BlockId, empty_block_id}
use relaychainmodel.Types.PartSet.{PartSet}
use relaychainmodel.Types.Vote.{prevote_type}
use relaychainmodel.Consensus.State.{State, Node, Block, is_done, sign_add_vote, step_prevote}
use relaychainmodel.Consensus.Enter.{do_prevote, enter_prevote, id_of}
use relaychainmodel.Consensus.Protocol.{Setting, prevote_locked, prevote_free}
use relaychainmodel.Consensus.Refinement.{
  Post, ended, Post-read, Post-elim, Post-bind, Post-if, Goes, Stays, Goes-refl, step-Goes,
  not_stale, Goes-trans, Stays-Goes, sign-Stays,
}

pub id_of-hash :
    (block : Block) (parts : Option PartSet) (b : BlockId)
    → id_of block parts ≡ some b
    → b.hash ≡ block.hash
id_of-hash block none b e = absurd (ground arith)
id_of-hash block (some parts) b e = ground arith

module _ (k : Setting) (n : Node) where
  do_prevote-Stays : (s : State) → Post (Stays k s) (do_prevote n s)
  unfolding do_prevote
  do_prevote-Stays s =
      Post-elim _ s.locked_block _ _
        (λ e.
          Post-elim _ s.proposal_block _ _ (λ f. ended (free e empty_block_id))
            (λ block f.
              Post-if _ (not (n.validate_block s.chain block)) _ _
                (λ g. ended (free e empty_block_id))
                (λ g.
                  Post-read _ (id_of block s.proposal_block_parts) _ (λ b h. ended (free e b)))))
        (λ locked e. Post-read _ (id_of locked s.locked_block_parts) _ (λ b h. ended (
          sign-Stays k n prevote_type b s
            (prevote_locked s.height locked b e (id_of-hash locked s.locked_block_parts b h)))))
    where
      free : s.locked_block ≡ none → (b : BlockId) → Stays k s (sign_add_vote n prevote_type b s)
      free e b = sign-Stays k n prevote_type b s (prevote_free s.height b e)

  pub enter_prevote-Goes :
      (h r : ℤ) (s : State) → r ≤ℤ s.round → Post (Goes k s) (enter_prevote n h r s)
  unfolding enter_prevote
  enter_prevote-Goes h r s below =
      Post-if _ (is_done s h r step_prevote) _ _ (λ e. ended (Goes-refl k s))
        (λ e. Post-bind _ _ (do_prevote n s) _ (do_prevote-Stays s) (λ s' f stays. ended (
          Goes-trans (Stays-Goes stays)
            (step-Goes k r step_prevote s' (rw stays.same (not_stale s h r _ e))))))

-- ===== src/Consensus/Refinement/Handle.antt =====
-- What the consensus does with a proposal, a part of a block, a timeout that was scheduled and news of
-- transactions follows the rules of locking.
use relaychainmodel.Prelude.{
  Option-cases, Option-elim, arith, false, inl, inr, leb, ltb, not, refl, some, ℕ, ◌==◌, ◌||◌, ◌&&◌,
  ◌≡◌,
}
use relaychainmodel.Prelude.Int.{eq_ℤ, eq_ℤ_iff, leb_ℤ, ltb_ℤ, negsuc, pos, ℤ, ◌≤ℤ◌, ◌+ℤ◌}
use relaychainmodel.Types.BlockId.{is_zero}
use relaychainmodel.Types.PartSet.{Part, add_part, is_complete, read_all}
use relaychainmodel.Types.ValidatorSet.{get_proposer}
use relaychainmodel.Types.VoteSet.{is_some}
use relaychainmodel.Privval.Canonical.{Proposal, proposal_sign_bytes}
use relaychainmodel.Consensus.State.{
  Node, State, hashes_to, is_proposal_complete, polka, returned_value, step_commit, step_new_height,
  step_new_round, step_precommit_wait, step_prevote_wait, step_propose,
}
use relaychainmodel.Consensus.Handle.{
  add_proposal_block_part, handle_timeout, handle_txs_available, on_complete_block, set_proposal,
  valid_on_complete,
}
use relaychainmodel.Consensus.Protocol.{Setting, schedule, stay}
use relaychainmodel.Consensus.Refinement.{
  Advances, Advances-refl, Advances-trans, Goes, Goes-Advances, Goes-refl, Goes-trans, Post,
  Post-bind, Post-elim, Post-if, Post-map, Post-read, Post-return, Stays, Stays-Goes, Stays-if,
  blocks-Stays, Stays-refl, Stays-Advances, ended, move-Stays, panicked,
}
use relaychainmodel.Consensus.Refinement.Prevote.{enter_prevote-Goes}
use relaychainmodel.Consensus.Refinement.Precommit.{enter_precommit-Goes}
use relaychainmodel.Consensus.Refinement.Round.{enter_new_round-Entered, enter_propose-Goes}
use relaychainmodel.Consensus.Refinement.Commit.{Executes, try_finalize_commit-Advances}

module _ (n : Node) (k : Setting) where
  pub set_proposal-Stays : (p : Proposal) (s : State) → Post (Stays k s) (set_proposal n p s)
  unfolding set_proposal
  set_proposal-Stays p s =
      Post-if _ (is_some s.proposal) _ _ (λ e. ended (Stays-refl k s))
        λ e.
          Post-if _ (not (eq_ℤ p.height s.height) || not (eq_ℤ p.round s.round)) _ _
            (λ f. ended (Stays-refl k s))
            λ f.
              Post-if _
                (ltb_ℤ p.pol_round (negsuc 0)
                  || (leb_ℤ (pos 0) p.pol_round && leb_ℤ p.round p.pol_round))
                _ _ (λ g. ended (Stays-refl k s))
                λ g. Post-read _ (get_proposer s.validators) _ λ found h.
                  Post-read _ found _ λ proposer i.
                    Post-read _ (returned_value (proposal_sign_bytes n.codec s.chain.chain_id p)) _
                      λ message j.
                        Post-if _
                          (not (n.crypto.verify_signature proposer.pub_key message p.signature)) _ _
                          (λ l. ended (Stays-refl k s))
                          (λ l. ended (record { moves = stay; same = refl }))

  valid_on_complete-Stays : (s : State) → Stays k s (valid_on_complete n s)
  unfolding valid_on_complete Option-elim
  valid_on_complete-Stays s = elim (Option-cases (polka s s.round)) [
    | inl e ↦ rw e (Stays-refl k s)
    | inr (b, e) ↦ rw e (
        Stays-if k
          (not (is_zero b) && (ltb_ℤ s.valid_round s.round && hashes_to s.proposal_block b.hash)) s
          _ s (blocks-Stays k s _ _ _ _ _) (Stays-refl k s))
  ]

  pub handle_txs_available-Goes : (s : State) → Post (Goes k s) (handle_txs_available n s)
  unfolding handle_txs_available
  handle_txs_available-Goes s =
      Post-if _ (not (eq_ℤ s.round (pos 0))) _ _ (λ e. ended (Goes-refl k s))
        λ e.
          Post-if _ (s.step == step_new_height) _ _
            (λ f. ended (
              Stays-Goes (
                Stays-if k (n.need_proof_block s.height) s s _ (Stays-refl k s) (
                  move-Stays k s _ (schedule step_new_round s.height (pos 0) refl (ground arith))
                    refl))))
            λ f.
              Post-if _ (s.step == step_new_round) _ _
                (λ g. enter_propose-Goes k n s.height (pos 0) s (ground arith))
                (λ g. ended (Goes-refl k s))

  -- A timeout of this height is for a round that has begun.
  pub handle_timeout-Goes :
      (step : ℕ) (h r : ℤ) (s : State)
      → pos 0 ≤ℤ s.round
      → (h ≡ s.height → (step == step_new_height) ≡ false → r ≤ℤ s.round)
      → Post (Goes k s) (handle_timeout n step h r s)
  unfolding handle_timeout
  handle_timeout-Goes step h r s begun scheduled =
      Post-if _ (not (eq_ℤ h s.height) || (ltb_ℤ r s.round || (eq_ℤ r s.round && ltb step s.step)))
        _ _ (λ e. ended (Goes-refl k s))
        λ e.
          let here : h ≡ s.height = (eq_ℤ_iff h s.height).0 (ground arith) in
          Post-if _ (step == step_new_height) _ _
            (λ f.
              Post-map _ _ _ (enter_new_round-Entered k n h (pos 0) s) λ t entered. entered.goes)
            λ f.
              let below = scheduled here f in
              Post-if _ (step == step_new_round) _ _ (λ g. enter_propose-Goes k n h (pos 0) s begun)
                λ g.
                  Post-if _ (step == step_propose) _ _ (λ g. enter_prevote-Goes k n h r s below)
                    λ g.
                      Post-if _ (step == step_prevote_wait) _ _
                        (λ g. enter_precommit-Goes k n h r s below)
                        λ g.
                          Post-if _ (step == step_precommit_wait) _ _
                            (λ i.
                              Post-bind _ _ _ _ (enter_precommit-Goes k n h r s below) λ s' j goes.
                                Post-map _ _ _ (enter_new_round-Entered k n h (r +ℤ pos 1) s')
                                  λ t entered. Goes-trans goes entered.goes)
                            (λ i. panicked)

module _ (n : Node) (k : Setting) (applies : Executes k n) where
  on_complete_block-Advances : (h : ℤ) (s : State) → Post (Advances k s) (on_complete_block n h s)
  unfolding on_complete_block
  on_complete_block-Advances h s =
      let s' = valid_on_complete n s in
      let kept = Stays-Advances (valid_on_complete-Stays n k s) in
      Post-if _ (leb s'.step step_propose && is_proposal_complete s') _ _
        (λ e. Post-bind _ _ _ _ (enter_prevote-Goes k n h s'.round s' (omega arith)) λ s'' f goes.
          let on = Advances-trans kept (Goes-Advances goes) in
          Post-if _ (is_some (polka s s.round)) _ _
            (λ g.
              Post-map _ _ _ (enter_precommit-Goes k n h s''.round s'' (omega arith))
                λ t onward. Advances-trans on (Goes-Advances onward))
            (λ g. ended on))
        λ e.
          Post-if _ (s'.step == step_commit) _ _
            (λ f.
              Post-map _ _ _ (try_finalize_commit-Advances k n applies h s')
                λ t onward. Advances-trans kept onward)
            (λ f. ended kept)

  pub add_proposal_block_part-Advances :
      (h : ℤ) (part : Part) (s : State) → Post (Advances k s) (add_proposal_block_part n h part s)
  unfolding add_proposal_block_part
  add_proposal_block_part-Advances h part s =
      Post-if _ (not (eq_ℤ s.height h)) _ _ (λ e. ended (Advances-refl k s))
        λ e.
          Post-elim _ s.proposal_block_parts _ _ (λ f. ended (Advances-refl k s))
            λ parts f.
              Post-return _ (add_part n.sum parts part) _ _ (ended (Advances-refl k s)) λ a g.
                let s' = record s { proposal_block_parts = some a.0 } in
                let kept : Advances k s s' = Stays-Advances (blocks-Stays k s _ _ _ _ _) in
                Post-if _ (ltb n.max_bytes a.0.byte_size) _ _ (λ i. ended kept)
                  λ i.
                    Post-if _ (a.1 && is_complete a.0) _ _
                      (λ j. Post-read _ (read_all a.0) _ λ bytes l.
                        Post-elim _ (n.decode_block bytes) _ _ (λ m. ended kept)
                          λ block m.
                            Post-map _ _ _
                              (on_complete_block-Advances h
                                (record s' { proposal_block = some block }))
                              λ t onward. record { moves = onward.moves; rounds = onward.rounds })
                      (λ j. ended kept)

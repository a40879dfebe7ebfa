-- ===== src/Consensus/Refinement/Votes.antt =====
-- What the consensus does with a vote follows the rules of locking, if the sign bytes of the vote can
-- be computed.
use relaychainmodel.Prelude.{
  Bool, Option-elim, Bool-cases, Option, Option-cases, arith, if◌then◌else◌, inl, inr, leb, none,
  not, refl, some, ◌==◌, ◌||◌, ◌&&◌, ◌≡◌,
}
use relaychainmodel.Prelude.Int.{eq_ℤ, leb_ℤ, ltb_ℤ, pos, ℤ, ◌≤ℤ◌}
use relaychainmodel.Prelude.Bytes.{Bytes}
use relaychainmodel.Prelude.Outcome.{ok}
use relaychainmodel.Types.BlockId.{BlockId, is_empty}
use relaychainmodel.Types.PartSet.{has_header}
use relaychainmodel.Types.Vote.{Crypto, Vote, precommit_type, prevote_type, vote_sign_bytes}
use relaychainmodel.Types.VoteSet.{add_vote, is_some, suc_int64}
use relaychainmodel.Consensus.HeightVoteSet.{
  HeightVoteSet, HvsError, add_height_vote, majority_of, precommits_of, prevotes_of,
}
use relaychainmodel.Consensus.HeightVoteSet.Steps.{add_height_vote-Keeps}
use relaychainmodel.Consensus.State.{
  ChainState, Node, State, all_of, any_of, hashes_to, is_proposal_complete, polka, step_new_height,
  step_prevote, unlocked,
}
use relaychainmodel.Consensus.Enter.{enter_prevote_wait}
use relaychainmodel.Consensus.Votes.{
  add_consensus_vote, add_last_precommit, after_precommit, after_prevote, on_polka, unlock_on_polka,
  update_valid_block, valid_on_proposal,
}
use relaychainmodel.Consensus.Protocol.{Setting, setting, release, stay, votes_grow}
use relaychainmodel.Consensus.Refinement.{
  Advances, Advances-refl, Advances-trans, Goes, Goes-Advances, Goes-refl, Goes-trans, Post,
  Post-bind, Post-elim, Post-if, Post-map, Post-read, Post-return, Stays, Stays-if, blocks-Stays,
  Stays-refl, Stays-trans, Stays-Advances, ended, move-Stays,
}
use relaychainmodel.Consensus.Refinement.Prevote.{enter_prevote-Goes}
use relaychainmodel.Consensus.Refinement.Precommit.{
  enter_precommit-Goes, enter_precommit_wait-Goes, enter_prevote_wait-Goes,
}
use relaychainmodel.Consensus.Refinement.Round.{enter_new_round-Entered}
use relaychainmodel.Consensus.Refinement.Commit.{Executes, enter_commit-Advances}

-- The sign bytes of a vote, which its basic validation makes sure of, can be computed.
abbrev pub CanSign : Crypto → Vote → Type 0
CanSign k vote =
    (chain_id : Bytes) → (message : Bytes) × (vote_sign_bytes k chain_id vote ≡ ok message)

module _ (k : Setting) where
  unlock_on_polka-Stays :
      (r : ℤ) (b : BlockId) (s : State) → polka s r ≡ some b → Stays k s (unlock_on_polka r b s)
  unfolding unlock_on_polka
  unlock_on_polka-Stays r b s majority =
      let test =
        is_some s.locked_block
        && (ltb_ℤ s.locked_round r && (leb_ℤ r s.round && not (hashes_to s.locked_block b.hash))) in
      elim (Bool-cases test) [
        | inr e ↦ rw e (Stays-refl k s)
        | inl e ↦ rw e (
            move-Stays k s (unlocked s)
              (release r b majority (ground arith) (ground arith) (inl (ground arith))) refl)
      ]

  update_valid_block-Stays :
      (r : ℤ) (b : BlockId) (s : State) → Stays k s (update_valid_block r b s)
  unfolding update_valid_block
  update_valid_block-Stays r b s =
      let s' =
        if hashes_to s.proposal_block b.hash
        then valid_on_proposal r s
        else record s { proposal_block = none } in
      Stays-if k (not (is_empty b.hash) && (ltb_ℤ s.valid_round r && eq_ℤ r s.round)) s _ s
        (Stays-trans
          (Stays-if k (hashes_to s.proposal_block b.hash) s _ _ (blocks-Stays k s _ _ _ _ _)
            (blocks-Stays k s _ _ _ _ _))
          (Stays-if k (has_header s'.proposal_block_parts b.part_set_header) s' _ _
            (Stays-refl k s') (blocks-Stays k s' _ _ _ _ _)))
        (Stays-refl k s)

module _ (n : Node) (k : Setting) where
  on_polka-Stays : (r : ℤ) (s : State) → Stays k s (on_polka n r s)
  unfolding on_polka Option-elim
  on_polka-Stays r s = elim (Option-cases (polka s r)) [
    | inl e ↦ rw e (Stays-refl k s)
    | inr (b, e) ↦ rw e (
        Stays-trans (unlock_on_polka-Stays k r b s e)
          (update_valid_block-Stays k r b (unlock_on_polka r b s)))
  ]

  after_prevote-Goes : (vote : Vote) (s : State) → Post (Goes k s) (after_prevote n vote s)
  unfolding after_prevote
  after_prevote-Goes vote s = Post-read _ (any_of (prevotes_of s.votes vote.round)) _ λ any e.
      Post-if _ (ltb_ℤ s.round vote.round && any) _ _
        (λ f.
          Post-map _ _ _ (enter_new_round-Entered k n s.height vote.round s)
            λ t entered. entered.goes)
        λ f.
          Post-if _ (eq_ℤ s.round vote.round && leb step_prevote s.step) _ _
            (λ g.
              Post-elim _ (polka s vote.round) _ _ (λ h. waits any (ground arith))
                λ b h.
                  Post-if _ (is_proposal_complete s || is_empty b.hash) _ _
                    (λ i. enter_precommit-Goes k n s.height vote.round s (ground arith))
                    (λ i. waits any (ground arith)))
            λ g.
              Post-elim _ s.proposal _ _ (λ h. ended (Goes-refl k s))
                λ p h.
                  Post-if _
                    (leb_ℤ (pos 0) p.pol_round
                      && (eq_ℤ p.pol_round vote.round && is_proposal_complete s))
                    _ _ (λ i. enter_prevote-Goes k n s.height s.round s (omega arith))
                    (λ i. ended (Goes-refl k s))
    where
      waits :
          (any : Bool)
          → vote.round ≤ℤ s.round
          → Post (Goes k s) (if any then enter_prevote_wait n s.height vote.round s else some s)
      waits any below =
          Post-if _ any _ _ (λ e. enter_prevote_wait-Goes k n s.height vote.round s below)
            (λ e. ended (Goes-refl k s))

module _ (n : Node) (k : Setting) (applies : Executes k n) where
  after_precommit-Advances :
      (vote : Vote) (s : State) → Post (Advances k s) (after_precommit n vote s)
  unfolding after_precommit
  after_precommit-Advances vote s =
      Post-elim _ (majority_of (precommits_of s.votes vote.round)) _ _
        (λ e. Post-read _ (any_of (precommits_of s.votes vote.round)) _ λ any f.
          Post-if _ (leb_ℤ s.round vote.round && any) _ _
            (λ g.
              Post-bind _ _ _ _ (enter_new_round-Entered k n s.height vote.round s) λ s₁ h entered.
                Post-map _ _ _
                  (enter_precommit_wait-Goes k n s.height vote.round s₁ (entered.reached refl))
                  λ t onward. Goes-Advances (Goes-trans entered.goes onward))
            (λ g. ended (Advances-refl k s)))
        λ b e. Post-read _ (all_of (precommits_of s.votes vote.round)) _ λ all f.
          Post-bind _ _ _ _ (enter_new_round-Entered k n s.height vote.round s) λ s₁ g entered.
            Post-bind _ _ _ _
              (enter_precommit-Goes k n s.height vote.round s₁ (entered.reached refl))
              λ s₂ h goes.
                let so_far = Goes-trans entered.goes goes in
                Post-if _ (is_empty b.hash) _ _
                  (λ i.
                    Post-map _ _ _
                      (enter_precommit_wait-Goes k n s.height vote.round s₂
                        (omega (arith, entered.reached refl, goes.later)))
                      λ t onward. Goes-Advances (Goes-trans so_far onward))
                  λ i.
                    Post-bind _ _ _ _ (enter_commit-Advances k n applies s.height vote.round s₂)
                      λ s₃ j committed.
                        let until = Advances-trans (Goes-Advances so_far) committed in
                        Post-if _ (n.skip_timeout_commit && all) _ _
                          (λ l.
                            Post-map _ _ _ (enter_new_round-Entered k n s₃.height (pos 0) s₃)
                              λ t onward. Advances-trans until (Goes-Advances onward.goes))
                          (λ l. ended until)

  add_last_precommit-Goes :
      (vote : Vote) (s : State) → Post (Goes k s) (add_last_precommit n vote s)
  unfolding add_last_precommit
  add_last_precommit-Goes vote s =
      Post-if _ (not (s.step == step_new_height)) _ _ (λ e. ended (Goes-refl k s))
        λ e. Post-read _ s.last_commit _ λ last f.
          Post-return _ (add_vote n.crypto last (some vote)) _ _ (ended (Goes-refl k s)) λ a g.
            let s' = record s { last_commit = some a.0 } in
            let kept : Goes k s s' = record { moves = stay; later = omega arith } in
            Post-if _ (not a.1) _ _ (λ h. ended kept)
              λ h. Post-read _ (all_of (some a.0)) _ λ all i.
                Post-if _ (n.skip_timeout_commit && all) _ _
                  (λ j.
                    Post-map _ _ _ (enter_new_round-Entered k n s'.height (pos 0) s')
                      λ t onward. Goes-trans kept onward.goes)
                  (λ j. ended kept)

module _ (n : Node) (origin : ChainState) (applies : Executes (setting n origin) n) where
  with_vote-Stays :
      (vote : Vote) (peer : Bytes) (s : State) (a : HeightVoteSet × Bool × Option HvsError)
      → CanSign n.crypto vote
      → add_height_vote n.crypto s.votes vote peer ≡ some a
      → Stays (setting n origin) s (record s { votes = a.0 })
  with_vote-Stays vote peer s a signs e =
      let (message, signed) = signs s.votes.chain_id in
      move-Stays (setting n origin) s _
        (votes_grow a.0 (λ valid reach.
          add_height_vote-Keeps n.crypto s.votes a.0 vote peer message a.1 a.2 valid signed reach
            e))
        refl

  pub add_consensus_vote-Advances :
      (vote : Vote) (peer : Bytes) (s : State)
      → CanSign n.crypto vote
      → Post (Advances (setting n origin) s) (add_consensus_vote n vote peer s)
  unfolding add_consensus_vote
  add_consensus_vote-Advances vote peer s signs =
      let k = setting n origin in
      Post-if _ (eq_ℤ (suc_int64 vote.height) s.height && (vote.type == precommit_type)) _ _
        (λ e. Post-map _ _ _ (add_last_precommit-Goes n k applies vote s) λ t. Goes-Advances)
        λ e.
          Post-if _ (not (eq_ℤ vote.height s.height)) _ _ (λ f. ended (Advances-refl k s))
            λ f. Post-read _ (add_height_vote n.crypto s.votes vote peer) _ λ a g.
              let s' = record s { votes = a.0 } in
              let grown = with_vote-Stays vote peer s a signs g in
              Post-if _ (not a.1) _ _ (λ h. ended (Stays-Advances grown))
                λ h.
                  Post-if _ (vote.type == prevote_type) _ _
                    (λ i.
                      Post-map _ _ _ (after_prevote-Goes n k vote (on_polka n vote.round s'))
                        λ t onward.
                          Advances-trans
                            (Stays-Advances (Stays-trans grown (on_polka-Stays n k vote.round s')))
                            (Goes-Advances onward))
                    (λ i.
                      Post-map _ _ _ (after_precommit-Advances n k applies vote s')
                        λ t onward. Advances-trans (Stays-Advances grown) onward)

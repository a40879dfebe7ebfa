-- ===== src/Consensus/Refinement/Precommit.antt =====
-- A precommit, and the waits for votes, follow the rules of locking.
use relaychainmodel.Prelude.{
  Bool-cases, Option, arith, false, if◌then◌else◌, inl, inr, none, not, refl, some, true, ◌||◌,
  ◌&&◌, ◌≡◌,
}
use relaychainmodel.Prelude.Int.{eq_ℤ, ltb_ℤ, ℤ, ◌≤ℤ◌}
use relaychainmodel.Types.BlockId.{BlockId, PartSetHeader, empty_block_id, is_empty}
use relaychainmodel.Types.PartSet.{has_header}
use relaychainmodel.Types.Vote.{precommit_type}
use relaychainmodel.Types.VoteSet.{is_some}
use relaychainmodel.Consensus.HeightVoteSet.{pol_info, prevotes_of, precommits_of}
use relaychainmodel.Consensus.State.{
  State, Node, Block, any_of, hashes_to, is_done, is_stale, polka, send, sign_add_vote,
  step_precommit, step_prevote_wait, step_precommit_wait, timeout, unlocked,
}
use relaychainmodel.Consensus.Enter.{
  enter_precommit, enter_precommit_wait, enter_prevote_wait, expecting, locked_on_proposal,
  precommit_majority,
}
use relaychainmodel.Consensus.Protocol.{
  Setting, lock_again, lock_block, precommit_block, precommit_nil, release, schedule, stay,
}
use relaychainmodel.Consensus.Refinement.{
  Goes, Goes-refl, Goes-trans, Post, Post-bind, Post-elim, Post-if, Post-read, Stays, Stays-Goes,
  Stays-trans, ended, not_stale, panicked, sign-Stays, step-Goes, this_round, move-Stays,
}

no_hash : (o : Option Block) (b : BlockId) → is_empty b.hash ≡ true → hashes_to o b.hash ≡ false
unfolding hashes_to
no_hash none b e = refl
no_hash (some block) b e = rw e refl

module _ (k : Setting) (n : Node) where
  pub expecting-Stays : (h : PartSetHeader) (s : State) → Stays k s (expecting n h s)
  expecting-Stays h s = elim (Bool-cases (has_header s.proposal_block_parts h)) [
    | inl e ↦ rw e (record { moves = stay; same = refl })
    | inr e ↦ rw e (record { moves = stay; same = refl })
  ]

  nil-Stays : (s : State) → Stays k s (sign_add_vote n precommit_type empty_block_id s)
  nil-Stays s = sign-Stays k n precommit_type empty_block_id s (precommit_nil s.height)

  module _ (s : State) (b : BlockId) (majority : polka s s.round ≡ some b) where
    release-Stays : hashes_to s.locked_block b.hash ≡ false → Stays k s (unlocked s)
    release-Stays other =
        move-Stays k s (unlocked s) (release s.round b majority other (omega arith) (inr refl)) refl

    for_nil-Stays :
        is_empty b.hash ≡ true
        → Stays k s (
            sign_add_vote n precommit_type empty_block_id
              (if is_some s.locked_block then unlocked s else s))
    for_nil-Stays e = elim (Bool-cases (is_some s.locked_block)) [
      | inl f ↦
          rw f (Stays-trans (release-Stays (no_hash s.locked_block b e)) (nil-Stays (unlocked s)))
      | inr f ↦ rw f (nil-Stays s)
    ]

    again-Stays :
        hashes_to s.locked_block b.hash ≡ true
        → Stays k s (sign_add_vote n precommit_type b (record s { locked_round = s.round }))
    again-Stays hashes =
        let s' : State = record s { locked_round = s.round } in
        Stays-trans (move-Stays k s s' (lock_again b majority hashes) refl)
          (sign-Stays k n precommit_type b s' (precommit_block s.height b majority refl hashes))

    lock-Stays :
        (block : Block)
        → hashes_to s.locked_block b.hash ≡ false
        → hashes_to (some block) b.hash ≡ true
        → Stays k s (sign_add_vote n precommit_type b (locked_on_proposal n block s.round s))
    lock-Stays block other hashes =
        let s' = locked_on_proposal n block s.round s in
        Stays-trans (move-Stays k s s' (lock_block block b majority other hashes) refl)
          (sign-Stays k n precommit_type b s' (precommit_block s.height b majority refl hashes))

    precommit_majority-Stays : Post (Stays k s) (precommit_majority n s.round b s)
    unfolding precommit_majority
    precommit_majority-Stays =
        Post-if _ (ltb_ℤ (pol_info s.votes).0 s.round) _ _ (λ e. panicked)
          λ e.
            Post-if _ (is_empty b.hash) _ _ (λ f. ended (for_nil-Stays f))
              λ f.
                Post-if _ (hashes_to s.locked_block b.hash) _ _ (λ g. ended (again-Stays g))
                  λ g.
                    Post-if _ (hashes_to s.proposal_block b.hash) _ _
                      (λ h. Post-read _ s.proposal_block _ λ block i.
                        Post-if _ (not (n.validate_block s.chain block)) _ _ (λ j. panicked)
                          λ j. ended (lock-Stays block g (rw i at h)))
                      λ h. ended (
                        Stays-trans (release-Stays g) (
                          Stays-trans (expecting-Stays b.part_set_header (unlocked s))
                            (nil-Stays _)))

  pub enter_precommit-Goes :
      (h r : ℤ) (s : State) → r ≤ℤ s.round → Post (Goes k s) (enter_precommit n h r s)
  unfolding enter_precommit
  enter_precommit-Goes h r s below =
      Post-if _ (is_done s h r step_precommit) _ _ (λ e. ended (Goes-refl k s))
        λ e.
          let now = (this_round s h r (ground arith) below).0 in
          Post-bind _ (Stays k s) _ _
            (Post-elim _ (polka s r) _ _ (λ f. ended (nil-Stays s))
              (λ b f. rw (← now) (precommit_majority-Stays s b (rw now f))))
            (λ s' f stays. ended (
              Goes-trans (Stays-Goes stays)
                (step-Goes k r step_precommit s' (rw stays.same (not_stale s h r _ e)))))

  pub enter_prevote_wait-Goes :
      (h r : ℤ) (s : State) → r ≤ℤ s.round → Post (Goes k s) (enter_prevote_wait n h r s)
  unfolding enter_prevote_wait
  enter_prevote_wait-Goes h r s below =
      Post-if _ (is_done s h r step_prevote_wait) _ _ (λ e. ended (Goes-refl k s))
        λ e. Post-read _ (any_of (prevotes_of s.votes r)) _ λ enough f.
          Post-if _ (not enough) _ _ (λ g. panicked)
            λ g.
              let s' = send (timeout step_prevote_wait h r) s in
              ended (
                Goes-trans
                  (Stays-Goes (move-Stays k s s' (schedule step_prevote_wait h r refl below) refl))
                  (step-Goes k r step_prevote_wait s' (not_stale s h r _ e)))

  pub enter_precommit_wait-Goes :
      (h r : ℤ) (s : State) → r ≤ℤ s.round → Post (Goes k s) (enter_precommit_wait n h r s)
  unfolding enter_precommit_wait
  enter_precommit_wait-Goes h r s below =
      Post-if _ (is_stale s h r || (eq_ℤ s.round r && s.triggered_timeout_precommit)) _ _
        (λ e. ended (Goes-refl k s))
        λ e. Post-read _ (any_of (precommits_of s.votes r)) _ λ enough f.
          Post-if _ (not enough) _ _ (λ g. panicked)
            λ g.
              ended
                (Stays-Goes (move-Stays k s _ (schedule step_precommit_wait h r refl below) refl))

-- ===== src/Consensus/Refinement/Round.antt =====
-- The start of a round, and its propose step, follow the rules of locking.
use relaychainmodel.Prelude.{
  Bool-cases, arith, inl, true, inr, not, refl, some, ◌==◌, ◌||◌, ◌&&◌, ◌≡◌,
}
use relaychainmodel.Prelude.Int.{eq_ℤ, eq_ℤ_iff, pos, ℤ, ◌≤ℤ◌}
use relaychainmodel.Prelude.Bytes.{bytes_eq}
use relaychainmodel.SafeMath.{safe_add_int32}
use relaychainmodel.Types.ValidatorSet.{get_proposer}
use relaychainmodel.Consensus.HeightVoteSet.{HeightVoteSet, set_round}
use relaychainmodel.Consensus.HeightVoteSet.Steps.{set_round-Keeps}
use relaychainmodel.Consensus.State.{
  State, Node, has_address, is_done, is_proposal_complete, is_stale, send, step_new_height,
  step_new_round, step_propose, timeout, update_round_step,
}
use relaychainmodel.Consensus.Enter.{
  begin_round, enter_new_round, enter_propose, propose, validators_at,
}
use relaychainmodel.Consensus.Protocol.{
  Setting, Moves, followed, next_round, one, propose_block, schedule, view, votes_grow,
}
use relaychainmodel.Consensus.Refinement.{
  Goes, Goes-refl, Goes-trans, Post, Post-bind, Post-elim, Post-if, Post-map, Post-read, Stays,
  Stays-Goes, Stays-if, Stays-refl, Stays-trans, ended, not_stale, step-Goes, move-Stays,
}
use relaychainmodel.Consensus.Refinement.Prevote.{enter_prevote-Goes}

-- A call for this height leads to its round, or is for a round that is over.
pub record Entered (k : Setting) (h r : ℤ) (s s' : State) : Type 0 where
  pub goes : Goes k s s'
  pub reached : s.height ≡ h → r ≤ℤ s'.round

module _ (k : Setting) (n : Node) where
  propose-Stays : (h r : ℤ) (s : State) → r ≤ℤ s.round → Post (Stays k s) (propose n h r s)
  unfolding propose
  propose-Stays h r s below =
      Post-elim _ n.address _ _ (λ e. ended asked)
        λ a e.
          Post-if _ (not (has_address s.validators a)) _ _ (λ f. ended asked)
            λ f. Post-read _ (get_proposer s.validators) _ λ found g. Post-read _ found _ λ p h'.
              Post-if _ (bytes_eq p.address a) _ _
                (λ i. ended (Stays-trans asked (move-Stays k s' _ (propose_block h r) refl)))
                (λ i. ended asked)
    where
      s' : State
      s' = send (timeout step_propose h r) s

      asked : Stays k s s'
      asked = move-Stays k s s' (schedule step_propose h r refl below) refl

  pub enter_propose-Goes :
      (h r : ℤ) (s : State) → r ≤ℤ s.round → Post (Goes k s) (enter_propose n h r s)
  unfolding enter_propose
  enter_propose-Goes h r s below =
      Post-if _ (is_done s h r step_propose) _ _ (λ e. ended (Goes-refl k s))
        λ e. Post-bind _ (Stays k s) _ _ (propose-Stays h r s below) λ s' f stays.
          let s'' = update_round_step r step_propose s' in
          let goes : Goes k s s'' =
            Goes-trans (Stays-Goes stays)
              (step-Goes k r step_propose s' (rw stays.same (not_stale s h r _ e))) in
          Post-if _ (is_proposal_complete s'') _ _
            (λ g.
              Post-map _ _ _ (enter_prevote-Goes k n h r s'' (omega arith))
                λ t onward. Goes-trans goes onward)
            (λ g. ended goes)

  -- A state in the round that it was moved to.
  record Begun (s : State) (r : ℤ) (s' : State) : Type 0 where
    goes : Goes k s s'
    now : s'.round ≡ r

  new_votes :
      (r : ℤ) (s : State) (votes : HeightVoteSet) (next : ℤ)
      → s.round ≤ℤ r
      → set_round s.votes next ≡ some votes
      → Moves k (view s) (record (view s) { round = r; votes = votes })
  new_votes r s votes next later e =
      followed (one k (next_round r later))
        (votes_grow votes (λ valid reach. set_round-Keeps k.crypto s.votes votes next reach e))

  begin_round-Begun : (r : ℤ) (s : State) → s.round ≤ℤ r → Post (Begun s r) (begin_round n r s)
  unfolding begin_round
  begin_round-Begun r s later = Post-read _ (validators_at n r s) _ λ vals e.
      Post-read _ (safe_add_int32 r (pos 1)) _ λ next f. elim (Bool-cases (eq_ℤ r (pos 0))) [
        | inl g ↦ rw g (
            Post-read _ (set_round s.votes next) _ λ votes i. ended (record {
              goes = record { moves = new_votes r s votes next later i; later = later };
              now = refl;
            }))
        | inr g ↦ rw g (
            Post-read _ (set_round s.votes next) _ λ votes i. ended (record {
              goes = record { moves = new_votes r s votes next later i; later = later };
              now = refl;
            }))
      ]

  pub enter_new_round-Entered :
      (h r : ℤ) (s : State) → Post (Entered k h r s) (enter_new_round n h r s)
  unfolding enter_new_round
  enter_new_round-Entered h r s =
      Post-if _ (is_stale s h r || (eq_ℤ s.round r && not (s.step == step_new_height))) _ _
        (λ e. ended (record { goes = Goes-refl k s; reached = λ same. skipped same e }))
        λ e. Post-bind _ (Begun s r) _ _ (begin_round-Begun r s (not_stale s h r _ e)) λ s' f begun.
          Post-if _ (n.wait_for_txs && (eq_ℤ r (pos 0) && not (n.need_proof_block h))) _ _
            (λ g. ended (
              onward s' begun (
                Stays-Goes (
                  Stays-if k n.empty_blocks_interval s' _ s'
                    (move-Stays k s' _
                      (schedule step_new_round h r refl (rw begun.now (omega arith))) refl)
                    (Stays-refl k s')))))
            (λ g.
              Post-map _ _ _ (enter_propose-Goes h r s' (rw begun.now (omega arith)))
                (λ t. onward s' begun))
    where
      skipped :
          s.height ≡ h
          → is_stale s h r || (eq_ℤ s.round r && not (s.step == step_new_height)) ≡ true
          → r ≤ℤ s.round
      skipped same e = ground (arith, (eq_ℤ_iff s.height h).1 same)

      onward : (s' : State) → Begun s r s' → {t : State} → Goes k s' t → Entered k h r s t
      onward s' begun goes = record {
        goes = Goes-trans begun.goes goes;
        reached = λ same. rw (← begun.now) goes.later;
      }

-- ===== src/Consensus/Refinement/Commit.antt =====
-- The commit of a block, and the next height, follow the rules of locking, if what the block executor
-- returns has validators that are in order.
use relaychainmodel.Prelude.{
  Option, none, arith, inl, refl, if◌then◌else◌, leb, not, some, true, ◌==◌, ◌||◌, ◌≡◌,
}
use relaychainmodel.Prelude.Int.{eq_ℤ, leb_ℤ, pos, ℤ}
use relaychainmodel.Types.BlockId.{psh_equals_iff, BlockId, is_empty}
use relaychainmodel.Types.PartSet.{PartSet, has_header, header_of}
use relaychainmodel.Types.ValidatorSet.{IsValid}
use relaychainmodel.Types.Vote.{Crypto}
use relaychainmodel.Consensus.HeightVoteSet.{HeightVoteSet, new_height_vote_set}
use relaychainmodel.Consensus.HeightVoteSet.Steps.{
  new_height_vote_set-AllReach, new_height_vote_set-fields,
}
use relaychainmodel.Consensus.State.{
  Block, ChainState, Node, State, commit_block, commit_majority, hashes_to, send, step_commit,
  step_new_height, timeout, update_round_step,
}
use relaychainmodel.Consensus.Enter.{expecting, id_of}
use relaychainmodel.Consensus.Commit.{
  commit_checked, enter_commit, finalize_commit, is_next_state, last_commit_for, next_height,
  propose_locked, try_finalize_commit, update_to_state,
}
use relaychainmodel.Consensus.Protocol.{
  Committed, OfState, Setting, decisions_of, commit, one, start_again,
}
use relaychainmodel.Consensus.Protocol as Protocol
use relaychainmodel.Consensus.Protocol.Invariant.Locking.{hashes_to-eq}
use relaychainmodel.Consensus.Refinement.{
  Advances, Advances-refl, Advances-trans, Post, Post-bind, Post-elim, Post-if, Post-map, Post-read,
  Stays, Stays-if, blocks-Stays, Stays-refl, Stays-trans, Stays-Advances, ended, panicked,
}
use relaychainmodel.Consensus.Refinement.Precommit.{expecting-Stays}

-- What is sent when a height begins.
abbrev started : State → State
started s = send (timeout step_new_height s.height (pos 0)) s

-- The validators after a block that was applied are in order.
abbrev pub AppliesValid : Node → Type 0
AppliesValid n =
    (c : ChainState) (id : BlockId) (b : Block) (c' : ChainState)
    → n.apply_block c id b ≡ some c'
    → IsValid c'.validators

-- A node's executor is the setting's, and the validators that it returns are in order.
abbrev pub Executes : Setting → Node → Type 0
Executes k n =
    (c : ChainState) (id : BlockId) (b : Block) (c' : ChainState)
    → n.apply_block c id b ≡ some c'
    → (k.apply_block c id b ≡ some c') × IsValid c'.validators

pub new_votes-OfState :
    (k : Crypto) (c : ChainState) (votes : HeightVoteSet)
    → new_height_vote_set c.chain_id (next_height c) c.validators ≡ some votes
    → OfState c votes (next_height c)
new_votes-OfState k c votes e =
    let (chain_id, val_set, height) =
      new_height_vote_set-fields k c.chain_id (next_height c) c.validators votes e in
    record { chain_id = chain_id; val_set = val_set; height = height; next = refl }

module _ (k : Setting) where
  update_to_state-Advances :
      (id : BlockId) (block : Block) (c : ChainState) (s : State)
      → Committed s.height id block (decisions_of s.sent)
      → k.apply_block s.chain id block ≡ some c
      → IsValid c.validators
      → Post (λ s'. Advances k s (started s')) (update_to_state c s)
  unfolding update_to_state
  update_to_state-Advances id block c s committed applied valid =
      Post-if _ (not (is_next_state c s)) _ _ (λ e. panicked)
        λ e.
          Post-if _ (leb_ℤ c.last_block_height s.chain.last_block_height) _ _
            (λ f. ended (record { moves = one k (start_again s.height); rounds = λ h. h }))
            λ f. Post-read _ (last_commit_for c s) _ λ last g.
              Post-read _ (new_height_vote_set c.chain_id (next_height c) c.validators) _ λ votes h.
                ended (record {
                  moves = one k (
                      Protocol.next_height id block c votes committed applied valid
                        (new_height_vote_set-AllReach k.crypto c.chain_id (next_height c)
                          c.validators votes h)
                        (new_votes-OfState k.crypto c votes h));
                  rounds = λ h. omega arith;
                })

-- A block and parts that a block identifier was checked against have it as theirs.
id_of-eq :
    (block : Block) (parts : Option PartSet) (b id : BlockId)
    → id_of block parts ≡ some id
    → has_header parts b.part_set_header ≡ true
    → hashes_to (some block) b.hash ≡ true
    → id ≡ b
id_of-eq block none b id e header hashes = absurd (ground arith)
id_of-eq block (some parts) b id e header hashes =
    let same_hash = (hashes_to-eq block b.hash hashes).0 in
    let same_header = (psh_equals_iff (header_of parts) b.part_set_header).0 header in ground arith

module _ (k : Setting) (n : Node) (applies : Executes k n) where
  commit_checked-Advances :
      (b : BlockId) (block : Block) (s : State)
      → commit_majority s s.commit_round ≡ some b
      → hashes_to (some block) b.hash ≡ true
      → has_header s.proposal_block_parts b.part_set_header ≡ true
      → Post (Advances k s) (commit_checked n b block s)
  unfolding commit_checked
  commit_checked-Advances b block s majority hashes header =
      let s' = send (commit_block s.height s.commit_round b block) s in
      let committed : Advances k s s' = record {
        moves = one k (commit s.commit_round b block majority hashes);
        rounds = λ h. h;
      } in
      Post-read _ (id_of block s.proposal_block_parts) _ λ id e.
        Post-elim _ (n.apply_block s.chain id block) _ _ (λ f. ended committed)
          λ c f.
            let (applied, valid) = applies s.chain id block c f in
            let here : Committed s.height id block (decisions_of s'.sent) = (
              s.commit_round,
              inl (rw (id_of-eq block s.proposal_block_parts b id e header hashes) refl),
            ) in
            Post-bind _ _ _ _ (update_to_state-Advances k id block c s' here applied valid)
              λ s'' g onward. ended (Advances-trans committed onward)

  finalize_commit-Advances : (h : ℤ) (s : State) → Post (Advances k s) (finalize_commit n h s)
  unfolding finalize_commit
  finalize_commit-Advances h s =
      Post-if _ (not (eq_ℤ s.height h) || not (s.step == step_commit)) _ _
        (λ e. ended (Advances-refl k s))
        λ e. Post-read _ (commit_majority s s.commit_round) _ λ b majority.
          Post-if _ (not (has_header s.proposal_block_parts b.part_set_header)) _ _ (λ f. panicked)
            λ f.
              Post-if _ (not (hashes_to s.proposal_block b.hash)) _ _ (λ g. panicked)
                λ g. Post-read _ s.proposal_block _ λ block i.
                  Post-if _ (not (n.validate_block s.chain block)) _ _ (λ j. panicked)
                    λ j.
                      commit_checked-Advances b block s majority (rw (← i) (ground arith))
                        (ground arith)

  pub try_finalize_commit-Advances :
      (h : ℤ) (s : State) → Post (Advances k s) (try_finalize_commit n h s)
  unfolding try_finalize_commit
  try_finalize_commit-Advances h s =
      Post-if _ (not (eq_ℤ s.height h)) _ _ (λ e. panicked)
        λ e.
          Post-elim _ (commit_majority s s.commit_round) _ _ (λ f. ended (Advances-refl k s))
            λ b f.
              Post-if _ (is_empty b.hash) _ _ (λ g. ended (Advances-refl k s))
                λ g.
                  Post-if _ (not (hashes_to s.proposal_block b.hash)) _ _
                    (λ i. ended (Advances-refl k s)) λ i. finalize_commit-Advances h s

  -- The block and the parts that are waited for are not what the rules are about.
  prepared-Stays :
      (b : BlockId) (s : State)
      → let s₁ = propose_locked n b s in
        Stays k s
          (if hashes_to s₁.proposal_block b.hash then s₁ else expecting n b.part_set_header s₁)
  prepared-Stays b s =
      let s₁ = propose_locked n b s in
      Stays-trans
        (Stays-if k (hashes_to s.locked_block b.hash) s _ s (blocks-Stays k s _ _ _ _ _)
          (Stays-refl k s))
        (Stays-if k (hashes_to s₁.proposal_block b.hash) s₁ s₁ _ (Stays-refl k s₁)
          (expecting-Stays k n b.part_set_header s₁))

  pub enter_commit-Advances : (h r : ℤ) (s : State) → Post (Advances k s) (enter_commit n h r s)
  unfolding enter_commit
  enter_commit-Advances h r s =
      Post-if _ (not (eq_ℤ s.height h) || leb step_commit s.step) _ _
        (λ e. ended (Advances-refl k s))
        λ e. Post-read _ (commit_majority s r) _ λ b f.
          let s₁ = propose_locked n b s in
          let s₂ =
            if hashes_to s₁.proposal_block b.hash then s₁ else expecting n b.part_set_header s₁ in
          let s₃ = record (update_round_step s₂.round step_commit s₂) { commit_round = r } in
          Post-map _ _ _ (try_finalize_commit-Advances h s₃) λ t onward.
            Advances-trans (Stays-Advances (prepared-Stays b s))
              (record { moves = onward.moves; rounds = onward.rounds })

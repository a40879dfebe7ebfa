-- ===== src/Consensus/Protocol/Safety.antt =====
-- Every move keeps the invariant of locking.
use relaychainmodel.Prelude.{
  Option, Option-cases, [], arith, false, inl, inr, none, some, sym, true, ℕ, ◌==◌, ◌∙◌, ◌∷◌, ◌≡◌,
  ◌≢◌,
}
use relaychainmodel.Prelude.Int.{negsuc, pos, ℤ, ◌≤ℤ◌}
use relaychainmodel.Types.BlockId.{BlockId, empty_block_id}
use relaychainmodel.Types.Vote.{prevote_type, precommit_type}
use relaychainmodel.Types.ValidatorSet.{IsValid}
use relaychainmodel.Consensus.HeightVoteSet.{get_vote_set, lookup_round, majority_of, precommits_of}
use relaychainmodel.Consensus.HeightVoteSet.Growth.{AllReach}
use relaychainmodel.Consensus.State.{
  Block, Output, sign_vote, timeout, decide_proposal, commit_block, hashes_to, step_new_height,
}
use relaychainmodel.Consensus.Commit as Commit
use relaychainmodel.Consensus.Protocol.{
  OfState, Setting, View, polka_at, logged, Move, Moves, votes_grow, next_round, schedule,
  propose_block, prevote_locked, prevote_free, lock_again, lock_block, release, precommit_nil,
  precommit_block, commit, next_height, start_again, stay, followed,
}
use relaychainmodel.Consensus.Protocol.Invariant.{
  AllDecided, Chained, applied, Decided, Holds, Inv, grow-Inv, next_round-Inv,
}
use relaychainmodel.Consensus.Protocol.Invariant.Locking.{
  hashes_to-eq, lock_again-Inv, lock_block-Inv, release-Inv, logged-Inv, precommit-Inv, prevote-Inv,
}

nothing_held : {o : Option Block} (c : BlockId) → o ≡ none → hashes_to o c.hash ≢ true
unfolding hashes_to
nothing_held c e hashes = ground arith

module _ (k : Setting) where
  -- At the start of a height nothing has been sent but the timeout that starts it.
  pub start-Inv :
      (v : View) (h : ℤ)
      → IsValid v.votes.val_set
      → AllReach k.crypto v.votes
      → Chained k v.decisions v.chain
      → OfState v.chain v.votes v.height
      → AllDecided k v.decisions
      → ((block : Block)
          → v.locked_block ≡ some block
          → (b : BlockId) × (polka_at v v.locked_round ≡ some b)
            × (hashes_to (some block) b.hash ≡ true)
            × (v.locked_round ≤ℤ v.round))
      → Inv k (record v { log = timeout step_new_height h (pos 0) ∷ [] })
  start-Inv v h valid reach on of_state decisions locked = record {
    chained = on;
    of_state = of_state;
    decisions = decisions;
    valid = valid;
    reach = reach;
    locked = locked;
    precommits =
        λ h' r b sent full. elim sent [ inl e ↦ absurd (ground arith) | inr never ↦ absurd never ];
    respects = (λ h' r b e. absurd (ground arith), tt);
    timeouts = λ step h' r sent other. elim sent [
      | inl e ↦ absurd (ground arith)
      | inr never ↦ absurd never
    ];
  }

  module _ (v : View) (inv : Inv k v) where
    -- The locked node's own block is what its precommits were for.
    locked-agrees :
        (block : Block) (b : BlockId)
        → v.locked_block ≡ some block
        → b.hash ≡ block.hash
        → (r : ℤ) (c : BlockId) → Holds v r c
        → b.hash ≡ c.hash
    locked-agrees block b lock same r c (hashes, early) =
        same ∙ (hashes_to-eq block c.hash (rw lock at hashes)).0

    other-Inv :
        (o : Output)
        → Decided k v.decisions o
        → ((type : ℕ) (h r : ℤ) (b : BlockId) → sign_vote type h r b ≢ o)
        → ((step : ℕ) (h r : ℤ)
            → timeout step h r ≡ o
            → (step == step_new_height) ≡ false
            → r ≤ℤ v.round)
        → Inv k (logged o v)
    other-Inv o decision not_vote scheduled =
        logged-Inv k v inv o decision (λ h r b e. absurd (not_vote precommit_type h r b e))
          (λ h r b e. absurd (not_vote prevote_type h r b e)) scheduled

  -- The majority of a commit is one of the sets of votes of this height.
  commit-Decided :
      (v : View)
      → Inv k v
      → (r : ℤ) (b : BlockId) (block : Block) → majority_of (precommits_of v.votes r) ≡ some b
      → hashes_to (some block) b.hash ≡ true
      → Decided k v.decisions (commit_block v.height r b block)
  unfolding get_vote_set
  commit-Decided v inv r b block majority hashes =
      elim (Option-cases (lookup_round r v.votes.round_vote_sets)) [
        | inl e ↦ absurd (ground arith)
        | inr (rvs, e) ↦ (
          v.chain,
          rvs.precommits,
          inv.chained,
          sym inv.of_state.next,
          rw (← inv.of_state.val_set) inv.valid,
          rw (← inv.of_state.height, ← inv.of_state.chain_id, ← inv.of_state.val_set)
              ((inv.reach.sets r rvs e).1),
          ground arith,
          hashes,
        )
      ]

  pub Move-Inv : {v w : View} → Inv k v → Move k v w → Inv k w
  Move-Inv {v} inv (votes_grow votes keeps) = grow-Inv k v votes inv (keeps inv.valid inv.reach)
  Move-Inv {v} inv (next_round r later) = next_round-Inv k v r inv later
  Move-Inv {v} inv (schedule step h r other below) =
      other-Inv v inv (timeout step h r) tt (λ type h' r' b e. ground arith)
        (λ step' h' r' e other'. rw (the_round e) below)
    where
      the_round : {s s' : ℕ} {h h' r r' : ℤ} → timeout s h r ≡ timeout s' h' r' → r ≡ r'
      the_round e = cc
  Move-Inv {v} inv (propose_block h r) =
      other-Inv v inv (decide_proposal h r) tt (λ type h' r' b e. ground arith)
        (λ step h' r' e. absurd (ground arith))
  Move-Inv {v} inv (prevote_locked h block b lock same) =
      prevote-Inv k v inv h b (locked-agrees v inv block b lock same)
  Move-Inv {v} inv (prevote_free h b free) =
      prevote-Inv k v inv h b (λ r c (hashes, early). absurd (nothing_held c free hashes))
  Move-Inv {v} inv (lock_again b polka hashes) = lock_again-Inv k v inv b polka hashes
  Move-Inv {v} inv (lock_block block b polka other hashes) =
      lock_block-Inv k v inv block b polka other hashes
  Move-Inv {v} inv (release r b polka other below late) =
      release-Inv k v inv r b polka other below late
  Move-Inv {v} inv (precommit_nil h) =
      precommit-Inv k v inv h empty_block_id (λ full. absurd (ground arith))
  Move-Inv {v} inv (precommit_block h b polka now hashes) =
      precommit-Inv k v inv h b (λ full. (polka, (hashes, rw now (omega arith))))
  Move-Inv {v} inv (commit r b block majority hashes) =
      other-Inv v inv (commit_block v.height r b block)
        (commit-Decided v inv r b block majority hashes) (λ type h' r' c e. ground arith)
        (λ step h' r' e. absurd (ground arith))
  Move-Inv {v} inv (next_height id block c votes committed applied_to valid reach of_state) =
      let h = Commit.next_height c in
      let fresh : View = record v {
        height = h;
        round = pos 0;
        votes = votes;
        locked_round = negsuc 0;
        locked_block = none;
        log = [];
        chain = c;
      } in
      start-Inv fresh h (rw of_state.val_set valid) reach
        (applied id block inv.chained (rw (← inv.of_state.next) committed) applied_to) of_state
        inv.decisions (λ block e. absurd (ground arith))
  Move-Inv {v} inv (start_again h) =
      start-Inv v h inv.valid inv.reach inv.chained inv.of_state inv.decisions inv.locked

  pub Moves-Inv : {v w : View} → Inv k v → Moves k v w → Inv k w
  Moves-Inv inv stay = inv
  Moves-Inv inv (followed ms m) = Move-Inv (Moves-Inv inv ms) m

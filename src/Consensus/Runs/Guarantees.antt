-- ===== src/Consensus/Runs/Guarantees.antt =====
-- The guarantees of internal/consensus/state.go, for one node: what its precommits, its prevotes and
-- its commits rest on.
use relaychainmodel.Prelude.{
  Bool, List, Option-cases, [], arith, false, inl, inr, refl, true, ℕ, ◌*◌, ◌<◌, ◌∷◌, ◌≡◌, ◌⊎◌,
}
use relaychainmodel.Prelude.Int.{ℤ}
use relaychainmodel.Prelude.Bytes.{Bytes}
use relaychainmodel.Types.BlockId.{BlockId, is_empty}
use relaychainmodel.Types.Vote.{Crypto, Vote, precommit_type, prevote_type}
use relaychainmodel.Types.ValidatorSet.{IsValid, ValidatorSet, power}
use relaychainmodel.Types.ValidatorSet.Power.{power_of}
use relaychainmodel.Types.VoteSet.{Config, key}
use relaychainmodel.Types.VoteSet.Invariant.{Genuine}
use relaychainmodel.Types.VoteSet.Safety.{majority_sound}
use relaychainmodel.Consensus.HeightVoteSet.{config_of, get_vote_set, lookup_round}
use relaychainmodel.Consensus.State.{
  Block, ChainState, Node, Output, State, commit_block, decide_proposal, sign_vote, timeout,
}
use relaychainmodel.Consensus.Protocol.{Sent, Setting, decisions_of, setting, since_start}
use relaychainmodel.Consensus.Commit.{next_height}
use relaychainmodel.Consensus.Protocol.Invariant.{AllDecided, Chained, Decided, Respects}
use relaychainmodel.Consensus.Protocol.Invariant.Locking.{hashes_to-eq}
use relaychainmodel.Consensus.Refinement.Commit.{AppliesValid}
use relaychainmodel.Consensus.Runs.{Run, Run-Reached, Start}

-- Distinct validators with more than two thirds of the power have each signed a vote of a height, a
-- round and a type for a block.
abbrev pub Quorum : Crypto → Config → BlockId → Type 0
Quorum k cfg b =
    (q : ℕ → Bool) × ((i : ℕ)
      → q i ≡ true
      → (v : Vote) × Genuine k cfg i v × (key k v.block_id ≡ key k b))
    × (2 * power cfg.val_set.validators < 3 * power_of q cfg.val_set.validators)

-- The votes of a type in a round, of validators that are in order.
abbrev pub votes_of : ℤ → ℤ → ℕ → Bytes → ValidatorSet → Config
votes_of height round type chain_id vals = record {
  chain_id = chain_id;
  height = height;
  round = round;
  signed_msg_type = type;
  val_set = vals;
}

Sent-decided :
    (h r : ℤ) (b : BlockId) (block : Block) (os : List Output)
    → Sent (commit_block h r b block) os
    → Sent (commit_block h r b block) (decisions_of os)
Sent-decided h r b block [] never = absurd never
Sent-decided h r b block (sign_vote type h' r' b' ∷ os) (inl e) = absurd (ground arith)
Sent-decided h r b block (sign_vote type h' r' b' ∷ os) (inr s) = Sent-decided h r b block os s
Sent-decided h r b block (timeout step h' r' ∷ os) (inl e) = absurd (ground arith)
Sent-decided h r b block (timeout step h' r' ∷ os) (inr s) = Sent-decided h r b block os s
Sent-decided h r b block (decide_proposal h' r' ∷ os) (inl e) = absurd (ground arith)
Sent-decided h r b block (decide_proposal h' r' ∷ os) (inr s) = Sent-decided h r b block os s
Sent-decided h r b block (commit_block h' r' b' block' ∷ os) (inl e) = inl e
Sent-decided h r b block (commit_block h' r' b' block' ∷ os) (inr s) =
    inr (Sent-decided h r b block os s)

-- An item of a list, and those that follow it.
abbrev pub IsItem : Output → List Output → List Output → Type 0
IsItem o older [] = ⊥
IsItem o older (p ∷ ps) = ((o ≡ p) × (older ≡ ps)) ⊎ IsItem o older ps

AllDecided-Sent :
    (k : Setting) (o : Output) (os : List Output)
    → AllDecided k os
    → Sent o os
    → (older : List Output) × IsItem o older os × Decided k older o
AllDecided-Sent k o [] all never = absurd never
AllDecided-Sent k o (p ∷ os) (d, all) (inl e) = (os, inl (e, refl), rw e d)
AllDecided-Sent k o (p ∷ os) (d, all) (inr s) =
    let (older, item, found) = AllDecided-Sent k o os all s in (older, inr item, found)

module _ (n : Node) (applies : AppliesValid n) (c : ChainState) (valid : IsValid c.validators)
    {first s : State} (start : Start c first) (run : Run n first s) where
  -- From NewState with validators in order on, through any admissible events, a node commits a
  -- block only if its hash is that of a block identifier for which distinct validators with more
  -- than two thirds of the power have each signed a precommit of the commit's height and round. The
  -- validators, which are in order, and the chain id are those of a chain state whose next height
  -- is the commit's: the state that the node started from, or one that its block executor made of
  -- such a state and the block, with its identifier, that the node had committed before at that
  -- state's next height. The block executor returns validators in order; the sign bytes of the
  -- votes that come in can be computed; a timeout of the node's height was scheduled in it.
  pub commits_sound :
      (h r : ℤ) (b : BlockId) (block : Block)
      → Sent (commit_block h r b block) s.sent
      → (block.hash ≡ b.hash)
        × (older : List Output) × (now : ChainState) × IsItem
            (commit_block h r b block)
            older
            (decisions_of s.sent)
        × Chained (setting n c) older now
        × (next_height now ≡ h)
        × IsValid now.validators
        × Quorum n.crypto (votes_of h r precommit_type now.chain_id now.validators) b
  commits_sound h r b block sent =
      let inv = (Run-Reached n applies valid start run).inv in
      let k = setting n c in
      let o = commit_block h r b block in
      let (older, item, decision) =
        AllDecided-Sent k o (decisions_of s.sent) inv.decisions
          (Sent-decided h r b block s.sent sent) in
      let (now, votes, chained, at, fine, reach, majority, hashes) = decision in
      (
        (hashes_to-eq block b.hash hashes).0,
        older,
        now,
        item,
        chained,
        at,
        fine,
        majority_sound n.crypto (votes_of h r precommit_type now.chain_id now.validators) fine b
            reach majority,
      )

  -- From NewState with validators in order on, through any admissible events, a node asks for a
  -- precommit for a block, of the height that it is at, only if distinct validators of that height
  -- with more than two thirds of the power have each signed a prevote for the block, in the round
  -- of the precommit. The block executor, the votes and the timeouts are as for the commits.
  pub precommits_sound :
      (h r : ℤ) (b : BlockId)
      → Sent (sign_vote precommit_type h r b) (since_start s.sent)
      → is_empty b.hash ≡ false
      → Quorum n.crypto (votes_of s.height r prevote_type s.votes.chain_id s.votes.val_set) b
  unfolding get_vote_set
  precommits_sound h r b sent full =
      let r' = Run-Reached n applies valid start run in
      let (polka, below, state) = r'.inv.precommits h r b sent full in
      elim (Option-cases (lookup_round r s.votes.round_vote_sets)) [
        | inl e ↦ absurd (ground arith)
        | inr (rvs, e) ↦ rw (← r'.inv.of_state.height) (
            majority_sound n.crypto (config_of s.votes r prevote_type) r'.inv.valid b
              (r'.inv.reach.sets r rvs e).0 (ground arith))
      ]

  -- From NewState with validators in order on, through any admissible events, a prevote that a node
  -- asks for, of the height that it is at, has the hash of each block that it precommitted before
  -- at that height, unless the node has a majority of prevotes for something else in a round after
  -- that precommit's and not after the prevote's. The block executor, the votes and the timeouts
  -- are as for the commits.
  pub locks_respected : Respects s.votes (since_start s.sent)
  locks_respected = (Run-Reached n applies valid start run).inv.respects

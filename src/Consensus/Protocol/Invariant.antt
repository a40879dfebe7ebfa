-- ===== src/Consensus/Protocol/Invariant.antt =====
-- What the rules of locking keep, and what keeps it when votes come in or the round changes.
pub mod Locking
use relaychainmodel.Prelude.{
  List, Option-cases, [], arith, false, inl, inr, some, true, ℕ, ◌==◌, ◌∷◌, ◌≡◌, ◌⊎◌, ◌∙◌,
}
use relaychainmodel.Prelude.Int.{ℤ, ◌<ℤ◌, ◌≤ℤ◌}
use relaychainmodel.Prelude.Bytes.{bytes_eq}
use relaychainmodel.Types.BlockId.{BlockId, is_empty}
use relaychainmodel.Types.Vote.{Crypto, prevote_type, precommit_type}
use relaychainmodel.Types.ValidatorSet.{IsValid}
use relaychainmodel.Types.VoteSet.Safety.{Reach, majority_stable}
use relaychainmodel.Types.VoteSet.{VoteSet}
use relaychainmodel.Consensus.HeightVoteSet.{
  HeightVoteSet, majority_of, prevotes_of, get_vote_set, config_of, lookup_round,
}
use relaychainmodel.Consensus.HeightVoteSet.Growth.{AllReach}
use relaychainmodel.Consensus.HeightVoteSet.Steps.{Keeps}
use relaychainmodel.Consensus.State.{
  Block, ChainState, Output, sign_vote, timeout, decide_proposal, commit_block, hashes_to,
  step_new_height,
}
use relaychainmodel.Consensus.Commit as Commit
use relaychainmodel.Consensus.Protocol.{
  Committed, OfState, Sent, Setting, View, decided, polka_at, next_height,
}

-- A later majority of prevotes, up to a round, that is not for the block of a precommit.
abbrev pub Overruled : HeightVoteSet → ℤ → BlockId → ℤ → Type 0
Overruled votes r b upto =
    (q : ℤ) × (c : BlockId) × (majority_of (prevotes_of votes q) ≡ some c)
    × (bytes_eq c.hash b.hash ≡ false)
    × (r <ℤ q)
    × (q ≤ℤ upto)

-- Each prevote that was sent agrees with each earlier precommit for a block, or that precommit was
-- overruled by the round of the prevote.
abbrev pub Respects : HeightVoteSet → List Output → Type 0
Respects votes [] = Unit {0}
Respects votes (o ∷ older) =
    ((h r : ℤ) (b : BlockId)
      → o ≡ sign_vote prevote_type h r b
      → (h' r' : ℤ) (b' : BlockId) → Sent (sign_vote precommit_type h' r' b') older
      → is_empty b'.hash ≡ false
      → (b.hash ≡ b'.hash) ⊎ Overruled votes r' b' r)
    × Respects votes older

-- The lock holds the block of a precommit.
abbrev pub Holds : View → ℤ → BlockId → Type 0
Holds v r b = (hashes_to v.locked_block b.hash ≡ true) × (r ≤ℤ v.locked_round)

-- The chain states of a node: that it starts from, and those that its executor made of such a state
-- with a block that was committed at the state's next height.
pub data Chained (k : Setting) (ds : List Output) : ChainState → Type 0 where
  from_origin : Chained k ds k.origin
  applied :
      {c c' : ChainState} (id : BlockId) (block : Block)
      → Chained k ds c
      → Committed (Commit.next_height c) id block ds
      → k.apply_block c id block ≡ some c'
      → Chained k ds c'

Chained-more :
    (k : Setting) (o : Output) (ds : List Output) (c : ChainState)
    → Chained k ds c
    → Chained k (o ∷ ds) c
Chained-more k o ds c (from_origin) = from_origin
Chained-more k o ds c (applied {c = c₀} id block before (r, sent) e) =
    applied id block (Chained-more k o ds c₀ before) (r, inr sent) e

pub decided-Chained :
    (k : Setting) (o : Output) (ds : List Output) (c : ChainState)
    → Chained k ds c
    → Chained k (decided o ds) c
decided-Chained k (sign_vote type h r b) ds c on = on
decided-Chained k (timeout step h r) ds c on = on
decided-Chained k (decide_proposal h r) ds c on = on
decided-Chained k (commit_block h r b block) ds c on =
    Chained-more k (commit_block h r b block) ds c on

-- A commit has a set of votes that calls led to, which recorded a majority of precommits for its
-- block. The votes are those of a chain state's validators, and for its next height.
abbrev pub Decided : Setting → List Output → Output → Type 0
Decided k ds (sign_vote type h r b) = Unit {0}
Decided k ds (timeout step h r) = Unit {0}
Decided k ds (decide_proposal h r) = Unit {0}
Decided k ds (commit_block h r b block) =
    (c : ChainState) × (s : VoteSet) × Chained k ds c
    × (Commit.next_height c ≡ h)
    × IsValid c.validators
    × Reach k.crypto
        (record {
          chain_id = c.chain_id;
          height = h;
          round = r;
          signed_msg_type = precommit_type;
          val_set = c.validators;
        })
        s
    × (s.maj23 ≡ some b)
    × (hashes_to (some block) b.hash ≡ true)

abbrev pub AllDecided : Setting → List Output → Type 0
AllDecided k [] = Unit {0}
AllDecided k (o ∷ os) = Decided k os o × AllDecided k os

pub decided-AllDecided :
    (k : Setting) (o : Output) (ds : List Output)
    → Decided k ds o
    → AllDecided k ds
    → AllDecided k (decided o ds)
decided-AllDecided k (sign_vote type h r b) ds d all = all
decided-AllDecided k (timeout step h r) ds d all = all
decided-AllDecided k (decide_proposal h r) ds d all = all
decided-AllDecided k (commit_block h r b block) ds d all = (d, all)

pub record Inv (k : Setting) (v : View) : Type 0 where
  pub chained : Chained k v.decisions v.chain
  pub of_state : OfState v.chain v.votes v.height
  pub decisions : AllDecided k v.decisions
  pub valid : IsValid v.votes.val_set
  pub reach : AllReach k.crypto v.votes
  -- A lock has a majority of prevotes in its round.
  pub locked :
      (block : Block)
      → v.locked_block ≡ some block
      → (b : BlockId) × (polka_at v v.locked_round ≡ some b)
        × (hashes_to (some block) b.hash ≡ true)
        × (v.locked_round ≤ℤ v.round)
  -- So has a precommit for a block, which the lock still holds or a later majority overruled.
  pub precommits :
      (h r : ℤ) (b : BlockId)
      → Sent (sign_vote precommit_type h r b) v.log
      → is_empty b.hash ≡ false
      → (polka_at v r ≡ some b) × (r ≤ℤ v.round) × (Holds v r b ⊎ Overruled v.votes r b v.round)
  pub respects : Respects v.votes v.log
  pub timeouts :
      (step : ℕ) (h r : ℤ)
      → Sent (timeout step h r) v.log
      → (step == step_new_height) ≡ false
      → r ≤ℤ v.round

-- A majority stays one while the votes grow.
majority_kept :
    (k : Crypto) (h h' : HeightVoteSet) (r : ℤ) (b : BlockId)
    → IsValid h.val_set
    → AllReach k h
    → Keeps k h h'
    → majority_of (prevotes_of h r) ≡ some b
    → majority_of (prevotes_of h' r) ≡ some b
unfolding get_vote_set
majority_kept k h h' r b valid reach keeps e =
    elim (Option-cases (lookup_round r h.round_vote_sets)) [
      | inl f ↦ absurd (ground arith)
      | inr (rvs, f) ↦
          let (rvs', f', p, q) = keeps.1.sets r rvs f in
          let (reach_p, reach_q) = reach.sets r rvs f in
          let before : rvs.prevotes.maj23 ≡ some b = ground arith in
          let after = majority_stable k (config_of h r prevote_type) valid b reach_p p before in
          ground arith
    ]

pub Overruled-mono :
    (votes : HeightVoteSet) (r : ℤ) (b : BlockId) (u u' : ℤ)
    → u ≤ℤ u'
    → Overruled votes r b u
    → Overruled votes r b u'
Overruled-mono votes r b u u' h (q, c, m, ne, above, below) = (q, c, m, ne, above, omega arith)

module _ (votes votes' : HeightVoteSet)
    (kept : (r : ℤ) (b : BlockId)
      → majority_of (prevotes_of votes r) ≡ some b
      → majority_of (prevotes_of votes' r) ≡ some b) where
  Overruled-grow : (r : ℤ) (b : BlockId) (u : ℤ) → Overruled votes r b u → Overruled votes' r b u
  Overruled-grow r b u (q, c, m, ne, above, below) = (q, c, kept q c m, ne, above, below)

  Respects-grow : (log : List Output) → Respects votes log → Respects votes' log
  Respects-grow [] h = h
  Respects-grow (o ∷ older) (h, rest) = (
    λ hh r b e h' r' b' sent full. elim (h hh r b e h' r' b' sent full) [
      | inl same ↦ inl same
      | inr over ↦ inr (Overruled-grow r' b' r over)
    ],
    Respects-grow older rest,
  )

pub grow-Inv :
    (k : Setting) (v : View) (votes : HeightVoteSet)
    → Inv k v
    → Keeps k.crypto v.votes votes
    → Inv k (record v { votes = votes })
grow-Inv k v votes inv keeps =
    let kept : (r : ℤ) (b : BlockId)
        → majority_of (prevotes_of v.votes r) ≡ some b
        → majority_of (prevotes_of votes r) ≡ some b =
      λ r b. majority_kept k.crypto v.votes votes r b inv.valid inv.reach keeps in
    record {
      chained = inv.chained;
      of_state = record {
        chain_id = keeps.1.chain_id ∙ inv.of_state.chain_id;
        val_set = keeps.1.val_set ∙ inv.of_state.val_set;
        height = keeps.1.height ∙ inv.of_state.height;
        next = inv.of_state.next;
      };
      decisions = inv.decisions;
      valid = rw keeps.1.val_set inv.valid;
      reach = keeps.0;
      locked = λ block e.
          let (b, polka, hashes, below) = inv.locked block e in
          (b, kept v.locked_round b polka, hashes, below);
      precommits = λ h r b sent full.
          let (polka, below, state) = inv.precommits h r b sent full in
          (
            kept r b polka,
            below,
            elim state [
              | inl holds ↦ inl holds
              | inr over ↦ inr (Overruled-grow v.votes votes kept r b v.round over)
            ],
          );
      respects = Respects-grow v.votes votes kept v.log inv.respects;
      timeouts = inv.timeouts;
    }

pub next_round-Inv :
    (k : Setting) (v : View) (r : ℤ) → Inv k v → v.round ≤ℤ r → Inv k (record v { round = r })
next_round-Inv k v r' inv later = record {
  chained = inv.chained;
  of_state = inv.of_state;
  decisions = inv.decisions;
  valid = inv.valid;
  reach = inv.reach;
  locked = λ block e.
      let (b, polka, hashes, below) = inv.locked block e in (b, polka, hashes, omega arith);
  precommits = λ h r b sent full.
      let (polka, below, state) = inv.precommits h r b sent full in
      (
        polka,
        omega arith,
        elim state [
          | inl holds ↦ inl holds
          | inr over ↦ inr (Overruled-mono v.votes r b v.round r' later over)
        ],
      );
  respects = inv.respects;
  timeouts = λ step h r sent other. let below = inv.timeouts step h r sent other in omega arith;
}

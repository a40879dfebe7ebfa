-- ===== src/Types/VoteSet/AddVote.antt =====
-- AddVote keeps the invariant, and panics only where the sign bytes of the vote cannot be computed.
use relaychainmodel.Prelude.{
  Bool, Bool-cases, List, Option, Option-cases, arith, false, fun_ext, inl, inr, length-replicate,
  none, refl, replicate, some, sym, true, ℕ, ◌≡◌, ◌⊎◌,
}
use relaychainmodel.Prelude.Bytes.{Bytes}
use relaychainmodel.Prelude.Outcome.{ok}
use relaychainmodel.Prelude.Map.{lookup}
use relaychainmodel.Types.BlockId.{BlockId}
use relaychainmodel.Types.Vote.{Vote, Crypto}
use relaychainmodel.Types.ValidatorSet.{IsValid, size}
use relaychainmodel.Types.ValidatorSet.Power.{power_of-empty}
use relaychainmodel.Types.VoteSet.{
  BlockVotes, Config, VoteSet, vote_at, key, new_block_votes, get_vote, add_primary, add_tracked,
  add_verified_vote,
}
use relaychainmodel.Types.VoteSet.Slots.{has, get_or-replicate}
use relaychainmodel.Types.VoteSet.Invariant.{Genuine, IsTracked, IsQuorum, Inv}
use relaychainmodel.Types.VoteSet.Primary.{Placed, add_primary-Placed}
use relaychainmodel.Types.VoteSet.Tracked.{Open, add_tracked-Inv}

-- What a call does to the recorded majority: nothing, or it records this block as the first one.
abbrev pub KeepsMajority : VoteSet → VoteSet → BlockId → Type 0
KeepsMajority s s' b = (s'.maj23 ≡ s.maj23) ⊎ ((s.maj23 ≡ none) × (s'.maj23 ≡ some b))

pub new_block-IsTracked :
    (k : Crypto) (cfg : Config) (p : List (Option Vote)) (block_key : Bytes) (peer : Bool)
    → IsTracked k cfg p block_key (new_block_votes peer (size cfg.val_set))
unfolding new_block_votes
new_block-IsTracked k cfg p block_key peer =
    let n = size cfg.val_set in
    let nobody : has (replicate n none) ≡ (λ _. false) =
      fun_ext (λ j. rw (get_or-replicate {A = Option Vote} n j none)) in
    record {
      room = length-replicate n none;
      bits = λ j.
          ground (arith, get_or-replicate {A = Option Vote} n j none, get_or-replicate n j false);
      bits_room = length-replicate n false;
      sums = sym (rw nobody (power_of-empty cfg.val_set.validators));
      genuine = λ j v h. absurd (ground (arith, get_or-replicate {A = Option Vote} n j none));
      for_block = λ j v h. absurd (ground (arith, get_or-replicate {A = Option Vote} n j none));
      covered = λ j h. absurd (ground (arith, get_or-replicate {A = Option Vote} n j none));
    }

pub new_block-without : (n i : ℕ) (peer : Bool) → vote_at (new_block_votes peer n).votes i ≡ none
unfolding new_block_votes
new_block-without n i peer = get_or-replicate {A = Option Vote} n i none

pub new_block-below :
    (cfg : Config) (peer : Bool) → ¬ (IsQuorum cfg (new_block_votes peer (size cfg.val_set)).sum)
unfolding new_block_votes
new_block-below cfg peer h = omega arith

module _ (k : Crypto) (cfg : Config) (valid : IsValid cfg.val_set) (s : VoteSet) (inv : Inv k cfg s)
    (i : ℕ) (vote : Vote) (g : Genuine k cfg i vote)
    (unknown : get_vote k s i (key k vote.block_id) ≡ none) where
  abbrev pub Verified : Type 0
  Verified =
      (s' : VoteSet) × (added : Bool) × (conflicting : Option Vote) × (add_verified_vote k s i vote
          (key k vote.block_id) g.validator.voting_power
        ≡ ok (s', added, conflicting))
      × Inv k cfg s'
      × KeepsMajority s s' vote.block_id
      × (conflicting ≡ none → added ≡ true)

  not_in_block :
      (b : BlockVotes)
      → lookup (key k vote.block_id) s.votes_by_block ≡ some b
      → vote_at b.votes i ≡ none
  unfolding get_vote
  not_in_block b h = ground arith

  track :
      (s' : VoteSet) (conflicting : Option Vote) (b : BlockVotes)
      → add_primary k s i vote (key k vote.block_id) g.validator.voting_power ≡ ok (s', conflicting)
      → Placed k cfg valid s inv i vote g s' conflicting
      → Open k cfg s' i (key k vote.block_id) b
      → ((s'' : VoteSet)
          → add_tracked k s' i vote (key k vote.block_id) g.validator.voting_power b ≡ ok s''
          → add_verified_vote k s i vote (key k vote.block_id) g.validator.voting_power
            ≡ ok (s'', true, conflicting))
      → Verified
  track s' conflicting b e p o runs =
      let (s'', ran, inv'', majority) = add_tracked-Inv k cfg valid s' p.inv' i vote g b o in
      (s'', true, conflicting, runs s'' ran, inv'', rw p.same_majority at majority, λ _. refl)

  pub add_verified_vote-Inv : Verified
  unfolding add_verified_vote
  add_verified_vote-Inv =
      let (s', conflicting, e, p) = add_primary-Placed k cfg valid s inv i vote g unknown in
      elim (Option-cases (lookup (key k vote.block_id) s'.votes_by_block)) [
        | inr (b, found) ↦
            let found' : lookup (key k vote.block_id) s.votes_by_block ≡ some b =
              rw p.same_blocks at found in
            let o : Open k cfg s' i (key k vote.block_id) b = record {
              votes_for = p.inv'.tracked (key k vote.block_id) b found;
              present = p.present;
              without = not_in_block b found';
              below = p.inv'.first_quorum (key k vote.block_id) b found;
              shows = p.shows;
              origin = inl found;
            } in
            elim (Option-cases conflicting) [
              | inl c ↦ track s' conflicting b e p o (λ s'' r. ground arith)
              | inr (old, c) ↦ elim (Bool-cases b.peer_maj23) [
                | inl claimed ↦ track s' conflicting b e p o (λ s'' r. ground arith)
                | inr unclaimed ↦ (
                  s',
                  false,
                  conflicting,
                  ground arith,
                  p.inv',
                  inl p.same_majority,
                  λ none_found. absurd (ground arith),
                )
              ]
            ]
        | inl missing ↦ elim (Option-cases conflicting) [
          | inl c ↦
              track s' conflicting (new_block_votes false (size cfg.val_set)) e p
                (record {
                  votes_for = new_block-IsTracked k cfg s'.votes (key k vote.block_id) false;
                  present = p.present;
                  without = new_block-without (size cfg.val_set) i false;
                  below = λ h. new_block-below cfg false;
                  shows = p.shows;
                  origin = inr missing;
                })
                (λ s'' r. let same = p.inv'.configured in ground arith)
          | inr (old, c) ↦ (
            s',
            false,
            conflicting,
            ground arith,
            p.inv',
            inl p.same_majority,
            λ none_found. absurd (ground arith),
          )
        ]
      ]

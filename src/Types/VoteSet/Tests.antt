-- ===== src/Types/VoteSet/Tests.antt =====
-- Runs of vote sets, and the theorems at concrete inputs.
use relaychainmodel.Prelude.{
  Bool, [], arith, false, inl, ltb, none, refl, some, true, ℕ, ◌*◌, ◌<◌, ◌==◌, ◌∷◌, ◌≡◌, ◌≢◌,
}
use relaychainmodel.Prelude.Int.{pos}
use relaychainmodel.Prelude.Bytes.{bytes_eq}
use relaychainmodel.Prelude.Outcome.{err, ok, panics}
use relaychainmodel.Prelude.Int64.{mul_int64, quot_int64}
use relaychainmodel.Prelude.Map.{insert, lookup}
use mathlib.Core.Option
use relaychainmodel.Types.Fixtures.{toy_crypto, validator, three_validators, block, vote_by}
use relaychainmodel.Types.Vote.{Vote, prevote_type, vote_sign_bytes, verify}
use relaychainmodel.Types.ValidatorSet.{IsValid, power, total_voting_power}
use relaychainmodel.Types.ValidatorSet.Power.{power_of}
use relaychainmodel.Types.VoteSet.{
  Config, VoteSet, key, new_block_votes, new_vote_set, add_vote, vote_at,
}
use relaychainmodel.Types.VoteSet.Peers.{set_peer_maj23}
use relaychainmodel.Types.VoteSet.Readers.{has_two_thirds_any, has_all}
use relaychainmodel.Types.VoteSet.Slots.{has}
use relaychainmodel.Types.VoteSet.Invariant.{Genuine}
use relaychainmodel.Types.VoteSet.Safety.{
  add, claim, here, next, Reach, from, majority_stable, add_vote_total, majority_sound,
  majority_agreement, sum_readers_exact,
}

abbrev cfg : Config
cfg = record {
  chain_id = [];
  height = pos 7;
  round = pos 0;
  signed_msg_type = prevote_type;
  val_set = three_validators;
}

cfg-IsValid : IsValid three_validators
unfolding power
cfg-IsValid = record { cached = inl refl; capped = omega arith }

abbrev start : VoteSet
start = record {
  config = cfg;
  votes_bit_array = false ∷ false ∷ false ∷ [];
  votes = none ∷ none ∷ none ∷ [];
  sum = 0;
  maj23 = none;
  votes_by_block = [];
  peer_maj23s = [];
}

-- The same with a fourth validator.
abbrev four_start : VoteSet
four_start = record start {
  config = record cfg {
    val_set = record three_validators {
      validators = validator 1 10 ∷ validator 2 10 ∷ validator 3 10 ∷ validator 4 10 ∷ [];
    };
  };
  votes_bit_array = false ∷ false ∷ false ∷ false ∷ [];
  votes = none ∷ none ∷ none ∷ none ∷ [];
}

-- What the runs below compute with.
all_calls : Unit {0}
unfolding add_vote set_peer_maj23 new_vote_set has_two_thirds_any has_all new_block_votes quot_int64
    mul_int64 vote_sign_bytes verify total_voting_power bytes_eq lookup insert
all_calls = tt

-- The set after a vote.
abbrev after : VoteSet → ℕ → ℕ → VoteSet
after s i b = elim (add_vote toy_crypto s (some (vote_by i (block b)))) [
  | ok (s', added, e) ↦ s'
  | err e ↦ s
  | panics ↦ s
]

-- Votes of all three validators for one block.
abbrev all_for : ℕ → VoteSet
all_for b = after (after (after start 0 b) 1 b) 2 b

majority_found : (all_for 4).maj23 ≡ some (block 4)
unfolding all_calls
majority_found = refl

duplicate_ignored :
    add_vote toy_crypto (all_for 4) (some (vote_by 2 (block 4))) ≡ ok (all_for 4, false, none)
unfolding all_calls
duplicate_ignored = refl

-- The second and the third validator vote for block 5, which has the majority, after the first one
-- voted for block 4; the first one then votes for block 5 too.
abbrev late : VoteSet
late = after (after (after (after four_start 3 4) 0 5) 1 5) 2 5

abbrev later : VoteSet
later = after late 3 5

-- The late vote replaces the primary vote of its validator, and is not among the votes for its block.
late_vote_untracked :
    (vote_at later.votes 3 ≡ some (vote_by 3 (block 5)))
    × (later.maj23 ≡ some (block 5))
    × (Option.map (λ b. vote_at b.votes 3) (lookup (key toy_crypto (block 5)) later.votes_by_block)
        ≡ some none)
unfolding all_calls
late_vote_untracked = (refl, refl, refl)

reached_4 : Reach toy_crypto cfg (all_for 4)
unfolding all_calls
reached_4 =
    let one = after start 0 4 in
    let two = after one 1 4 in
    from {first = start} refl (
      next
        (next (next here (add (vote_by 0 (block 4)) (1 ∷ []) {s' = one} true none refl refl))
          (add (vote_by 1 (block 4)) (1 ∷ []) {s' = two} true none refl refl))
        (add (vote_by 2 (block 4)) (1 ∷ []) {s' = all_for 4} true none refl refl))

reached_5 : Reach toy_crypto cfg (all_for 5)
unfolding all_calls
reached_5 =
    let one = after start 0 5 in
    let two = after one 1 5 in
    from {first = start} refl (
      next
        (next (next here (add (vote_by 0 (block 5)) (1 ∷ []) {s' = one} true none refl refl))
          (add (vote_by 1 (block 5)) (1 ∷ []) {s' = two} true none refl refl))
        (add (vote_by 2 (block 5)) (1 ∷ []) {s' = all_for 5} true none refl refl))

majority_stable_example :
    (set_peer_maj23 toy_crypto (all_for 4) (9 ∷ []) (block 5)).0.maj23 ≡ some (block 4)
unfolding all_calls
majority_stable_example =
    majority_stable toy_crypto cfg cfg-IsValid
      {s' = (set_peer_maj23 toy_crypto (all_for 4) (9 ∷ []) (block 5)).0} (block 4) reached_4
      (next here (claim (9 ∷ []) (block 5) refl)) refl

add_vote_total_example : add_vote toy_crypto (all_for 4) (some (vote_by 7 (block 5))) ≢ panics
unfolding all_calls
add_vote_total_example =
    add_vote_total toy_crypto cfg cfg-IsValid (vote_by 7 (block 5)) (1 ∷ []) reached_4 refl

majority_sound_example :
    (q : ℕ → Bool) × ((i : ℕ)
      → q i ≡ true
      → (v : Vote) × Genuine toy_crypto cfg i v
        × (key toy_crypto v.block_id ≡ key toy_crypto (block 4)))
    × (2 * power three_validators.validators < 3 * power_of q three_validators.validators)
unfolding all_calls
majority_sound_example = majority_sound toy_crypto cfg cfg-IsValid (block 4) reached_4 refl

majority_agreement_example :
    (q : ℕ → Bool) × ((i : ℕ)
      → q i ≡ true
      → (v v' : Vote) × Genuine toy_crypto cfg i v
        × Genuine toy_crypto cfg i v'
        × (key toy_crypto v.block_id ≢ key toy_crypto v'.block_id))
    × (power three_validators.validators < 3 * power_of q three_validators.validators)
unfolding all_calls
majority_agreement_example =
    majority_agreement toy_crypto cfg cfg-IsValid (block 4) (block 5) reached_4 reached_5 refl refl
      (λ e. ground arith)

sum_readers_exact_example :
    let voted = power_of (has (all_for 4).votes) three_validators.validators in
    let total = power three_validators.validators in
    (has_two_thirds_any (all_for 4) ≡ some (ltb (2 * total) (3 * voted)))
    × (has_all (all_for 4) ≡ some (voted == total))
sum_readers_exact_example = sum_readers_exact toy_crypto cfg cfg-IsValid reached_4

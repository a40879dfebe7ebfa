-- ===== src/Types/VoteSet/Invariant.antt =====
-- What holds of a vote set between two calls, for the data of one configuration.
use relaychainmodel.Prelude.{
  List, Option, false, get_elem?, get_or, length, none, some, true, ℕ, ◌*◌, ◌<◌, ◌≡◌,
}
use relaychainmodel.Prelude.Int.{pos}
use relaychainmodel.Prelude.Bytes.{Bytes}
use relaychainmodel.Prelude.Outcome.{ok}
use relaychainmodel.Prelude.Map.{lookup}
use relaychainmodel.Types.BlockId.{BlockId}
use relaychainmodel.Types.Vote.{Vote, Crypto, verify}
use relaychainmodel.Types.ValidatorSet.{Validator, power, size}
use relaychainmodel.Types.ValidatorSet.Power.{power_of}
use relaychainmodel.Types.VoteSet.{BlockVotes, Config, VoteSet, vote_at, key}
use relaychainmodel.Types.VoteSet.Slots.{has}

-- A vote for this height, round and type, by the validator at the index, signed with its key.
pub record Genuine (k : Crypto) (cfg : Config) (i : ℕ) (v : Vote) : Type 0 where
  pub validator : Validator
  pub index : v.validator_index ≡ pos i
  pub height : v.height ≡ cfg.height
  pub round : v.round ≡ cfg.round
  pub type : v.type ≡ cfg.signed_msg_type
  pub in_set : get_elem? cfg.val_set.validators i ≡ some validator
  pub address : v.validator_address ≡ validator.address
  pub verified : verify k cfg.chain_id validator.pub_key v ≡ ok tt

-- More than two thirds of the power.
abbrev pub IsQuorum : Config → ℕ → Type 0
IsQuorum cfg sum = 2 * power cfg.val_set.validators < 3 * sum

-- The votes kept for one block.
pub record IsTracked (k : Crypto) (cfg : Config) (primary : List (Option Vote)) (block_key : Bytes)
    (b : BlockVotes) : Type 0 where
  pub room : length b.votes ≡ size cfg.val_set
  pub bits : (i : ℕ) → get_or b.bit_array i false ≡ has b.votes i
  pub bits_room : length b.bit_array ≡ size cfg.val_set
  pub sums : b.sum ≡ power_of (has b.votes) cfg.val_set.validators
  pub genuine : (i : ℕ) (v : Vote) → vote_at b.votes i ≡ some v → Genuine k cfg i v
  pub for_block : (i : ℕ) (v : Vote) → vote_at b.votes i ≡ some v → key k v.block_id ≡ block_key
  pub covered : (i : ℕ) → has b.votes i ≡ true → has primary i ≡ true

-- The primary vote of a validator is for a block.
abbrev pub Shows : Crypto → List (Option Vote) → ℕ → Bytes → Type 0
Shows k primary i block_key =
    (w : Vote) × (vote_at primary i ≡ some w) × (key k w.block_id ≡ block_key)

-- The whole set. A block has a quorum only if a first one is recorded, and the recorded one has it.
pub record Inv (k : Crypto) (cfg : Config) (s : VoteSet) : Type 0 where
  pub configured : s.config ≡ cfg
  pub room : length s.votes ≡ size cfg.val_set
  pub bits_room : length s.votes_bit_array ≡ size cfg.val_set
  pub bits : (i : ℕ) → get_or s.votes_bit_array i false ≡ has s.votes i
  pub sums : s.sum ≡ power_of (has s.votes) cfg.val_set.validators
  pub genuine : (i : ℕ) (v : Vote) → vote_at s.votes i ≡ some v → Genuine k cfg i v
  pub tracked :
      (block_key : Bytes) (b : BlockVotes)
      → lookup block_key s.votes_by_block ≡ some b
      → IsTracked k cfg s.votes block_key b
  pub first_quorum :
      (block_key : Bytes) (b : BlockVotes)
      → lookup block_key s.votes_by_block ≡ some b
      → s.maj23 ≡ none
      → ¬ (IsQuorum cfg b.sum)
  pub majority :
      (m : BlockId)
      → s.maj23 ≡ some m
      → (b : BlockVotes) × (lookup (key k m) s.votes_by_block ≡ some b) × IsQuorum cfg b.sum
  -- Those who voted for the block of the majority have such a vote among the primary ones.
  pub shown :
      (m : BlockId)
      → s.maj23 ≡ some m
      → (b : BlockVotes) → lookup (key k m) s.votes_by_block ≡ some b
      → (i : ℕ) → has b.votes i ≡ true
      → Shows k s.votes i (key k m)

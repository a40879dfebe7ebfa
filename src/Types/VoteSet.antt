-- ===== src/Types/VoteSet.antt =====
-- The collection of votes of one height, round and type: types/vote_set.go. A bit array is the list
-- of its bits. A method on a nil set is not modelled, nor are the locks, which serialise the calls.
pub mod Peers
pub mod Readers
pub mod Slots
pub mod Invariant
pub mod Primary
pub mod Tracked
pub mod AddVote
pub mod Calls
pub mod Claims
pub mod Safety
pub mod MakeCommit
mod Tests
use relaychainmodel.Prelude.{
  Bool, List, Option, [], false, get_or, if◌then◌else◌, length, none, not, replicate, set, some,
  true, ℕ, ◌&&◌, ◌*◌, ◌+◌, ◌-◌, ◌==◌, ◌||◌, ◌∷◌,
}
use relaychainmodel.Prelude.Int.{eq_ℤ, leb_ℤ, ltb_ℤ, negsuc, pos, pos_part, ℤ}
use relaychainmodel.Prelude.Bytes.{Bytes, bytes_eq}
use relaychainmodel.Prelude.Outcome.{Outcome, err, fail_if, ok, panics, ◌>>=◌, ◌>>◌}
use relaychainmodel.Prelude.Int64.{add_int64, to_int64}
use relaychainmodel.Prelude.Map.{Map, insert, lookup}
use relaychainmodel.Types.BlockId
use relaychainmodel.Types.BlockId.{BlockId, equals}
use relaychainmodel.Types.Vote.{
  Vote, VoteError, vote_nil, unexpected_step, invalid_index, invalid_address,
  non_deterministic_signature, conflicting_votes, Crypto, verify,
}
use relaychainmodel.Types.ValidatorSet.{
  Validator, ValidatorSet, size, total_voting_power, two_thirds, get_by_index,
}

pub record BlockVotes : Type 0 where
  pub peer_maj23 : Bool
  pub bit_array : List Bool
  pub votes : List (Option Vote)
  pub sum : ℕ

-- The fields of a `VoteSet` that never change.
pub record Config : Type 0 where
  pub chain_id : Bytes
  pub height : ℤ
  pub round : ℤ
  pub signed_msg_type : ℕ
  pub val_set : ValidatorSet

pub record VoteSet : Type 0 where
  pub config : Config
  pub open config use *
  pub votes_bit_array : List Bool
  pub votes : List (Option Vote)
  pub sum : ℕ
  pub maj23 : Option BlockId
  pub votes_by_block : Map BlockVotes
  pub peer_maj23s : Map BlockId

-- `newBlockVotes`
unfoldable pub new_block_votes : Bool → ℕ → BlockVotes
new_block_votes peer n = record {
  peer_maj23 = peer;
  bit_array = replicate n false;
  votes = replicate n none;
  sum = 0;
}

-- `NewVoteSet`; height 0 panics.
unfoldable pub new_vote_set : Config → Outcome VoteError VoteSet
new_vote_set cfg =
    if eq_ℤ cfg.height (pos 0)
    then panics
    else ok (record {
      config = cfg;
      votes_bit_array = replicate (size cfg.val_set) false;
      votes = replicate (size cfg.val_set) none;
      sum = 0;
      maj23 = none;
      votes_by_block = [];
      peer_maj23s = [];
    })

-- The vote at an index; the callers check the index against the set's size.
abbrev pub vote_at : List (Option Vote) → ℕ → Option Vote
vote_at votes i = get_or votes i none

-- `blockVotes.addVerifiedVote`
unfoldable pub add_to_block : BlockVotes → ℕ → Vote → ℕ → BlockVotes
add_to_block b i vote power = elim (vote_at b.votes i) [
  | none ↦ record b {
    bit_array = set b.bit_array i true;
    votes = set b.votes i (some vote);
    sum = add_int64 b.sum power;
  }
  | some existing ↦ b
]

-- The loop that copies the votes of a block over the primary ones.
unfoldable pub copy_votes : List (Option Vote) → List (Option Vote) → List (Option Vote)
copy_votes [] votes = votes
copy_votes (b ∷ bs) [] = []
copy_votes (none ∷ bs) (v ∷ votes) = v ∷ copy_votes bs votes
copy_votes (some b ∷ bs) (v ∷ votes) = some b ∷ copy_votes bs votes

-- `p != nil`
abbrev pub is_some {ℓ} : {A : Type ℓ} → Option A → Bool
is_some none = false
is_some (some a) = true

-- `n + 1` on int64.
abbrev pub suc_int64 : ℤ → ℤ
suc_int64 (pos n) = to_int64 (n + 1)
suc_int64 (negsuc n) = if n == 0 then pos 0 else negsuc (n - 1)

module _ (k : Crypto) where
  abbrev pub key : BlockId → Bytes
  key b = BlockId.key k.marshal_header b

  -- `getVote`
  unfoldable pub get_vote : VoteSet → ℕ → Bytes → Option Vote
  get_vote s i block_key =
      let by_block : Option Vote = elim (lookup block_key s.votes_by_block) [
        | none ↦ none
        | some b ↦ vote_at b.votes i
      ] in
      elim (vote_at s.votes i) [
        | none ↦ by_block
        | some existing ↦
            if bytes_eq (key existing.block_id) block_key then some existing else by_block
      ]

  -- The first part of `addVerifiedVote`: the primary votes, and the conflicting vote if any.
  unfoldable pub add_primary :
      VoteSet → ℕ → Vote → Bytes → ℕ → Outcome VoteError (VoteSet × Option Vote)
  add_primary s i vote block_key power = elim (vote_at s.votes i) [
    | none ↦ ok (
      record s {
        votes = set s.votes i (some vote);
        votes_bit_array = set s.votes_bit_array i true;
        sum = add_int64 s.sum power;
      },
      none,
    )
    | some existing ↦ if equals existing.block_id vote.block_id then panics else elim s.maj23 [
      | none ↦ ok (s, some existing)
      | some m ↦ ok (
        if bytes_eq (key m) block_key
            then record s {
              votes = set s.votes i (some vote);
              votes_bit_array = set s.votes_bit_array i true;
            }
            else s,
        some existing,
      )
    ]
  ]

  -- The end of `addVerifiedVote`: the vote joins those for its block, which may complete a quorum.
  unfoldable pub add_tracked :
      VoteSet → ℕ → Vote → Bytes → ℕ → BlockVotes → Outcome VoteError VoteSet
  unfolding add_to_block copy_votes
  add_tracked s i vote block_key power b = elim (total_voting_power s.val_set) [
    | none ↦ panics
    | some total ↦
        let quorum = suc_int64 (two_thirds total) in
        let b' = add_to_block b i vote power in
        let s' = record s { votes_by_block = insert block_key b' s.votes_by_block } in
        let crossed = ltb_ℤ (to_int64 b.sum) quorum && leb_ℤ quorum (to_int64 b'.sum) in
        elim s.maj23 [
          | some m ↦ ok s'
          | none ↦ ok (
              if crossed
              then record s' { maj23 = some vote.block_id; votes = copy_votes b'.votes s.votes }
              else s')
        ]
  ]

  -- `addVerifiedVote`: the set, whether the vote was added, and a conflicting vote.
  unfoldable pub add_verified_vote :
      VoteSet → ℕ → Vote → Bytes → ℕ → Outcome VoteError (VoteSet × Bool × Option Vote)
  unfolding add_primary add_tracked
  add_verified_vote s i vote block_key power =
      add_primary s i vote block_key power >>= λ (s', conflicting).
      let track = λ (b : BlockVotes).
        add_tracked s' i vote block_key power b >>= λ s''. ok (s'', true, conflicting) in
      elim (lookup block_key s'.votes_by_block) [
        | some b ↦ elim conflicting [
          | none ↦ track b
          | some v ↦ if not b.peer_maj23 then ok (s', false, some v) else track b
        ]
        | none ↦ elim conflicting [
          | none ↦ track (new_block_votes false (size s'.val_set))
          | some v ↦ ok (s', false, some v)
        ]
      ]

  -- `addVote` from the search for a known vote on.
  unfoldable pub add_known :
      VoteSet → Vote → Validator → ℕ → Bytes → Outcome VoteError (VoteSet × Bool × Option VoteError)
  unfolding get_vote add_verified_vote
  add_known s vote val i block_key = elim (get_vote s i block_key) [
    | some existing ↦
        if bytes_eq existing.signature vote.signature
        then ok (s, false, none)
        else err non_deterministic_signature
    | none ↦ verify k s.chain_id val.pub_key vote >>= λ _.
        add_verified_vote s i vote block_key val.voting_power >>= λ (s', added, conflicting).
        elim conflicting [
          | some old ↦ ok (s', added, some (conflicting_votes old vote))
          | none ↦ if not added then panics else ok (s', added, none)
        ]
  ]

  -- `addVote` and `AddVote`: an error leaves the set as it was and adds nothing; otherwise the set,
  -- whether the vote was added, and the error of a conflicting vote.
  unfoldable pub add_vote :
      VoteSet → Option Vote → Outcome VoteError (VoteSet × Bool × Option VoteError)
  unfolding add_known get_by_index
  add_vote s none = err vote_nil
  add_vote s (some vote) = do
    fail_if (ltb_ℤ vote.validator_index (pos 0)) invalid_index
    fail_if (length vote.validator_address == 0) invalid_address
    fail_if
        (not (eq_ℤ vote.height s.height)
          || not (eq_ℤ vote.round s.round)
          || not (vote.type == s.signed_msg_type))
        unexpected_step
    elim (get_by_index s.val_set vote.validator_index) [
      | none ↦ err invalid_index
      | some val ↦ do
        fail_if (not (bytes_eq vote.validator_address val.address)) invalid_address
        add_known s vote val (pos_part vote.validator_index) (key vote.block_id)
    ]

-- ===== src/Consensus/HeightVoteSet.antt =====
-- The votes of one height, for its rounds: internal/consensus/types/height_vote_set.go. `none` is a
-- panic; the locks serialise the calls. Rounds are int32s.
pub mod Growth
pub mod Steps
use relaychainmodel.Prelude.{
  Bool, List, Option, [], false, if◌then◌else◌, length, ltb, none, not, some, suc, true, zero, ℕ,
  ◌&&◌, ◌++◌, ◌==◌, ◌||◌, ◌∷◌,
}
use relaychainmodel.Prelude.Int.{eq_ℤ, ltb_ℤ, negsuc, pos, pos_part, ℤ, ◌+ℤ◌, ◌-ℤ◌}
use relaychainmodel.Prelude.Bytes.{Bytes}
use relaychainmodel.Prelude.Outcome.{err, ok, panics}
use relaychainmodel.Prelude.Map.{Map, insert, lookup}
use relaychainmodel.SafeMath.{safe_sub_int32}
use relaychainmodel.Types.BlockId.{BlockId, empty_block_id}
use relaychainmodel.Types.Vote.{Vote, VoteError, Crypto, prevote_type, precommit_type}
use relaychainmodel.Types.ValidatorSet.{ValidatorSet}
use relaychainmodel.Types.VoteSet.{VoteSet, Config, new_vote_set, add_vote}
use relaychainmodel.Types.VoteSet.Peers.{set_peer_maj23}

pub record RoundVoteSet : Type 0 where
  pub prevotes : VoteSet
  pub precommits : VoteSet

-- `roundVoteSets`, a map from rounds.
abbrev pub RoundVotes : Type 0
RoundVotes = List (ℤ × RoundVoteSet)

unfoldable pub lookup_round : ℤ → RoundVotes → Option RoundVoteSet
lookup_round r [] = none
lookup_round r (entry ∷ entries) = if eq_ℤ entry.0 r then some entry.1 else lookup_round r entries

-- A write to a round, new or not.
unfoldable pub insert_round : ℤ → RoundVoteSet → RoundVotes → RoundVotes
insert_round r rvs [] = (r, rvs) ∷ []
insert_round r rvs (entry ∷ entries) =
    if eq_ℤ entry.0 r then (r, rvs) ∷ entries else entry ∷ insert_round r rvs entries

pub record HeightVoteSet : Type 0 where
  pub chain_id : Bytes
  pub height : ℤ
  pub val_set : ValidatorSet
  pub round : ℤ
  pub round_vote_sets : RoundVotes
  pub peer_catchup_rounds : Map (List ℤ)

pub data HvsError : Type 0 where
  vote_error : VoteError → HvsError
  unwanted_round : HvsError

abbrev pub config_of : HeightVoteSet → ℤ → ℕ → Config
config_of h round type = record {
  chain_id = h.chain_id;
  height = h.height;
  round = round;
  signed_msg_type = type;
  val_set = h.val_set;
}

-- The votes of a type, of which there are two.
abbrev pub of_type : RoundVoteSet → ℕ → VoteSet
of_type rvs type = if type == prevote_type then rvs.prevotes else rvs.precommits

abbrev pub with_type : RoundVoteSet → ℕ → VoteSet → RoundVoteSet
with_type rvs type s =
    if type == prevote_type then record rvs { prevotes = s } else record rvs { precommits = s }

-- `types.IsVoteTypeValid`
abbrev pub is_vote_type_valid : ℕ → Bool
is_vote_type_valid type = (type == prevote_type) || (type == precommit_type)

-- `getVoteSet`, for one of the two types, which the callers check or write; `none` is nil.
unfoldable pub get_vote_set : HeightVoteSet → ℤ → ℕ → Option VoteSet
get_vote_set h round type = elim (lookup_round round h.round_vote_sets) [
  | none ↦ none
  | some rvs ↦ some (of_type rvs type)
]

-- `Prevotes`, `Precommits`
abbrev pub prevotes_of : HeightVoteSet → ℤ → Option VoteSet
prevotes_of h round = get_vote_set h round prevote_type

abbrev pub precommits_of : HeightVoteSet → ℤ → Option VoteSet
precommits_of h round = get_vote_set h round precommit_type

-- `addRound`
unfoldable pub add_round : HeightVoteSet → ℤ → Option HeightVoteSet
unfolding insert_round
add_round h round = elim (lookup_round round h.round_vote_sets) [
  | some rvs ↦ none
  | none ↦ elim (new_vote_set (config_of h round prevote_type)) [
    | err e ↦ none
    | panics ↦ none
    | ok prevotes ↦ elim (new_vote_set (config_of h round precommit_type)) [
      | err e ↦ none
      | panics ↦ none
      | ok precommits ↦ some (record h {
        round_vote_sets =
            insert_round round (record { prevotes = prevotes; precommits = precommits })
              h.round_vote_sets;
      })
    ]
  ]
]

-- `NewHeightVoteSet`, `Reset`
unfoldable pub new_height_vote_set : Bytes → ℤ → ValidatorSet → Option HeightVoteSet
unfolding add_round
new_height_vote_set chain_id height val_set =
    add_round
      (record {
        chain_id = chain_id;
        height = height;
        val_set = val_set;
        round = pos 0;
        round_vote_sets = [];
        peer_catchup_rounds = [];
      })
      (pos 0)

-- The loop of `SetRound` over a number of rounds from `r` on.
unfoldable pub add_rounds : ℕ → ℤ → HeightVoteSet → Option HeightVoteSet
unfolding add_round
add_rounds zero r h = some h
add_rounds (suc n) r h = elim (lookup_round r h.round_vote_sets) [
  | some rvs ↦ add_rounds n (r +ℤ pos 1) h
  | none ↦ elim (add_round h r) [ none ↦ none | some h' ↦ add_rounds n (r +ℤ pos 1) h' ]
]

-- `SetRound`
unfoldable pub set_round : HeightVoteSet → ℤ → Option HeightVoteSet
unfolding add_rounds safe_sub_int32
set_round h round = elim (safe_sub_int32 h.round (pos 1)) [
  | none ↦ none
  | some new_round ↦
      if not (eq_ℤ h.round (pos 0)) && ltb_ℤ round new_round
      then none
      else elim (add_rounds (pos_part (round +ℤ pos 1 -ℤ new_round)) new_round h) [
        | none ↦ none
        | some h' ↦ some (record h' { round = round })
      ]
]

-- The rounds that a peer has been given, at most two.
abbrev pub catchup_rounds : HeightVoteSet → Bytes → List ℤ
catchup_rounds h peer = elim (lookup peer h.peer_catchup_rounds) [ none ↦ [] | some rs ↦ rs ]

module _ (k : Crypto) where
  -- `AddVote` of the votes of one round, which are there.
  unfoldable pub add_to_round :
      HeightVoteSet → Vote → Option (HeightVoteSet × Bool × Option HvsError)
  unfolding insert_round
  add_to_round h vote = elim (lookup_round vote.round h.round_vote_sets) [
    | none ↦ none
    | some rvs ↦ elim (add_vote k (of_type rvs vote.type) (some vote)) [
      | panics ↦ none
      | err e ↦ some (h, false, some (vote_error e))
      | ok (s, added, e) ↦ some (
        record h {
          round_vote_sets = insert_round vote.round (with_type rvs vote.type s) h.round_vote_sets;
        },
        added,
        elim e [ none ↦ none | some f ↦ some (vote_error f) ],
      )
    ]
  ]

  -- `AddVote`: the set, whether the vote was added, and the error.
  unfoldable pub add_height_vote :
      HeightVoteSet → Vote → Bytes → Option (HeightVoteSet × Bool × Option HvsError)
  unfolding add_to_round add_round get_vote_set
  add_height_vote h vote peer =
      if not (is_vote_type_valid vote.type)
      then some (h, false, none)
      else elim (get_vote_set h vote.round vote.type) [
        | some s ↦ add_to_round h vote
        | none ↦
            let rounds = catchup_rounds h peer in
            if ltb (length rounds) 2
            then elim (add_round h vote.round) [
              | none ↦ none
              | some h' ↦
                  add_to_round
                    (record h' {
                      peer_catchup_rounds =
                          insert peer (rounds ++ (vote.round ∷ [])) h'.peer_catchup_rounds;
                    })
                    vote
            ]
            else some (h, false, some unwanted_round)
      ]

  -- `SetPeerMaj23`: the set, and whether there was no error.
  unfoldable pub set_height_peer_maj23 :
      HeightVoteSet → ℤ → ℕ → Bytes → BlockId → HeightVoteSet × Bool
  unfolding set_peer_maj23 insert_round
  set_height_peer_maj23 h round type peer block_id =
      if not (is_vote_type_valid type)
      then (h, false)
      else elim (lookup_round round h.round_vote_sets) [
        | none ↦ (h, true)
        | some rvs ↦
            let (s, fine) = set_peer_maj23 k (of_type rvs type) peer block_id in
            (
              record h {
                round_vote_sets = insert_round round (with_type rvs type s) h.round_vote_sets;
              },
              fine,
            )
      ]

-- The majority of a set that may be nil.
abbrev pub majority_of : Option VoteSet → Option BlockId
majority_of none = none
majority_of (some s) = s.maj23

-- The loop of `POLInfo`, for the rounds below a number.
unfoldable pub pol_from : HeightVoteSet → ℕ → ℤ × BlockId
unfolding get_vote_set
pol_from h zero = (negsuc 0, empty_block_id)
pol_from h (suc r) = elim (majority_of (prevotes_of h (pos r))) [
  | some b ↦ (pos r, b)
  | none ↦ pol_from h r
]

-- `POLInfo`
unfoldable pub pol_info : HeightVoteSet → ℤ × BlockId
unfolding pol_from
pol_info h = pol_from h (pos_part (h.round +ℤ pos 1))

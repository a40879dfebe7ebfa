-- ===== src/Privval/Tests.antt =====
-- A signer that crashes and restarts, and the theorem at that run.
use relaychainmodel.Prelude.{
  List, Option, [], arith, false, if◌then◌else◌, map, none, refl, some, true, ℕ, ◌∷◌, ◌≡◌,
}
use relaychainmodel.Prelude.Int.{negsuc, pos}
use relaychainmodel.Prelude.Bytes.{Bytes, bytes_eq}
use relaychainmodel.Prelude.Outcome.{Outcome, ok}
use relaychainmodel.Types.BlockId.{empty_block_id}
use relaychainmodel.Types.Vote.{Vote, CanonicalVote, Crypto, prevote_type, vote_sign_bytes}
use relaychainmodel.Privval.{sign_vote, PvError}
use relaychainmodel.Privval.Canonical.{Codec, same_vote, same_vote-eq}
use relaychainmodel.Privval.Signing.{IsLawful}
use relaychainmodel.Privval.Machine.{
  Released, Event, ask_vote, restart, run, new_signer, Consistent, never_double_signs,
}

-- The encoder of the tests knows prevotes for nil at height 7, and writes the timestamp.
abbrev sample : CanonicalVote
sample = record {
  type = prevote_type;
  height = pos 7;
  round = pos 0;
  block_id = none;
  timestamp = pos 0;
  chain_id = [];
}

abbrev encode : CanonicalVote → Option Bytes
encode v = elim v.timestamp [
  | pos t ↦ if same_vote v sample then some (t ∷ []) else none
  | negsuc t ↦ none
]

abbrev decode : Bytes → Option CanonicalVote
decode [] = none
decode (t ∷ b) = some (record sample { timestamp = pos t })

abbrev crypto : Crypto
crypto = record {
  address = λ k. k;
  verify_signature = λ k m s. bytes_eq s m;
  marshal_vote = encode;
  marshal_header = λ p. p.hash;
}

abbrev codec : Codec
codec = record {
  sign = λ m. some m;
  marshal_proposal = λ p. none;
  unmarshal_proposal = λ b. none;
  unmarshal_vote = decode;
}

decode-encode : (v : CanonicalVote) (b : Bytes) → encode v ≡ some b → decode b ≡ some v
decode-encode v b h = ground (arith, same_vote-eq v sample)

codec-IsLawful : IsLawful crypto codec
codec-IsLawful = record { vote_round_trip = decode-encode; proposal_round_trip = λ p b h. cc }

-- A prevote for nil with a timestamp.
abbrev vote_at_time : ℕ → Vote
vote_at_time t = record {
  type = prevote_type;
  height = pos 7;
  round = pos 0;
  block_id = empty_block_id;
  timestamp = pos t;
  validator_address = 1 ∷ [];
  validator_index = pos 0;
  signature = [];
}

-- A failed write stops the signer; after the restart it signs, and signs again with the old time.
abbrev events : List Event
events =
    ask_vote false [] (vote_at_time 4)
    ∷ restart
    ∷ ask_vote true [] (vote_at_time 5)
    ∷ restart
    ∷ ask_vote true [] (vote_at_time 6)
    ∷ []

abbrev times : List Released → List (Outcome PvError ℕ × Bytes)
times = map (λ r. (r.step, r.signature))

signs_once :
    times (run crypto codec (new_signer (1 ∷ [])) [] events).1
    ≡ (ok 2, 5 ∷ []) ∷ (ok 2, 5 ∷ []) ∷ []
unfolding run vote_sign_bytes sign_vote same_vote bytes_eq
signs_once = refl

never_double_signs_example : Consistent (run crypto codec (new_signer (1 ∷ [])) [] events).1
never_double_signs_example = never_double_signs crypto codec codec-IsLawful (1 ∷ []) events

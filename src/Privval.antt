-- ===== src/Privval.antt =====
-- The validator key in a file that never signs two things: privval/file.go. The state on disk is the
-- record that was written last; its JSON form, the key file and file errors on loading are not
-- modelled.
pub mod Canonical
pub mod Signing
pub mod Votes
pub mod Proposals
pub mod Machine
mod Tests
use relaychainmodel.Prelude.{
  Bool, Option, false, if◌then◌else◌, length, ltb, none, some, true, ℕ, ◌==◌,
}
use relaychainmodel.Prelude.Int.{eq_ℤ, ltb_ℤ, pos, ℤ}
use relaychainmodel.Prelude.Bytes.{Bytes, bytes_eq, slice}
use relaychainmodel.Prelude.Outcome.{Outcome, err, ok, panics, ◌>>=◌, ◌>>◌}
use relaychainmodel.Types.Vote.{
  Vote, VoteError, Crypto, prevote_type, precommit_type, vote_sign_bytes,
}
use relaychainmodel.Privval.Canonical.{
  Proposal, Codec, proposal_sign_bytes, same_vote, same_proposal,
}

-- `stepNone`, `stepPropose`, `stepPrevote`, `stepPrecommit`
abbrev pub step_none : ℕ
step_none = 0

abbrev pub step_propose : ℕ
step_propose = 1

abbrev pub step_prevote : ℕ
step_prevote = 2

abbrev pub step_precommit : ℕ
step_precommit = 3

pub data PvError : Type 0 where
  height_regression round_regression step_regression no_sign_bytes : PvError
  conflicting_data sign_failed : PvError

-- `voteToStep`: an unknown type panics.
unfoldable pub vote_to_step : ℕ → Outcome PvError ℕ
vote_to_step type =
    if type == prevote_type
    then ok step_prevote
    else if type == precommit_type
    then ok step_precommit
    else panics

-- `FilePVLastSignState`; `none` is a nil slice.
pub record LastSignState : Type 0 where
  pub height : ℤ  -- int64
  pub round : ℤ  -- int32
  pub step : ℕ  -- int8
  pub signature : Option Bytes
  pub sign_bytes : Option Bytes
  pub file_path : Bytes

-- The state of `NewFilePV`.
abbrev pub new_state : Bytes → LastSignState
new_state path = record {
  height = pos 0;
  round = pos 0;
  step = step_none;
  signature = none;
  sign_bytes = none;
  file_path = path;
}

-- `CheckHRS`: whether the last signature is to be used again.
unfoldable pub check_hrs : LastSignState → ℤ → ℤ → ℕ → Outcome PvError Bool
check_hrs s height round step =
    if ltb_ℤ height s.height
    then err height_regression
    else if eq_ℤ s.height height
    then if ltb_ℤ round s.round
      then err round_regression
      else if eq_ℤ s.round round
      then if ltb step s.step
        then err step_regression
        else if s.step == step
        then elim s.sign_bytes [
          | none ↦ err no_sign_bytes
          | some b ↦ elim s.signature [ none ↦ panics | some g ↦ ok true ]
        ]
        else ok false
      else ok false
    else ok false

-- `FilePVLastSignState.Save`: no path panics, and so does a write that fails.
unfoldable pub save : Bool → LastSignState → Outcome PvError LastSignState
save written s = if length s.file_path == 0 then panics else if written then ok s else panics

-- `saveSigned`
unfoldable pub save_signed :
    Bool → LastSignState → ℤ → ℤ → ℕ → Bytes → Bytes → Outcome PvError LastSignState
unfolding save
save_signed written s h r p message sig =
    save written (record s {
      height = h;
      round = r;
      step = p;
      signature = some sig;
      sign_bytes = some message;
    })

-- Sign bytes in the error type of this file; they are returned or panic.
abbrev pub or_panics : {A : Type 0} → Outcome VoteError A → Outcome PvError A
or_panics (ok a) = ok a
or_panics (err e) = panics
or_panics panics = panics

-- `PrivKey.Sign`
abbrev pub signed : Option Bytes → Outcome PvError Bytes
signed none = err sign_failed
signed (some sig) = ok sig

module _ (c : Crypto) (d : Codec) where
  -- `checkVotesOnlyDifferByTimestamp`
  unfoldable pub check_votes : Bytes → Bytes → Outcome PvError (ℤ × Bool)
  unfolding same_vote
  check_votes last new = elim (d.unmarshal_vote last) [
    | none ↦ panics
    | some l ↦ elim (d.unmarshal_vote new) [
      | none ↦ panics
      | some n ↦ ok (l.timestamp, same_vote n l)
    ]
  ]

  -- `checkProposalsOnlyDifferByTimestamp`
  unfoldable pub check_proposals : Bytes → Bytes → Outcome PvError (ℤ × Bool)
  unfolding same_proposal
  check_proposals last new = elim (d.unmarshal_proposal last) [
    | none ↦ panics
    | some l ↦ elim (d.unmarshal_proposal new) [
      | none ↦ panics
      | some n ↦ ok (l.timestamp, same_proposal n l)
    ]
  ]

  -- The branch of `signVote` for a height, round and step that was signed before.
  unfoldable pub reuse_vote : LastSignState → Bytes → Vote → Outcome PvError (LastSignState × Vote)
  unfolding check_votes
  reuse_vote s message vote =
      if bytes_eq message (slice s.sign_bytes)
      then ok (s, record vote { signature = slice s.signature })
      else check_votes (slice s.sign_bytes) message >>= λ (timestamp, only).
          if only
          then ok (s, record vote { timestamp = timestamp; signature = slice s.signature })
          else err conflicting_data

  -- The rest of `signVote`: sign, write the state, and only then hand out the signature.
  unfoldable pub sign_new_vote :
      Bool → LastSignState → ℕ → Bytes → Vote → Outcome PvError (LastSignState × Vote)
  unfolding save_signed
  sign_new_vote written s step message vote = do
    sig ← signed (d.sign message)
    s' ← save_signed written s vote.height vote.round step message sig
    ok (s', record vote { signature = sig })

  -- `signVote`: the state that is in memory and on disk, and the vote with its signature. The first
  -- argument says whether a write to the file succeeds.
  unfoldable pub sign_vote :
      Bool → Bytes → LastSignState → Vote → Outcome PvError (LastSignState × Vote)
  unfolding reuse_vote sign_new_vote check_hrs vote_to_step
  sign_vote written chain_id s vote = do
    step ← vote_to_step vote.type
    same_hrs ← check_hrs s vote.height vote.round step
    message ← or_panics (vote_sign_bytes c chain_id vote)
    if same_hrs then reuse_vote s message vote else sign_new_vote written s step message vote

  -- The branch of `signProposal` for a height, round and step that was signed before.
  unfoldable pub reuse_proposal :
      LastSignState → Bytes → Proposal → Outcome PvError (LastSignState × Proposal)
  unfolding check_proposals
  reuse_proposal s message proposal =
      if bytes_eq message (slice s.sign_bytes)
      then ok (s, record proposal { signature = slice s.signature })
      else check_proposals (slice s.sign_bytes) message >>= λ (timestamp, only).
          if only
          then ok (s, record proposal { timestamp = timestamp; signature = slice s.signature })
          else err conflicting_data

  -- The rest of `signProposal`: sign, write the state, and only then hand out the signature.
  unfoldable pub sign_new_proposal :
      Bool → LastSignState → ℕ → Bytes → Proposal → Outcome PvError (LastSignState × Proposal)
  unfolding save_signed
  sign_new_proposal written s step message proposal = do
    sig ← signed (d.sign message)
    s' ← save_signed written s proposal.height proposal.round step message sig
    ok (s', record proposal { signature = sig })

  -- `signProposal`, likewise.
  unfoldable pub sign_proposal :
      Bool → Bytes → LastSignState → Proposal → Outcome PvError (LastSignState × Proposal)
  unfolding reuse_proposal sign_new_proposal check_hrs
  sign_proposal written chain_id s proposal = do
    same_hrs ← check_hrs s proposal.height proposal.round step_propose
    message ← or_panics (proposal_sign_bytes d chain_id proposal)
    if same_hrs
        then reuse_proposal s message proposal
        else sign_new_proposal written s step_propose message proposal

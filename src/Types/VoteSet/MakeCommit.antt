-- ===== src/Types/VoteSet/MakeCommit.antt =====
-- Commits from vote sets and back: MakeCommit of types/vote_set.go, CommitSig of types/vote.go and
-- CommitToVoteSet of types/block.go.
pub mod Slots
pub mod Counting
pub mod Verifies
mod Tests
use relaychainmodel.Prelude.{
  Bool, List, Option, Option-elim, [], false, if◌then◌else◌, none, not, some, true, ℕ, ◌&&◌, ◌+◌,
  ◌==◌, ◌∷◌,
}
use relaychainmodel.Prelude.Bytes.{Bytes}
use relaychainmodel.Prelude.Outcome.{Outcome, err, ok, panics, ◌>>=◌}
use relaychainmodel.Types.BlockId.{BlockId, equals, is_complete, is_zero}
use relaychainmodel.Types.Vote.{Crypto, Vote, VoteError, precommit_type}
use relaychainmodel.Types.ValidatorSet.{ValidatorSet}
use relaychainmodel.Types.Commit
use relaychainmodel.Types.Commit.{
  Commit, CommitSig, absent, commit_flag, for_block, new_commit_sig_absent, nil_flag,
}
use relaychainmodel.Types.VoteSet.{VoteSet, add_vote, new_vote_set}

-- The signature of a vote, with a flag.
abbrev pub flagged : Commit.BlockIdFlag → Vote → CommitSig
flagged flag v = record {
  block_id_flag = flag;
  validator_address = v.validator_address;
  timestamp = v.timestamp;
  signature = v.signature;
}

-- `Vote.CommitSig`; `none` is the nil vote.
unfoldable pub commit_sig : Option Vote → Outcome VoteError CommitSig
unfolding is_complete is_zero
commit_sig none = ok new_commit_sig_absent
commit_sig (some v) =
    if is_complete v.block_id
    then ok (flagged commit_flag v)
    else if is_zero v.block_id
    then ok (flagged nil_flag v)
    else panics

-- Whether the vote is for another block than that of the majority.
abbrev pub for_other : BlockId → Option Vote → Bool
for_other m none = false
for_other m (some v) = not (equals v.block_id m)

-- The signatures of `MakeCommit`, with the votes for other blocks left out.
unfoldable pub commit_sigs : BlockId → List (Option Vote) → Outcome VoteError (List CommitSig)
unfolding commit_sig equals
commit_sigs m [] = ok []
commit_sigs m (v ∷ vs) = commit_sig v >>= λ sig.
    let sig' = if for_block sig && for_other m v then new_commit_sig_absent else sig in
    commit_sigs m vs >>= λ sigs. ok (sig' ∷ sigs)

-- `MakeCommit`
unfoldable pub make_commit : VoteSet → Outcome VoteError Commit
unfolding commit_sigs
make_commit s =
    if not (s.signed_msg_type == precommit_type)
    then panics
    else Option-elim s.maj23 panics (λ m. commit_sigs m s.votes >>= λ sigs.
        ok (record { height = s.height; round = s.round; block_id = m; signatures = sigs }))

module _ (k : Crypto) where
  -- What `CommitToVoteSet` makes of a call of AddVote: anything but an addition panics.
  abbrev pub must_add :
      Outcome VoteError (VoteSet × Bool × Option VoteError) → Outcome VoteError VoteSet
  must_add (ok (s, true, none)) = ok s
  must_add (ok (s, true, some e)) = panics
  must_add (ok (s, false, e)) = panics
  must_add (err e) = panics
  must_add panics = panics

  -- The loop of `CommitToVoteSet` from position `i`.
  unfoldable pub add_sigs : Commit → ℕ → List CommitSig → VoteSet → Outcome VoteError VoteSet
  unfolding add_vote Commit.get_vote
  add_sigs c i [] s = ok s
  add_sigs c i (sig ∷ sigs) s =
      let skip = add_sigs c (i + 1) sigs s in
      if absent sig
      then skip
      else Commit.get_vote c i >>= λ v. must_add (add_vote k s (some v)) >>= add_sigs c (i + 1) sigs

  -- `CommitToVoteSet`
  unfoldable pub commit_to_vote_set : Bytes → Commit → ValidatorSet → Outcome VoteError VoteSet
  unfolding add_sigs new_vote_set
  commit_to_vote_set chain_id c vals =
      new_vote_set (record {
        chain_id = chain_id;
        height = c.height;
        round = c.round;
        signed_msg_type = precommit_type;
        val_set = vals;
      })
      >>= add_sigs c 0 c.signatures

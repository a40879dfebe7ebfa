-- ===== src/Types/VoteSet/MakeCommit/Slots.antt =====
-- The signature slots that MakeCommit (types/vote_set.go) makes of votes for a block or for nil.
use relaychainmodel.Prelude.{
  Bool-cases, List, Option, [], ap, arith, false, get_elem?, if◌then◌else◌, inl, inr, map, none,
  refl, some, suc, sym, true, ℕ, ◌&&◌, ◌∷◌, ◌≡◌, ◌⊎◌, ◌∙◌,
}
use relaychainmodel.Prelude.Int.{pos}
use relaychainmodel.Prelude.Outcome.{ok}
use relaychainmodel.Types.BlockId.{
  BlockId, equals, equals_iff, is_complete, is_zero, is_zero-eq-empty,
}
use relaychainmodel.Types.Vote.{Vote, precommit_type}
use relaychainmodel.Types.Commit
use relaychainmodel.Types.Commit.{
  Commit, CommitSig, absent, commit_flag, for_block, get_vote, new_commit_sig_absent, nil_flag,
  sig_block_id,
}
use relaychainmodel.Types.VoteSet.{vote_at}
use relaychainmodel.Types.VoteSet.MakeCommit.{commit_sig, commit_sigs, flagged, for_other}

-- A vote is for a block or for nil, as its basic validation ensures.
abbrev pub IsProper : Vote → Type 0
IsProper v = (is_complete v.block_id ≡ true) ⊎ (is_zero v.block_id ≡ true)

-- All votes of a list are.
abbrev pub AllProper : List (Option Vote) → Type 0
AllProper votes = (i : ℕ) (v : Vote) → vote_at votes i ≡ some v → IsProper v

-- The slot of a vote in a commit for a block.
unfoldable pub slot : BlockId → Option Vote → CommitSig
slot m none = new_commit_sig_absent
slot m (some v) =
    if is_complete v.block_id
    then (if equals v.block_id m then flagged commit_flag v else new_commit_sig_absent)
    else flagged nil_flag v

slot-step :
    (m : BlockId) (v : Option Vote)
    → ((w : Vote) → v ≡ some w → IsProper w)
    → (sig : CommitSig) × (commit_sig v ≡ ok sig)
      × ((if for_block sig && for_other m v then new_commit_sig_absent else sig) ≡ slot m v)
unfolding commit_sig slot
slot-step m none h = (new_commit_sig_absent, refl, refl)
slot-step m (some v) h = elim (Bool-cases (is_complete v.block_id)) [
  | inl full ↦ elim (Bool-cases (equals v.block_id m)) [
    | inl same ↦ (flagged commit_flag v, rw full refl, rw (full, same) refl)
    | inr other ↦ (flagged commit_flag v, rw full refl, rw (full, other) refl)
  ]
  | inr part ↦ elim (h v refl) [
    | inl full ↦ absurd (ground arith)
    | inr empty ↦ (flagged nil_flag v, rw (part, empty) refl, rw part refl)
  ]
]

pub commit_sigs-slots :
    (m : BlockId) (votes : List (Option Vote))
    → AllProper votes
    → commit_sigs m votes ≡ ok (map (slot m) votes)
unfolding commit_sigs
commit_sigs-slots m [] h = refl
commit_sigs-slots m (v ∷ vs) h =
    let (sig, made, final) = slot-step m v (λ w e. h 0 w e) in
    let rest = commit_sigs-slots m vs (λ i w e. h (suc i) w e) in rw (made, rest, final) refl

get_vote-flagged :
    (c : Commit) (i : ℕ) (v : Vote) (flag : Commit.BlockIdFlag)
    → get_elem? c.signatures i ≡ some (flagged flag v)
    → sig_block_id (flagged flag v) c.block_id ≡ ok v.block_id
    → v.type ≡ precommit_type
    → v.height ≡ c.height
    → v.round ≡ c.round
    → v.validator_index ≡ pos i
    → get_vote c i ≡ ok v
unfolding get_vote
get_vote-flagged c i v flag there names type height round index =
    rw (there, names, get_vote)
      (λ j. ok (record {
        type = sym type j;
        height = sym height j;
        round = sym round j;
        block_id = v.block_id;
        timestamp = v.timestamp;
        validator_address = v.validator_address;
        validator_index = sym index j;
        signature = v.signature;
      }))

-- A slot that is not absent gives its vote back.
pub get_vote-slot :
    (c : Commit) (i : ℕ) (v : Vote)
    → get_elem? c.signatures i ≡ some (slot c.block_id (some v))
    → absent (slot c.block_id (some v)) ≡ false
    → IsProper v
    → v.type ≡ precommit_type
    → v.height ≡ c.height
    → v.round ≡ c.round
    → v.validator_index ≡ pos i
    → get_vote c i ≡ ok v
unfolding slot sig_block_id
get_vote-slot c i v there present proper type height round index =
    elim (Bool-cases (is_complete v.block_id)) [
      | inl full ↦ elim (Bool-cases (equals v.block_id c.block_id)) [
        | inr other ↦
            let gone : absent (slot c.block_id (some v)) ≡ true = rw (full, other, slot) refl in
            absurd (ground arith)
        | inl same ↦
            let made : slot c.block_id (some v) ≡ flagged commit_flag v =
              rw (full, same, slot) refl in
            let e = (equals_iff v.block_id c.block_id).0 same in
            get_vote-flagged c i v commit_flag (there ∙ ap some made) (rw e refl) type height round
              index
      ]
      | inr part ↦ elim proper [
        | inl full ↦ absurd (ground arith)
        | inr empty ↦
            let made : slot c.block_id (some v) ≡ flagged nil_flag v = rw (part, slot) refl in
            let e = is_zero-eq-empty v.block_id empty in
            get_vote-flagged c i v nil_flag (there ∙ ap some made) (rw e refl) type height round
              index
      ]
    ]

-- A slot is for the block exactly if its vote is.
pub for_block-slot :
    (m : BlockId) (v : Vote)
    → is_complete m ≡ true
    → v.block_id ≡ m
    → for_block (slot m (some v)) ≡ true
unfolding slot
for_block-slot m v full same =
    let e = (equals_iff v.block_id m).1 same in
    let f : is_complete v.block_id ≡ true = rw same full in rw (f, e) refl

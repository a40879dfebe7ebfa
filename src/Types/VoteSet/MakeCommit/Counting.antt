-- ===== src/Types/VoteSet/MakeCommit/Counting.antt =====
-- The loop of verifyCommitSingle (types/validation.go) on slots whose signatures verify: it counts the
-- power of those for the block.
use relaychainmodel.Prelude.{
  Bool, Bool-cases, List, [], ap, arith, false, get_elem?, if◌then◌else◌, inl, inr, some, true, ℕ,
  ◌+◌, ◌<◌, ◌∷◌, ◌≡◌, ◌∙◌,
}
use relaychainmodel.Prelude.Int.{ℤ}
use relaychainmodel.Prelude.Bytes.{Bytes}
use relaychainmodel.Prelude.Outcome.{ok}
use relaychainmodel.Prelude.Int64.{add_int64-eq, two63}
use relaychainmodel.Types.Vote.{Crypto}
use relaychainmodel.Types.ValidatorSet.{Validator, ValidatorSet, power}
use relaychainmodel.Types.ValidatorSet.Power.{power_from}
use relaychainmodel.Types.Commit.{Commit, CommitSig, absent, for_block}
use relaychainmodel.Types.Validation.{
  Seen, check_tally, find_validator, sign_bytes, single_from, tally_with,
}
use relaychainmodel.Types.Validation.Commits.{full_run}

module _ (k : Crypto) (chain_id : Bytes) (vals : ValidatorSet) (commit : Commit) where
  -- The slots from a position on belong to the validators from there on, their signatures verify, and
  -- those for the block are the ones that `q` chooses.
  abbrev pub AllSigned : (ℕ → Bool) → ℕ → List Validator → List CommitSig → Type 0
  AllSigned q idx [] [] = Unit {0}
  AllSigned q idx [] (sig ∷ sigs) = ⊥
  AllSigned q idx (v ∷ vs) [] = ⊥
  AllSigned q idx (v ∷ vs) (sig ∷ sigs) =
      (get_elem? vals.validators idx ≡ some v)
      × (q idx ≡ for_block sig)
      × (absent sig ≡ false
          → (message : Bytes) × (sign_bytes k chain_id commit idx ≡ ok message)
            × (k.verify_signature v.pub_key message sig.signature ≡ true))
      × AllSigned q (idx + 1) vs sigs

  -- An absent slot is not for the block.
  absent-for_block : (sig : CommitSig) → absent sig ≡ true → for_block sig ≡ false
  absent-for_block sig h = ground arith

  pub single_from-counts :
      (needed : ℤ) (q : ℕ → Bool) (idx : ℕ) (seen : Seen) (tally : ℕ) (vs : List Validator)
      (sigs : List CommitSig)
      → AllSigned q idx vs sigs
      → tally + power vs < two63
      → single_from k (full_run chain_id vals commit needed) idx seen tally sigs
        ≡ check_tally (full_run chain_id vals commit needed) (tally + power_from q idx vs)
  unfolding single_from power_from power find_validator
  single_from-counts needed q idx seen tally [] [] h small =
      ap (check_tally (full_run chain_id vals commit needed)) (omega arith)
  single_from-counts needed q idx seen tally [] (sig ∷ sigs) h small = absurd h
  single_from-counts needed q idx seen tally (v ∷ vs) [] h small = absurd h
  single_from-counts needed q idx seen tally (v ∷ vs) (sig ∷ sigs) (here, counted, signed, rest)
        small =
      elim (Bool-cases (absent sig)) [
        | inl gone ↦
            let none_here : q idx ≡ false = counted ∙ absent-for_block sig gone in
            rw (gone, none_here)
              (single_from-counts needed q (idx + 1) seen tally vs sigs rest (omega arith)
                ∙ ap (check_tally (full_run chain_id vals commit needed)) (omega arith))
        | inr present ↦
            let (message, made, verified) = signed present in
            let run = full_run chain_id vals commit needed in
            let tally' = tally_with run tally sig v in
            let exact : tally' ≡ tally + (if q idx then v.voting_power else 0) =
              ground (arith, add_int64-eq tally v.voting_power) in
            let ih =
              single_from-counts needed q (idx + 1) seen tally' vs sigs rest (ground arith) in
            rw (present, here, made, verified) (ih ∙ ap (check_tally run) (omega arith))
      ]

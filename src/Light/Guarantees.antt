-- ===== src/Light/Guarantees.antt =====
-- What a header that the light client accepts is known to have.
use relaychainmodel.Prelude.{
  Bool, Option-cases, arith, false, inl, inr, some, true, ℕ, ◌*◌, ◌<◌, ◌≡◌,
}
use relaychainmodel.Prelude.Int.{eq_ℤ, eq_ℤ_iff, ℤ, ◌<ℤ◌}
use relaychainmodel.Prelude.Bytes.{bytes_eq, bytes_eq_iff, slice}
use relaychainmodel.Prelude.Outcome.{Outcome, ok}
use relaychainmodel.Prelude.Int64.{two63}
use relaychainmodel.SafeMath.{Fraction}
use relaychainmodel.Types.Vote.{Crypto}
use relaychainmodel.Types.ValidatorSet.{ValidatorSet, IsValid, power}
use relaychainmodel.Types.ValidatorSet.Power.{power_of}
use relaychainmodel.Types.Commit.{Commit}
use relaychainmodel.Types.Validation.{CommitError}
use relaychainmodel.Types.Validation.Batch.{BatchVerifier}
use relaychainmodel.Types.Validation.Commits.{
  verify_commit_light, verify_commit_light_trusting, light_run,
}
use relaychainmodel.Types.Validation.Equivalence.{IsSound}
use relaychainmodel.Types.Validation.Soundness.{Signed}
use relaychainmodel.Types.Validation.Guarantees.{
  TwoThirds, verify_commit_light_sound, verify_commit_light_trusting_sound,
}
use relaychainmodel.Types.VoteSet.{suc_int64}
use relaychainmodel.Light.{
  Header, SignedHeader, Hasher, header_hash, validators_hash_of, signed_validate_basic,
  verify_new_header_and_vals, verify_new_commit, verify_adjacent, verify_non_adjacent,
  validate_trust_level, trusting_refused,
}

trusting_ok : (o : Outcome CommitError (Unit {0})) → trusting_refused o ≡ ok tt → o ≡ ok tt
unfolding trusting_refused
trusting_ok o h = ground arith

module _ (c : Crypto) (b : BatchVerifier) (k : Hasher) (trusted : Header) (untrusted : SignedHeader)
    (vals : ValidatorSet) (trusting_period now max_clock_drift : ℤ) where
  adjacent_steps :
      verify_adjacent c b k trusted untrusted vals trusting_period now max_clock_drift ≡ ok tt
      → (eq_ℤ untrusted.header.height (suc_int64 trusted.height) ≡ true)
        × (verify_new_header_and_vals k untrusted vals trusted now max_clock_drift ≡ ok tt)
        × (bytes_eq untrusted.header.validators_hash trusted.next_validators_hash ≡ true)
        × (verify_new_commit c b k trusted untrusted vals ≡ ok tt)
  unfolding verify_adjacent
  adjacent_steps h = ground arith

  header_steps :
      verify_new_header_and_vals k untrusted vals trusted now max_clock_drift ≡ ok tt
      → (signed_validate_basic k untrusted trusted.chain_id ≡ ok tt)
        × (trusted.height <ℤ untrusted.header.height)
        × (trusted.time <ℤ untrusted.header.time)
        × (validators_hash_of k vals ≡ some untrusted.header.validators_hash)
  unfolding verify_new_header_and_vals
  header_steps h = elim (Option-cases (validators_hash_of k vals)) [
    | inl e ↦ absurd (ground arith)
    | inr (hash, e) ↦ ground (arith, bytes_eq_iff untrusted.header.validators_hash hash)
  ]

  commit_steps :
      (commit : Commit)
      → untrusted.commit ≡ some commit
      → signed_validate_basic k untrusted trusted.chain_id ≡ ok tt
      → slice (header_hash k untrusted.header) ≡ commit.block_id.hash
  unfolding signed_validate_basic
  commit_steps commit e h =
      ground (arith, bytes_eq_iff (slice (header_hash k untrusted.header)) commit.block_id.hash)

  new_commit_steps :
      verify_new_commit c b k trusted untrusted vals ≡ ok tt
      → (commit : Commit) × (untrusted.commit ≡ some commit)
        × (verify_commit_light c b trusted.chain_id
              (some vals)
              commit.block_id
              untrusted.header.height
              (some commit)
            ≡ ok tt)
  unfolding verify_new_commit
  new_commit_steps h = elim (Option-cases untrusted.commit) [
    | inl e ↦ absurd (ground arith)
    | inr (commit, e) ↦ (commit, e, ground arith)
  ]

  -- What the new commit and the new validators are known to have.
  abbrev pub Certified : Commit → Type 0
  Certified commit =
      (untrusted.commit ≡ some commit)
      × (slice (header_hash k untrusted.header) ≡ commit.block_id.hash)
      × (validators_hash_of k vals ≡ some untrusted.header.validators_hash)
      × (untrusted.header.height ≡ commit.height)
      × (trusted.time <ℤ untrusted.header.time)
      × TwoThirds c (light_run true trusted.chain_id vals commit) vals

  certify :
      IsSound c b
      → IsValid vals
      → verify_new_header_and_vals k untrusted vals trusted now max_clock_drift ≡ ok tt
      → verify_new_commit c b k trusted untrusted vals ≡ ok tt
      → (commit : Commit) × Certified commit
  certify sound valid h g =
      let (signed, higher, later, hashes) = header_steps h in
      let (commit, there, ran) = new_commit_steps g in
      let ((size, height, block), more) =
        verify_commit_light_sound c b sound trusted.chain_id vals valid commit.block_id
          untrusted.header.height commit ran in
      (commit, (there, commit_steps commit there signed, hashes, height, later, more))

  -- VerifyAdjacent accepts a header, with a valid set of new validators and a sound batch verifier,
  -- only if it is of the next height, its validators are the next ones of the trusted header and
  -- those that were given, and its commit is for the header's own hash and height and signed by
  -- distinct ones of them with more than two thirds of their power.
  pub verify_adjacent_sound :
      IsSound c b
      → IsValid vals
      → verify_adjacent c b k trusted untrusted vals trusting_period now max_clock_drift ≡ ok tt
      → (untrusted.header.height ≡ suc_int64 trusted.height)
        × (untrusted.header.validators_hash ≡ trusted.next_validators_hash)
        × (commit : Commit) × Certified commit
  verify_adjacent_sound sound valid h =
      let (next, checked, same, new) = adjacent_steps h in
      let (commit, certified) = certify sound valid checked new in
      ((eq_ℤ_iff _ _).0 next, (bytes_eq_iff _ _).0 same, commit, certified)

  module _ (trusted_vals : ValidatorSet) (level : Fraction) where
    non_adjacent_steps :
        verify_non_adjacent c b k trusted trusted_vals untrusted vals trusting_period now
            max_clock_drift level
          ≡ ok tt
        → (verify_new_header_and_vals k untrusted vals trusted now max_clock_drift ≡ ok tt)
          × (validate_trust_level level ≡ true)
          × (trusting_refused (
                verify_commit_light_trusting c b trusted.chain_id
                  (some trusted_vals)
                  untrusted.commit
                  level)
              ≡ ok tt)
          × (verify_new_commit c b k trusted untrusted vals ≡ ok tt)
    unfolding verify_non_adjacent
    non_adjacent_steps h = ground arith

    -- VerifyNonAdjacent accepts a header, with valid sets of validators, a sound batch verifier and
    -- a trust level of two int64s, only if its time is later and its height above the trusted one's,
    -- distinct trusted validators with more than the trust level of their power have signed its
    -- commit, and the commit is for the header's own hash and height and signed by distinct ones of
    -- the header's validators with more than two thirds of their power.
    pub verify_non_adjacent_sound :
        IsSound c b
        → IsValid vals
        → IsValid trusted_vals
        → level.numerator < two63
        → level.denominator < two63
        → verify_non_adjacent c b k trusted trusted_vals untrusted vals trusting_period now
            max_clock_drift level
          ≡ ok tt
        → (trusted.height <ℤ untrusted.header.height)
          × (commit : Commit) × Certified commit
          × (needed : ℤ) × (q : ℕ → Bool) × ((i : ℕ)
              → q i ≡ true
              → Signed c (light_run false trusted.chain_id trusted_vals commit needed) i)
          × (power trusted_vals.validators * level.numerator
              < level.denominator * power_of q trusted_vals.validators)
    verify_non_adjacent_sound sound valid trusted_valid hn hd h =
        let (checked, trust, trusting, new) = non_adjacent_steps h in
        let (signed, higher, later, hashes) = header_steps checked in
        let (commit, certified) = certify sound valid checked new in
        let there : untrusted.commit ≡ some commit = certified.0 in
        let ran = trusting_ok _ (rw there at trusting) in
        let (needed, q, signers, enough) =
          verify_commit_light_trusting_sound c b sound trusted.chain_id trusted_vals trusted_valid
            level commit hn hd ran in
        (higher, commit, certified, needed, q, signers, enough)

-- ===== src/Types/Validation/Tests.antt =====
-- Runs of the verification of commits, and the theorems at concrete inputs.
use relaychainmodel.Prelude.{
  Bool, List, [], arith, false, inl, refl, some, true, ℕ, ◌*◌, ◌/◌, ◌<◌, ◌∷◌, ◌≡◌,
}
use relaychainmodel.Prelude.Int.{pos, ℤ}
use relaychainmodel.Prelude.Outcome.{err, ok}
use relaychainmodel.Prelude.Int64.{mul_int64, quot_int64}
use relaychainmodel.SafeMath.{Fraction, safe_mul}
use relaychainmodel.Types.Fixtures.{toy_crypto, toy_batch, three_validators, block, three_commit}
use relaychainmodel.Types.ValidatorSet.{IsValid, power, total_voting_power}
use relaychainmodel.Types.ValidatorSet.Power.{power_of}
use relaychainmodel.Types.Validation.{wrong_block_id}
use relaychainmodel.Types.Validation.Batch.{Entry}
use relaychainmodel.Types.Validation.Commits.{
  full_run, light_run, verify_commit, verify_commit_light, verify_commit_light_trusting,
}
use relaychainmodel.Types.Validation.Equivalence.{IsSound, all_valid}
use relaychainmodel.Types.Validation.Soundness.{Signed}
use relaychainmodel.Types.Validation.Guarantees.{
  Matches, TwoThirds, verify_commit_sound, verify_commit_light_sound,
  verify_commit_light_accountable, verify_commit_light_trusting_sound,
}

three-IsValid : IsValid three_validators
unfolding power
three-IsValid = record { cached = inl refl; capped = omega arith }

toy-verifies : (es : List Entry) → (toy_batch.verify_all es).0 ≡ all_valid toy_crypto es
toy-verifies [] = refl
toy-verifies (e ∷ es) = rw (toy-verifies es)

pub toy-IsSound : IsSound toy_crypto toy_batch
toy-IsSound = record { verifies = toy-verifies; adds = λ k m s h. refl }

light_accepts :
    verify_commit_light toy_crypto toy_batch []
      (some three_validators)
      (block 4)
      (pos 7)
      (some (three_commit (block 4)))
    ≡ ok tt
unfolding verify_commit_light quot_int64 mul_int64
light_accepts = refl

light_refuses_another_block :
    verify_commit_light toy_crypto toy_batch []
      (some three_validators)
      (block 5)
      (pos 7)
      (some (three_commit (block 4)))
    ≡ err wrong_block_id
unfolding verify_commit_light
light_refuses_another_block = refl

full_accepts :
    verify_commit toy_crypto toy_batch []
      (some three_validators)
      (block 4)
      (pos 7)
      (some (three_commit (block 4)))
    ≡ ok tt
unfolding verify_commit quot_int64 mul_int64
full_accepts = refl

abbrev one_third : Fraction
one_third = record { numerator = 1; denominator = 3 }

trusting_accepts :
    verify_commit_light_trusting toy_crypto toy_batch []
      (some three_validators)
      (some (three_commit (block 4)))
      one_third
    ≡ ok tt
unfolding verify_commit_light_trusting total_voting_power safe_mul quot_int64 mul_int64
trusting_accepts = refl

verify_commit_sound_example :
    Matches three_validators (block 4) (pos 7) (three_commit (block 4))
    × TwoThirds toy_crypto (full_run [] three_validators (three_commit (block 4))) three_validators
verify_commit_sound_example =
    verify_commit_sound toy_crypto toy_batch toy-IsSound [] three_validators three-IsValid (block 4)
      (pos 7) (three_commit (block 4)) full_accepts

verify_commit_light_sound_example :
    Matches three_validators (block 4) (pos 7) (three_commit (block 4))
    × TwoThirds toy_crypto
        (light_run true [] three_validators (three_commit (block 4)))
        three_validators
verify_commit_light_sound_example =
    verify_commit_light_sound toy_crypto toy_batch toy-IsSound [] three_validators three-IsValid
      (block 4) (pos 7) (three_commit (block 4)) light_accepts

-- The same keys sign for another block too.
light_accepts_fork :
    verify_commit_light toy_crypto toy_batch []
      (some three_validators)
      (block 6)
      (pos 7)
      (some (three_commit (block 6)))
    ≡ ok tt
unfolding verify_commit_light quot_int64 mul_int64
light_accepts_fork = refl

verify_commit_light_accountable_example :
    (q : ℕ → Bool) × ((i : ℕ)
      → q i ≡ true
      → Signed toy_crypto
          (light_run true [] three_validators
            (three_commit (block 4))
            (pos (power three_validators.validators * 2 / 3)))
          i
        × Signed toy_crypto
            (light_run true [] three_validators
              (three_commit (block 6))
              (pos (power three_validators.validators * 2 / 3)))
            i)
    × (power three_validators.validators < 3 * power_of q three_validators.validators)
verify_commit_light_accountable_example =
    verify_commit_light_accountable toy_crypto toy_batch toy-IsSound [] three_validators
      three-IsValid (block 4) (block 6) (pos 7) (pos 7) (three_commit (block 4))
      (three_commit (block 6)) light_accepts light_accepts_fork

verify_commit_light_trusting_sound_example :
    (needed : ℤ) × (q : ℕ → Bool) × ((i : ℕ)
      → q i ≡ true
      → Signed toy_crypto (light_run false [] three_validators (three_commit (block 4)) needed) i)
    × (power three_validators.validators * 1 < 3 * power_of q three_validators.validators)
verify_commit_light_trusting_sound_example =
    verify_commit_light_trusting_sound toy_crypto toy_batch toy-IsSound [] three_validators
      three-IsValid one_third (three_commit (block 4)) (omega arith) (omega arith) trusting_accepts

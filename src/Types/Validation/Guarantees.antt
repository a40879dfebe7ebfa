-- ===== src/Types/Validation/Guarantees.antt =====
-- What the entry points promise: a commit that they accept was signed by enough of the set.
use relaychainmodel.Prelude.{
  Bool, arith, false, inl, inr, length, refl, some, sym, true, ℕ, ◌*◌, ◌/◌, ◌<◌, ◌∙◌, ◌≡◌,
}
use relaychainmodel.Prelude.Int.{eq_ℤ_iff, pos, ℤ}
use relaychainmodel.Prelude.Bytes.{Bytes}
use relaychainmodel.Prelude.Outcome.{
  Outcome, Outcome-cases, err, failed, ok, panicked, panics, returned, ◌>>=◌,
}
use relaychainmodel.Prelude.Int64.{quot_int64-pos, two63}
use relaychainmodel.SafeMath.{Fraction, safe_mul_lem}
use relaychainmodel.Types.BlockId.{BlockId, equals_iff}
use relaychainmodel.Types.Vote.{Crypto}
use relaychainmodel.Types.ValidatorSet.{
  ValidatorSet, IsValid, power, size, total_voting_power-eq, two_thirds, two_thirds-eq,
}
use relaychainmodel.Types.ValidatorSet.Power.{power_of, both, power_of-both}
use relaychainmodel.Types.Commit.{Commit}
use relaychainmodel.Types.Validation.{CommitError, Run}
use relaychainmodel.Types.Validation.Batch.{BatchVerifier, should_batch_verify, verify_commit_run}
use relaychainmodel.Types.Validation.Commits.{
  verify_basic, total_or_panic, full_run, light_run, verify_commit, verify_commit_light,
  verify_commit_light_trusting,
}
use relaychainmodel.Types.Validation.Equivalence.{IsSound, accepts, verify_commit_run-accepts}
use relaychainmodel.Types.Validation.Soundness.{Signed, Enough, verify_commit_single-Enough}

pub accepts-ok : (o : Outcome CommitError (Unit {0})) → o ≡ ok tt → accepts o ≡ true
accepts-ok o h = rw h

pub ok-accepts : (o : Outcome CommitError (Unit {0})) → accepts o ≡ true → o ≡ ok tt
ok-accepts (ok tt) h = refl
ok-accepts (err e) h = cc
ok-accepts panics h = cc

module _ (c : Crypto) (b : BatchVerifier) (sound : IsSound c b) where
  run-Enough :
      (r : Run) → power r.vals.validators < two63 → verify_commit_run c b r ≡ ok tt → Enough c r
  unfolding verify_commit_run
  run-Enough r capped h = elim (Outcome-cases (should_batch_verify b r.vals r.commit)) [
    | failed e f ↦ absurd (ground arith)
    | panicked f ↦ absurd (ground arith)
    | returned batch f ↦
        verify_commit_single-Enough c r capped
          (ok-accepts _ (sym (verify_commit_run-accepts c b r sound batch f) ∙ accepts-ok _ h))
  ]

-- An identifier, a height and a size that pass the first checks of a verification.
abbrev pub Matches : ValidatorSet → BlockId → ℤ → Commit → Type 0
Matches vals block_id height commit =
    (size vals ≡ length commit.signatures) × (height ≡ commit.height) × (block_id ≡ commit.block_id)

-- What comes after the first checks runs on the arguments and on the exact total power.
checked :
    (vals : ValidatorSet) (block_id : BlockId) (height : ℤ) (commit : Commit)
    (k : ValidatorSet → Commit → ℕ → Outcome CommitError (Unit {0}))
    → IsValid vals
    → (verify_basic (some vals) (some commit) height block_id >>= λ (vals', commit').
        total_or_panic vals' >>= λ total. k vals' commit' total)
      ≡ ok tt
    → Matches vals block_id height commit × (k vals commit (power vals.validators) ≡ ok tt)
unfolding verify_basic
checked vals block_id height commit k valid h = ground (
  arith,
  equals_iff block_id commit.block_id,
  eq_ℤ_iff height commit.height,
  total_voting_power-eq vals valid,
)

-- More than two thirds of the power of `vals`, held by distinct validators that signed.
abbrev pub TwoThirds : Crypto → (ℤ → Run) → ValidatorSet → Type 0
TwoThirds c run vals =
    (q : ℕ → Bool) × ((i : ℕ) → q i ≡ true → Signed c (run (pos (power vals.validators * 2 / 3))) i)
    × (2 * power vals.validators < 3 * power_of q vals.validators)

module _ (c : Crypto) (b : BatchVerifier) (sound : IsSound c b) (chain_id : Bytes)
    (vals : ValidatorSet) (valid : IsValid vals) (block_id : BlockId) (height : ℤ)
    (commit : Commit) where
  run-TwoThirds :
      (run : ℤ → Run)
      → ((n : ℤ) → (run n).vals ≡ vals)
      → ((n : ℤ) → (run n).needed ≡ n)
      → verify_commit_run c b (run (two_thirds (power vals.validators))) ≡ ok tt
      → TwoThirds c run vals
  run-TwoThirds run same needs h =
      let e = two_thirds-eq (power vals.validators) valid.capped in
      let n = pos (power vals.validators * 2 / 3) in
      let (q, signed, more) =
        run-Enough c b sound (run n) (rw (same n) (omega (arith, valid.capped))) (rw e at h) in
      (q, signed, omega (arith, rw (same n, needs n) at more))

  -- VerifyCommitLight accepts a commit only if it is for that block and height, with a signature slot
  -- for each validator, and distinct validators with more than two thirds of the power have signed it.
  pub verify_commit_light_sound :
      verify_commit_light c b chain_id (some vals) block_id height (some commit) ≡ ok tt
      → Matches vals block_id height commit × TwoThirds c (light_run true chain_id vals commit) vals
  unfolding verify_commit_light
  verify_commit_light_sound h =
      let (matches, ran) =
        checked vals block_id height commit
          (λ v m total. verify_commit_run c b (light_run true chain_id v m (two_thirds total)))
          valid h in
      (matches, run-TwoThirds (light_run true chain_id vals commit) (λ n. refl) (λ n. refl) ran)

  -- So does VerifyCommit.
  pub verify_commit_sound :
      verify_commit c b chain_id (some vals) block_id height (some commit) ≡ ok tt
      → Matches vals block_id height commit × TwoThirds c (full_run chain_id vals commit) vals
  unfolding verify_commit
  verify_commit_sound h =
      let (matches, ran) =
        checked vals block_id height commit
          (λ v m total. verify_commit_run c b (full_run chain_id v m (two_thirds total))) valid h in
      (matches, run-TwoThirds (full_run chain_id vals commit) (λ n. refl) (λ n. refl) ran)

module _ (c : Crypto) (b : BatchVerifier) (sound : IsSound c b) (chain_id : Bytes)
    (vals : ValidatorSet) (valid : IsValid vals) where
  -- Accountability: if the light verification accepts two commits by one validator set, then distinct
  -- validators with more than a third of its power have signed both.
  pub verify_commit_light_accountable :
      (block₁ block₂ : BlockId) (height₁ height₂ : ℤ) (commit₁ commit₂ : Commit)
      → verify_commit_light c b chain_id (some vals) block₁ height₁ (some commit₁) ≡ ok tt
      → verify_commit_light c b chain_id (some vals) block₂ height₂ (some commit₂) ≡ ok tt
      → let needed = pos (power vals.validators * 2 / 3) in
        (q : ℕ → Bool) × ((i : ℕ)
          → q i ≡ true
          → Signed c (light_run true chain_id vals commit₁ needed) i
            × Signed c (light_run true chain_id vals commit₂ needed) i)
        × (power vals.validators < 3 * power_of q vals.validators)
  verify_commit_light_accountable block₁ block₂ height₁ height₂ commit₁ commit₂ h₁ h₂ =
      let (p, signed₁, more₁) =
        (verify_commit_light_sound c b sound chain_id vals valid block₁ height₁ commit₁ h₁).1 in
      let (q, signed₂, more₂) =
        (verify_commit_light_sound c b sound chain_id vals valid block₂ height₂ commit₂ h₂).1 in
      (
        both p q,
        λ i h. (signed₁ i (ground arith), signed₂ i (ground arith)),
        omega (arith, power_of-both p q vals.validators),
      )

  div_lt→lt_mul : (x d y : ℕ) → 0 < d → x / d < y → x < d * y
  div_lt→lt_mul x d y h k = grind arith

  -- VerifyCommitLightTrusting accepts a commit only if distinct validators of the trusted set with
  -- more than the trust level of its power have signed it.
  pub verify_commit_light_trusting_sound :
      (level : Fraction) (commit : Commit)
      → level.numerator < two63
      → level.denominator < two63
      → verify_commit_light_trusting c b chain_id (some vals) (some commit) level ≡ ok tt
      → (needed : ℤ) × (q : ℕ → Bool) × ((i : ℕ)
          → q i ≡ true
          → Signed c (light_run false chain_id vals commit needed) i)
        × (power vals.validators * level.numerator < level.denominator * power_of q vals.validators)
  unfolding verify_commit_light_trusting
  verify_commit_light_trusting_sound level commit hn hd h =
      let total = power vals.validators in
      let x = total * level.numerator in
      elim (safe_mul_lem total level.numerator (omega (arith, valid.capped)) hn) [
        | inr (big, over) ↦ absurd (ground (arith, total_voting_power-eq vals valid))
        | inl (small, exact) ↦
            let needed = pos (x / level.denominator) in
            let ran : verify_commit_run c b (light_run false chain_id vals commit needed) ≡ ok tt =
              ground
                (arith, total_voting_power-eq vals valid, quot_int64-pos x level.denominator) in
            let (q, signed, more) =
              run-Enough c b sound (light_run false chain_id vals commit needed)
                (omega (arith, valid.capped)) ran in
            (needed, q, signed, div_lt→lt_mul x level.denominator _ (ground arith) (omega arith))
      ]

-- ===== src/Types/Validation/Equivalence.antt =====
-- verifyCommitBatch against verifyCommitSingle, under the documented behaviour of batch verifiers.
use relaychainmodel.Prelude.{
  Bool, List, [], arith, false, length, none, refl, some, true, ℕ, ◌&&◌, ◌++◌, ◌+◌, ◌∷◌, ◌≡◌, ◌≤◌,
}
use relaychainmodel.Prelude.Bytes.{Bytes}
use relaychainmodel.Prelude.Outcome.{
  Outcome, Outcome-cases, err, failed, ok, panicked, panics, returned, ◌>>=◌,
}
use relaychainmodel.Types.Vote.{Crypto}
use relaychainmodel.Types.Commit.{CommitSig}
use relaychainmodel.Types.Validation.{
  CommitError, Seen, Run, tally_with, check_tally, may_stop, find_validator, sign_bytes,
  single_from, verify_commit_single,
}
use relaychainmodel.Types.Validation.Batch.{
  Entry, BatchVerifier, batch_from, finish_batch, first_invalid, verify_commit_batch,
  verify_commit_run, should_batch_verify, proposer_supports, batch_verify_threshold,
}

abbrev pub accepts : {E A : Type 0} → Outcome E A → Bool
accepts (ok _) = true
accepts (err _) = false
accepts panics = false

-- Every signature of a batch verifies by itself.
abbrev pub all_valid : Crypto → List Entry → Bool
all_valid c [] = true
all_valid c (e ∷ es) = c.verify_signature e.pub_key e.message e.signature && all_valid c es

all_valid-append :
    (c : Crypto) (es : List Entry) (e : Entry)
    → all_valid c (es ++ (e ∷ []))
      ≡ (all_valid c es && c.verify_signature e.pub_key e.message e.signature)
all_valid-append c [] e = ground arith
all_valid-append c (x ∷ es) e = ground (arith, all_valid-append c es e)

-- `Verify` accepts a batch exactly if every signature of it verifies, and `Add` refuses only what
-- does not verify.
pub record IsSound (c : Crypto) (b : BatchVerifier) : Type 0 where
  pub verifies : (es : List Entry) → (b.verify_all es).0 ≡ all_valid c es
  pub adds : (k m s : Bytes) → c.verify_signature k m s ≡ true → b.add k m s ≡ true

first_invalid-rejects : (fs : List Bool) (es : List Entry) → accepts (first_invalid fs es) ≡ false
unfolding first_invalid
first_invalid-rejects [] es = refl
first_invalid-rejects (true ∷ fs) [] = first_invalid-rejects fs []
first_invalid-rejects (true ∷ fs) (e ∷ es) = first_invalid-rejects fs es
first_invalid-rejects (false ∷ fs) [] = refl
first_invalid-rejects (false ∷ fs) (e ∷ es) = refl

module _ (c : Crypto) (b : BatchVerifier) (r : Run) (sound : IsSound c b) where
  -- Whether a run of the batch loop leads to acceptance.
  abbrev settles : Outcome CommitError (ℕ × List Entry) → Bool
  settles (ok (tally, batch)) = accepts (check_tally r tally) && all_valid c batch
  settles (err e) = false
  settles panics = false

  stop_settles : (tally : ℕ) → may_stop r tally ≡ true → accepts (check_tally r tally) ≡ true
  stop_settles tally h = ground arith

  single-eq-batch :
      (idx : ℕ) (seen : Seen) (tally : ℕ) (batch : List Entry) (sigs : List CommitSig)
      → (accepts (single_from c r idx seen tally sigs) && all_valid c batch)
        ≡ settles (batch_from c b r idx seen tally batch sigs)
  unfolding single_from batch_from
  single-eq-batch idx seen tally batch [] = ground arith
  single-eq-batch idx seen tally batch (sig ∷ sigs) =
      elim (Outcome-cases (find_validator r.by_index r.vals seen idx sig)) [
        | failed e h ↦ ground (arith, single-eq-batch (idx + 1) seen tally batch sigs)
        | panicked h ↦ ground (arith, single-eq-batch (idx + 1) seen tally batch sigs)
        | returned none h ↦ ground (arith, single-eq-batch (idx + 1) seen tally batch sigs)
        | returned (some (i, v, seen')) h ↦
            elim (Outcome-cases (sign_bytes c r.chain_id r.commit idx)) [
              | failed e m ↦ ground (arith, single-eq-batch (idx + 1) seen tally batch sigs)
              | panicked m ↦ ground (arith, single-eq-batch (idx + 1) seen tally batch sigs)
              | returned message m ↦
                  let e : Entry = record {
                    pub_key = v.pub_key;
                    message = message;
                    signature = sig.signature;
                    position = idx;
                  } in
                  let tally' = tally_with r tally sig v in
                  ground (
                    arith,
                    single-eq-batch (idx + 1) seen tally batch sigs,
                    single-eq-batch (idx + 1) seen' tally' (batch ++ (e ∷ [])) sigs,
                    all_valid-append c batch e,
                    stop_settles tally',
                    sound.adds v.pub_key message sig.signature,
                  )
            ]
      ]

  finish_batch-settles :
      (o : Outcome CommitError (ℕ × List Entry)) → accepts (o >>= finish_batch c b r) ≡ settles o
  unfolding finish_batch
  finish_batch-settles (err e) = refl
  finish_batch-settles panics = refl
  finish_batch-settles (ok (tally, batch)) =
      ground (arith, sound.verifies batch, first_invalid-rejects (b.verify_all batch).1 batch)

  pub verify_commit_batch-accepts :
      proposer_supports b r.vals ≡ ok true
      → batch_verify_threshold ≤ length r.commit.signatures
      → accepts (verify_commit_batch c b r) ≡ accepts (verify_commit_single c r)
  unfolding verify_commit_batch verify_commit_single
  verify_commit_batch-accepts p h = ground (
    arith,
    single-eq-batch 0 [] 0 [] r.commit.signatures,
    finish_batch-settles (batch_from c b r 0 [] 0 [] r.commit.signatures),
  )

  pub verify_commit_run-accepts :
      (batch : Bool)
      → should_batch_verify b r.vals r.commit ≡ ok batch
      → accepts (verify_commit_run c b r) ≡ accepts (verify_commit_single c r)
  unfolding verify_commit_run should_batch_verify
  verify_commit_run-accepts batch h = ground (arith, verify_commit_batch-accepts)

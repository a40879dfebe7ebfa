-- ===== src/Types/Validation/Soundness.antt =====
-- What an accepted commit shows: enough power of distinct validators signed it.
use relaychainmodel.Prelude.{
  Bool, Bool-cases, List, [], arith, false, get_elem?, inl, inr, ltb, none, some, subst, suc, sym,
  true, ℕ, ◌+◌, ◌<◌, ◌==◌, ◌∷◌, ◌≡◌, ◌⊎◌,
}
use relaychainmodel.Prelude.Int.{pos, ◌<ℤ◌}
use relaychainmodel.Prelude.Bytes.{Bytes, bytes_eq}
use relaychainmodel.Prelude.Outcome.{Outcome-cases, failed, ok, panicked, returned}
use relaychainmodel.Prelude.Int64.{add_int64, to_int64, to_int64-eq, two63}
use relaychainmodel.Types.Vote.{Crypto}
use relaychainmodel.Types.ValidatorSet.{Validator, ValidatorSet, power, get_by_address-some}
use relaychainmodel.Types.ValidatorSet.Power.{
  power_of, with_index, power_of-le, power_of-with_index, power_of-empty,
}
use relaychainmodel.Types.Commit.{CommitSig}
use relaychainmodel.Types.Validation.{
  Seen, Run, lookup_seen, tally_with, may_stop, find_validator, sign_bytes, single_from,
  verify_commit_single,
}

-- The validator at index `i` has a counted signature on the commit, which verifies under its key.
pub record Signed (c : Crypto) (r : Run) (i : ℕ) : Type 0 where
  pub position : ℕ
  pub sig : CommitSig
  pub validator : Validator
  pub message : Bytes
  pub in_commit : get_elem? r.commit.signatures position ≡ some sig
  pub in_set : get_elem? r.vals.validators i ≡ some validator
  pub by_position : r.by_index ≡ true → position ≡ i
  pub by_address : r.by_index ≡ false → bytes_eq validator.address sig.validator_address ≡ true
  pub counted : r.count_sig sig ≡ true
  pub considered : r.ignore_sig sig ≡ false
  pub signs : sign_bytes c r.chain_id r.commit position ≡ ok message
  pub verifies : c.verify_signature validator.pub_key message sig.signature ≡ true

-- Distinct validators that signed hold more than the power that is needed.
abbrev pub Enough : Crypto → Run → Type 0
Enough c r =
    (q : ℕ → Bool) × ((i : ℕ) → q i ≡ true → Signed c r i)
    × (r.needed <ℤ pos (power_of q r.vals.validators))

-- Whether the loop has come past the validator `i`.
abbrev used : Bool → Seen → ℕ → ℕ → Bool
used true seen idx i = ltb i idx
used false seen idx i = elim (lookup_seen i seen) [ none ↦ false | some _ ↦ true ]

used_next :
    (by : Bool) (seen : Seen) (idx j : ℕ)
    → used by seen idx j ≡ true
    → used by seen (idx + 1) j ≡ true
used_next true seen idx j h = ground arith
used_next false seen idx j h = h

-- What a found validator is: one of the set, not met before, and met from now on.
record Found (by : Bool) (vals : ValidatorSet) (seen seen' : Seen) (idx i : ℕ) (v : Validator)
    (sig : CommitSig) : Type 0 where
  in_set : get_elem? vals.validators i ≡ some v
  fresh : used by seen idx i ≡ false
  by_position : by ≡ true → idx ≡ i
  by_address : by ≡ false → bytes_eq v.address sig.validator_address ≡ true
  met : used by seen' (idx + 1) i ≡ true
  kept : (j : ℕ) → used by seen idx j ≡ true → used by seen' (idx + 1) j ≡ true

find_validator-Found :
    (by : Bool) (vals : ValidatorSet) (seen : Seen) (idx : ℕ) (sig : CommitSig) (i : ℕ)
    (v : Validator) (seen' : Seen)
    → find_validator by vals seen idx sig ≡ ok (some (i, v, seen'))
    → Found by vals seen seen' idx i v sig
unfolding find_validator
find_validator-Found true vals seen idx sig i v seen' h = record {
  in_set = ground arith;
  fresh = ground arith;
  by_position = λ e. ground arith;
  by_address = λ e. cc;
  met = ground arith;
  kept = λ j u. ground arith;
}
find_validator-Found false vals seen idx sig i v seen' h = record {
  in_set = ground (arith, get_by_address-some vals sig.validator_address i v);
  fresh = ground arith;
  by_position = λ e. cc;
  by_address = λ e. ground (arith, get_by_address-some vals sig.validator_address i v);
  met = ground arith;
  kept = λ j u. ground arith;
}

module _ (c : Crypto) (r : Run) (capped : power r.vals.validators < two63) where
  -- The loop's invariant: the tally is the power of validators met before that signed.
  record Tallied (seen : Seen) (idx tally : ℕ) (p : ℕ → Bool) : Type 0 where
    exact : tally ≡ power_of p r.vals.validators
    before : (i : ℕ) → p i ≡ true → used r.by_index seen idx i ≡ true
    signed : (i : ℕ) → p i ≡ true → Signed c r i

  skip_Tallied :
      {seen : Seen} {idx tally : ℕ} {p : ℕ → Bool}
      → Tallied seen idx tally p
      → Tallied seen (idx + 1) tally p
  skip_Tallied {seen} {idx} t = record {
    exact = t.exact;
    before = λ i h. used_next r.by_index seen idx i (t.before i h);
    signed = t.signed;
  }

  fresh_false :
      {seen : Seen} {idx tally : ℕ} {p : ℕ → Bool} (i : ℕ)
      → Tallied seen idx tally p
      → used r.by_index seen idx i ≡ false
      → p i ≡ false
  fresh_false {p} i t h = elim (Bool-cases (p i)) [
    | inl yes_p ↦ absurd (ground (arith, t.before i yes_p))
    | inr no_p ↦ no_p
  ]

  -- A valid signature that counts: its validator joins those that signed.
  count_Tallied :
      {seen seen' : Seen} {idx tally i : ℕ} {p : ℕ → Bool} {v : Validator} {sig : CommitSig}
      → Tallied seen idx tally p
      → Found r.by_index r.vals seen seen' idx i v sig
      → Signed c r i
      → Tallied seen' (idx + 1) (add_int64 tally v.voting_power) (with_index i p)
  count_Tallied {seen} {seen'} {idx} {tally} {i} {p} {v} t f s =
      let absent_i : p i ≡ false = fresh_false i t f.fresh in
      let grown = power_of-with_index p i r.vals.validators v f.in_set absent_i in
      record {
        exact = omega (arith, t.exact, grown, power_of-le (with_index i p) r.vals.validators);
        before = λ j h. elim (Bool-cases (j == i)) [
          | inl same ↦ ground (arith, f.met)
          | inr other ↦ f.kept j (t.before j (ground arith))
        ];
        signed = λ j h. elim (Bool-cases (j == i)) [
          | inl same ↦ let e : i ≡ j = ground arith in subst (Signed c r) e s
          | inr other ↦ t.signed j (ground arith)
        ];
      }

  -- One that does not count, such as a vote for nil, is passed over.
  pass_Tallied :
      {seen seen' : Seen} {idx tally i : ℕ} {p : ℕ → Bool} {v : Validator} {sig : CommitSig}
      → Tallied seen idx tally p
      → Found r.by_index r.vals seen seen' idx i v sig
      → Tallied seen' (idx + 1) tally p
  pass_Tallied t f = record {
    exact = t.exact;
    before = λ j h. f.kept j (t.before j h);
    signed = t.signed;
  }

  -- A tally that passes the last check is enough.
  enough :
      {seen : Seen} {idx tally : ℕ} (p : ℕ → Bool)
      → Tallied seen idx tally p
      → r.needed <ℤ to_int64 tally
      → Enough c r
  enough {tally} p t h =
      let e : to_int64 tally ≡ pos (power_of p r.vals.validators) =
        rw t.exact (to_int64-eq _ (omega (arith, power_of-le p r.vals.validators))) in
      (p, t.signed, rw e at h)

  -- The signatures still to come are those of the commit from position `idx`.
  abbrev Suffix : ℕ → List CommitSig → Type 0
  Suffix idx sigs = (j : ℕ) → get_elem? r.commit.signatures (idx + j) ≡ get_elem? sigs j

  Suffix-next :
      (idx : ℕ) (sig : CommitSig) (sigs : List CommitSig)
      → Suffix idx (sig ∷ sigs)
      → Suffix (idx + 1) sigs
  Suffix-next idx sig sigs h j = let e : idx + 1 + j ≡ idx + suc j = omega arith in rw e (h (suc j))

  Suffix-head :
      (idx : ℕ) (sig : CommitSig) (sigs : List CommitSig)
      → Suffix idx (sig ∷ sigs)
      → get_elem? r.commit.signatures idx ≡ some sig
  Suffix-head idx sig sigs h = let e : idx + 0 ≡ idx = omega arith in rw e at (h 0)

  -- The tally and the set of signers after a validator was found and its signature verified.
  step_Tallied :
      {seen seen' : Seen} {idx tally i : ℕ} {p : ℕ → Bool} {v : Validator} {sig : CommitSig}
      → Tallied seen idx tally p
      → Found r.by_index r.vals seen seen' idx i v sig
      → (r.count_sig sig ≡ true → Signed c r i)
      → (q : ℕ → Bool) × Tallied seen' (idx + 1) (tally_with r tally sig v) q
  step_Tallied {i = i} {p = p} {sig = sig} t f s = elim (Bool-cases (r.count_sig sig)) [
    | inl counts ↦ (with_index i p, rw counts (count_Tallied t f (s counts)))
    | inr passes ↦ (p, rw passes (pass_Tallied t f))
  ]

  -- What a round of the loop that ends in acceptance has done with the validator that it found.
  single_from-inv :
      (idx : ℕ) (seen : Seen) (tally : ℕ) (sig : CommitSig) (sigs : List CommitSig) (i : ℕ)
      (v : Validator) (seen' : Seen)
      → r.ignore_sig sig ≡ false
      → find_validator r.by_index r.vals seen idx sig ≡ ok (some (i, v, seen'))
      → single_from c r idx seen tally (sig ∷ sigs) ≡ ok tt
      → (message : Bytes) × (sign_bytes c r.chain_id r.commit idx ≡ ok message)
        × (c.verify_signature v.pub_key message sig.signature ≡ true)
        × ((may_stop r (tally_with r tally sig v) ≡ true)
            ⊎ (single_from c r (idx + 1) seen' (tally_with r tally sig v) sigs ≡ ok tt))
  unfolding single_from
  single_from-inv idx seen tally sig sigs i v seen' considered f h =
      elim (Outcome-cases (sign_bytes c r.chain_id r.commit idx)) [
        | failed e m ↦ absurd (ground arith)
        | panicked m ↦ absurd (ground arith)
        | returned message m ↦ (message, m, ground arith, ground arith)
      ]

  single_from-Enough :
      (idx : ℕ) (seen : Seen) (tally : ℕ) (p : ℕ → Bool) (sigs : List CommitSig)
      → Suffix idx sigs
      → Tallied seen idx tally p
      → single_from c r idx seen tally sigs ≡ ok tt
      → Enough c r
  unfolding single_from
  single_from-Enough idx seen tally p [] suffix t h = enough p t (ground arith)
  single_from-Enough idx seen tally p (sig ∷ sigs) suffix t h =
      elim (Bool-cases (r.ignore_sig sig)) [
        | inl ignored ↦
            single_from-Enough (idx + 1) seen tally p sigs (Suffix-next idx sig sigs suffix)
              (skip_Tallied t) (ground arith)
        | inr considered ↦ elim (Outcome-cases (find_validator r.by_index r.vals seen idx sig)) [
          | failed e f ↦ absurd (ground arith)
          | panicked f ↦ absurd (ground arith)
          | returned none f ↦
              single_from-Enough (idx + 1) seen tally p sigs (Suffix-next idx sig sigs suffix)
                (skip_Tallied t) (ground arith)
          | returned (some (i, v, seen')) f ↦
              let found = find_validator-Found r.by_index r.vals seen idx sig i v seen' f in
              let (message, signs, verifies, then_what) =
                single_from-inv idx seen tally sig sigs i v seen' considered f h in
              let (q, t') = step_Tallied t found (λ counts. record {
                position = idx;
                sig = sig;
                validator = v;
                message = message;
                in_commit = Suffix-head idx sig sigs suffix;
                in_set = found.in_set;
                by_position = found.by_position;
                by_address = found.by_address;
                counted = counts;
                considered = considered;
                signs = signs;
                verifies = verifies;
              }) in
              elim then_what [
                | inl stops ↦ enough q t' (ground arith)
                | inr goes_on ↦
                    single_from-Enough (idx + 1) seen' (tally_with r tally sig v) q sigs
                      (Suffix-next idx sig sigs suffix) t' goes_on
              ]
        ]
      ]

  -- Verification that succeeds shows that enough validators signed.
  pub verify_commit_single-Enough : verify_commit_single c r ≡ ok tt → Enough c r
  unfolding verify_commit_single
  verify_commit_single-Enough h =
      single_from-Enough 0 [] 0 (λ _. false) r.commit.signatures
        (λ j. let e : 0 + j ≡ j = omega arith in rw e)
        (record {
          exact = sym (power_of-empty r.vals.validators);
          before = λ i e. cc;
          signed = λ i e. absurd (ground arith);
        })
        h

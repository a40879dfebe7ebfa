-- ===== src/Types/ValidatorSet/Updates/Guarantees.antt =====
-- What a change of a validator set leads to: a set that is in order, in which each address has the
-- power that was asked for.
use relaychainmodel.Prelude.{
  Bool, Bool-cases, List, Option, Option-cases, [], arith, false, inl, inr, length, map, none, not,
  refl, some, some-injective, sym, ℕ, ◌<◌, ◌==◌, ◌∷◌, ◌≡◌, ◌≤◌, ◌∙◌, ◌⊎◌, ◌&&◌,
}
use relaychainmodel.Prelude.Int.{eq_ℤ, leb_ℤ, ltb_ℤ, pos, ℤ}
use relaychainmodel.Prelude.Int64.{mul_int64}
use relaychainmodel.Prelude.Bytes.{Bytes}
use relaychainmodel.Prelude.Outcome.{Gives, Gives-bind, Gives-map, Gives-of, gave, fail_if, ok}
use relaychainmodel.Types.ValidatorSet.{
  IsValid, Validator, ValidatorSet, add_powers, add_powers_exact, max_total_voting_power, power,
  size, total_voting_power,
}
use relaychainmodel.Types.ValidatorSet.Priorities.{
  compute_avg_proposer_priority, divide_priorities, max_min_priority_diff, rescale_priorities,
  rescale_ratio, shift_by_avg_proposer_priority,
}
use relaychainmodel.Types.ValidatorSet.Updates.{
  Change, apply_change_set, apply_removals, apply_updates, by_voting_power, compute_new_priorities,
  new_priority, num_new_validators, or_panics, process_changes, sort_by, update_total_voting_power,
  update_with_change_set, verify_removals, verify_updates, deletes_not_allowed, empty_set,
}
use relaychainmodel.Types.ValidatorSet.Updates.Members.{
  Above, IsSorted, IsUnique, count, held, held-none, sort_by-same,
}
use relaychainmodel.Types.ValidatorSet.Updates.Apply.{apply_removals-count, apply_updates-Overrides}
use relaychainmodel.Types.ValidatorSet.Updates.Scan.{asked, mentions, process_changes-Scanned}

ℕ-cases : (n : ℕ) → (n ≡ 0) ⊎ (0 < n)
ℕ-cases n = omega arith

-- Two lists hold the same powers, address by address.
record Same (vs ws : List Validator) : Type 0 where
  counts : (a : Bytes) → count a ws ≡ count a vs
  powers : (a : Bytes) → held a ws ≡ held a vs
  total : power ws ≡ power vs

Same-trans : {us vs ws : List Validator} → Same us vs → Same vs ws → Same us ws
Same-trans s t = record {
  counts = λ a. t.counts a ∙ s.counts a;
  powers = λ a. t.powers a ∙ s.powers a;
  total = t.total ∙ s.total;
}

Same-refl : (vs : List Validator) → Same vs vs
Same-refl vs = record { counts = λ a. refl; powers = λ a. refl; total = refl }

-- Priorities are not what these lists are compared by.
map-Same :
    (f : Validator → ℤ) (vs : List Validator)
    → Same vs (map {A = Validator} (λ v. record v { proposer_priority = f v }) vs)
unfolding count held power
map-Same f [] = Same-refl []
map-Same f (v ∷ vs) =
    let s = map-Same f vs in
    record {
      counts = λ a. omega (arith, s.counts a);
      powers = λ a. omega (arith, s.powers a);
      total = omega (arith, s.total);
    }

map-IsSorted :
    (f : Validator → ℤ) (vs : List Validator)
    → IsSorted vs
    → IsSorted (map {A = Validator} (λ v. record v { proposer_priority = f v }) vs)
map-IsSorted f [] s = tt
map-IsSorted f (v ∷ vs) (above, s) = (up vs above, map-IsSorted f vs s)
  where
    up :
        (ws : List Validator)
        → Above v.address ws
        → Above v.address (map {A = Validator} (λ w. record w { proposer_priority = f w }) ws)
    up [] h = tt
    up (w ∷ ws) (h, hs) = (h, up ws hs)

sort-Same : (less : Validator → Validator → Bool) (vs : List Validator) → Same vs (sort_by less vs)
sort-Same less vs = record {
  counts = λ a. (sort_by-same less a vs).0;
  powers = λ a. (sort_by-same less a vs).1;
  total = (sort_by-same less [] vs).2;
}

-- A step that changes the priorities alone.
record Reprioritized (s s' : ValidatorSet) : Type 0 where
  same : Same s.validators s'.validators
  cached : s'.total_voting_power ≡ s.total_voting_power

with_priorities :
    (f : Validator → ℤ) (s s' : ValidatorSet)
    → some (record s {
      validators = map {A = Validator} (λ v. record v { proposer_priority = f v }) s.validators;
    })
      ≡ some s'
    → Reprioritized s s'
with_priorities f s s' e =
    rw (← some-injective _ s' e) (record { same = map-Same f s.validators; cached = refl })

unchanged : (s s' : ValidatorSet) → some s ≡ some s' → Reprioritized s s'
unchanged s s' e =
    rw (← some-injective s s' e) (record { same = Same-refl s.validators; cached = refl })

divided-Reprioritized :
    (ratio : ℤ) (s s' : ValidatorSet) → divide_priorities ratio s ≡ some s' → Reprioritized s s'
unfolding divide_priorities
divided-Reprioritized ratio s s' e = elim (Bool-cases (eq_ℤ ratio (pos 0))) [
  | inl f ↦ absurd (let e' = rw f at e in cc)
  | inr f ↦ with_priorities _ s s' (rw f at e)
]

rescale-Reprioritized :
    (d : ℤ) (s s' : ValidatorSet) → rescale_priorities d s ≡ some s' → Reprioritized s s'
unfolding rescale_priorities
rescale-Reprioritized d s s' e = elim (Bool-cases (size s == 0)) [
  | inl f ↦ absurd (ground arith)
  | inr f ↦ elim (Bool-cases (leb_ℤ d (pos 0))) [
    | inl g ↦ unchanged s s' (rw g at (rw f at e))
    | inr g ↦ elim (Bool-cases (ltb_ℤ d (max_min_priority_diff s.validators))) [
      | inl h ↦ divided-Reprioritized (rescale_ratio d s) s s' (rw h at (rw g at (rw f at e)))
      | inr h ↦ unchanged s s' (rw h at (rw g at (rw f at e)))
    ]
  ]
]

shift-Reprioritized :
    (s s' : ValidatorSet) → shift_by_avg_proposer_priority s ≡ some s' → Reprioritized s s'
unfolding shift_by_avg_proposer_priority
shift-Reprioritized s s' e = elim (Bool-cases (size s == 0)) [
  | inl f ↦ absurd (ground arith)
  | inr f ↦ elim (Option-cases (compute_avg_proposer_priority s.validators)) [
    | inl g ↦ absurd (ground arith)
    | inr (avg, g) ↦ with_priorities _ s s' (rw g at (rw f at e))
  ]
]

or_panics-eq : {A : Type 0} (o : Option A) {a : A} → or_panics o ≡ ok a → o ≡ some a
or_panics-eq none h = cc
or_panics-eq (some b) h = cc

-- The end of a change: the validators are those that the updates and removals leave, and the set is
-- in order.
record Changed (vs : List Validator) (s : ValidatorSet) : Type 0 where
  same : Same vs s.validators
  valid : IsValid s

total-Changed :
    (s s₁ : ValidatorSet)
    → update_total_voting_power s ≡ some s₁
    → (s₁.validators ≡ s.validators)
      × (s₁.total_voting_power ≡ power s.validators)
      × (power s.validators ≤ max_total_voting_power)
unfolding update_total_voting_power
total-Changed s s₁ e = elim (Option-cases (add_powers 0 s.validators)) [
  | inl f ↦ absurd (ground arith)
  | inr (t, f) ↦
      let (exact, small) = add_powers_exact 0 t s.validators (omega arith) f in ground arith
]

-- A change that is applied: the validators that the updates and removals leave, in order.
record Applied (us ds : List Validator) (total : ℤ) (s s' : ValidatorSet) : Type 0 where
  left : List Validator
  applied :
      apply_removals (apply_updates s.validators (compute_new_priorities us s total)) ds ≡ some left
  changed : Changed left s'

apply_change_set-Applied :
    (us ds : List Validator) (total : ℤ) (s : ValidatorSet)
    → Gives (Applied us ds total s) (apply_change_set us ds total s)
unfolding apply_change_set
apply_change_set-Applied us ds total s =
    let merged = apply_updates s.validators (compute_new_priorities us s total) in
    Gives-bind _ (or_panics (apply_removals merged ds)) _ λ vs e₀.
      Gives-bind _ (or_panics (update_total_voting_power (record s { validators = vs }))) _ λ s₁ e₁.
        Gives-bind _ (or_panics (total_voting_power s₁)) _ λ t e₂.
          let window = mul_int64 (pos 2) (pos t) in
          Gives-bind _ (or_panics (rescale_priorities window s₁)) _ λ s₂ e₃.
            Gives-bind _ (or_panics (shift_by_avg_proposer_priority s₂)) _ λ s₃ e₄.
              let (kept, cached, small) =
                total-Changed (record s { validators = vs }) s₁ (or_panics-eq _ e₁) in
              let p = rescale-Reprioritized window s₁ s₂ (or_panics-eq _ e₃) in
              let q = shift-Reprioritized s₂ s₃ (or_panics-eq _ e₄) in
              let r = sort-Same by_voting_power s₃.validators in
              let same : Same vs (sort_by by_voting_power s₃.validators) =
                rw (← kept) (Same-trans (Same-trans p.same q.same) r) in
              gave (record {
                left = vs;
                applied = or_panics-eq _ e₀;
                changed = record {
                  same = same;
                  valid = record {
                    cached = inr (q.cached ∙ p.cached ∙ cached ∙ sym same.total);
                    capped = rw same.total small;
                  };
                };
              })

-- What each address has after a change.
record Updated (changes : List Change) (s s' : ValidatorSet) : Type 0 where
  valid : IsValid s'
  unique : IsUnique s'.validators
  once : (a : Bytes) → mentions a changes ≤ 1
  untouched : (a : Bytes) → mentions a changes ≡ 0 → held a s'.validators ≡ held a s.validators
  touched : (a : Bytes) → 0 < mentions a changes → held a s'.validators ≡ asked a changes

-- The updates keep their addresses and powers when they get their priorities.
prioritized :
    (us : List Validator) (s : ValidatorSet) (total : ℤ)
    → Same us (compute_new_priorities us s total)
      × (IsSorted us → IsSorted (compute_new_priorities us s total))
unfolding compute_new_priorities
prioritized us s total =
    (map-Same (new_priority s total) us, map-IsSorted (new_priority s total) us)

module _ (changes : List Change) (s : ValidatorSet) (unique : IsUnique s.validators)
    (found : List Validator × List Validator) (scanned : process_changes changes ≡ ok found)
    (total : ℤ) (s' : ValidatorSet) (applied : Applied found.0 found.1 total s s') where
  -- What the updates and the removals leave of an address.
  left_at :
      (a : Bytes)
      → (count a s'.validators ≤ 1)
        × (mentions a changes ≡ 0 → held a s'.validators ≡ held a s.validators)
        × (0 < mentions a changes → held a s'.validators ≡ asked a changes)
  left_at a =
      let us = found.0 in
      let ds = found.1 in
      let left = applied.left in
      let (sorted, removals_sorted, facts) = process_changes-Scanned changes found scanned in
      let (all, powers, once) = facts a in
      let (same, keeps) = prioritized us s total in
      let new = compute_new_priorities us s total in
      let merged = apply_updates s.validators new in
      let (untouched, touched) = apply_updates-Overrides a s.validators new unique (keeps sorted) in
      let (removed, others) = apply_removals-count a merged ds left applied.applied in
      let one = unique a in
      let same_count = same.counts a in
      let same_power = same.powers a in
      let after_count = applied.changed.same.counts a in
      let after_power = applied.changed.same.powers a in
      elim (ℕ-cases (count a us)) [
        | inl none_new ↦
            let (c, h) = untouched (omega arith) in
            (
              omega arith,
              λ z. let o = others (omega arith) in omega arith,
              λ z. omega (arith, held-none a left (omega arith), held-none a us none_new),
            )
        | inr some_new ↦
            let (c, h) = touched (omega arith) in
            let o = others (omega arith) in
            (omega arith, λ z. absurd (omega arith), λ z. omega arith)
      ]

  Applied-Updated : Updated changes s s'
  Applied-Updated = record {
    valid = applied.changed.valid;
    unique = λ a. (left_at a).0;
    once = λ a. ((process_changes-Scanned changes found scanned).2 a).2;
    untouched = λ a. (left_at a).1;
    touched = λ a. (left_at a).2;
  }

update_with_change_set-Gives :
    (changes : List Change) (allow : Bool) (s : ValidatorSet)
    → IsUnique s.validators
    → (length changes == 0) ≡ false
    → Gives (Updated changes s) (update_with_change_set changes allow s)
unfolding update_with_change_set
update_with_change_set-Gives changes allow s unique some_changes = rw some_changes (
    Gives-bind _ (process_changes changes) _ λ found e.
      Gives-bind _ (fail_if (not allow && not (length found.1 == 0)) deletes_not_allowed) _ λ _ _.
        Gives-bind _
          (fail_if ((num_new_validators found.0 s == 0) && (size s == length found.1)) empty_set) _
          λ _ _. Gives-bind _ (verify_removals found.1 s) _ λ removed f.
            Gives-bind _ (verify_updates found.0 s removed) _ λ total g.
              Gives-map _ _ _ (apply_change_set-Applied found.0 found.1 total s)
                (Applied-Updated changes s unique found e total))

module _ (changes : List Change) (allow : Bool) (s s' : ValidatorSet)
    (some_changes : (length changes == 0) ≡ false) (unique : IsUnique s.validators)
    (changed : update_with_change_set changes allow s ≡ ok s') where
  -- If updateWithChangeSet returns no error on at least one change of a set whose addresses are
  -- distinct, then the cached total of the new set is the sum of its powers, the sum is within the
  -- cap, and its addresses are distinct.
  pub update_with_change_set-IsValid : IsValid s' × IsUnique s'.validators
  update_with_change_set-IsValid =
      let u =
        Gives-of _ _ s' (update_with_change_set-Gives changes allow s unique some_changes)
          changed in
      (u.valid, u.unique)

  -- If updateWithChangeSet returns no error on at least one change of a set whose addresses are
  -- distinct, then no address has two changes, each address with a change has the power that it
  -- asks for, 0 for a removal, and each other address has the power that it had.
  pub update_with_change_set-powers :
      (a : Bytes)
      → (mentions a changes ≤ 1)
        × (mentions a changes ≡ 0 → held a s'.validators ≡ held a s.validators)
        × (0 < mentions a changes → held a s'.validators ≡ asked a changes)
  update_with_change_set-powers a =
      let u =
        Gives-of _ _ s' (update_with_change_set-Gives changes allow s unique some_changes)
          changed in
      (u.once a, u.untouched a, u.touched a)

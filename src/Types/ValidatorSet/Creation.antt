-- ===== src/Types/ValidatorSet/Creation.antt =====
-- NewValidatorSet of types/validator_set.go: the set that it makes is in order and can rotate.
pub mod Int64s
mod Tests
use relaychainmodel.Prelude.{
  if◌then◌else◌, Bool, List, Option, [], ap, arith, false, length, none, refl, some, sym, ◌<◌, ◌==◌,
  ◌∙◌, ◌∷◌, ◌≡◌, not, ◌&&◌,
}
use relaychainmodel.Prelude.Bytes.{Bytes}
use relaychainmodel.Prelude.Int.{pos}
use relaychainmodel.Prelude.Outcome.{Outcome, bind-ok, err, fail_if, ok, panics}
use relaychainmodel.Types.ValidatorSet.{Validator, ValidatorSet, size, total_voting_power}
use relaychainmodel.Types.ValidatorSet.Priorities.{increment_proposer_priority}
use relaychainmodel.Types.ValidatorSet.Rotation.{increment_proposer_priority-Movable}
use relaychainmodel.Types.ValidatorSet.Rotation.Ranks.{AllInt64, unranked}
use relaychainmodel.Types.ValidatorSet.Rotation.Steps.{IsProposed, Movable}
use relaychainmodel.Types.ValidatorSet.Updates.{
  Change, ChangeError, new_validator_set, num_new_validators, process_changes,
  update_with_change_set, verify_removals, verify_updates, deletes_not_allowed, empty_set,
}
use relaychainmodel.Types.ValidatorSet.Updates.Members.{IsUnique, count, held, held-none}
use relaychainmodel.Types.ValidatorSet.Updates.Scan.{asked, mentions}
use relaychainmodel.Types.ValidatorSet.Updates.Guarantees.{
  update_with_change_set-IsValid, update_with_change_set-powers,
}
use relaychainmodel.Types.ValidatorSet.Creation.Int64s.{Ranked, apply_change_set-Ranked}

module _ (changes : List Change) (allow : Bool) (s s' : ValidatorSet)
    (some_changes : (length changes == 0) ≡ false) (unique : IsUnique s.validators)
    (ranked : AllInt64 s.validators)
    (changed : update_with_change_set changes allow s ≡ ok s') where
  update_with_change_set-Ranked : Ranked s'
  unfolding update_with_change_set
  update_with_change_set-Ranked =
      let (found, scanned, rest) =
        bind-ok (process_changes changes) _ s' (rw some_changes at changed) in
      let (u₁, allowed, rest₁) =
        bind-ok (fail_if (not allow && not (length found.1 == 0)) deletes_not_allowed) _ s' rest in
      let (u₂, left, rest₂) =
        bind-ok
          (fail_if ((num_new_validators found.0 s == 0) && (size s == length found.1)) empty_set) _
          s' rest₁ in
      let (removed, f, rest₃) = bind-ok (verify_removals found.1 s) _ s' rest₂ in
      let (total, g, rest₄) = bind-ok (verify_updates found.0 s removed) _ s' rest₃ in
      apply_change_set-Ranked found.0 found.1 total s s' ranked rest₄

  update_with_change_set-Movable : Movable s'
  update_with_change_set-Movable =
      let (valid, unique') =
        update_with_change_set-IsValid changes allow s s' some_changes unique changed in
      let (ranked', size') = update_with_change_set-Ranked in
      record { valid = valid; unique = unique'; ranked = ranked'; some_validators = size' }

unranked-held : (a : Bytes) (vs : List Validator) → held a (unranked vs) ≡ held a vs
unfolding held
unranked-held a [] = refl
unranked-held a (v ∷ vs) = let h = unranked-held a vs in omega arith

-- The set that NewValidatorSet begins with.
abbrev pub no_validators : ValidatorSet
no_validators = record { validators = []; proposer = none; total_voting_power = 0 }

new_validator_set-eq :
    (changes : List Change) (s : ValidatorSet)
    → (length changes == 0) ≡ false
    → update_with_change_set changes false no_validators ≡ ok s
    → new_validator_set changes ≡ increment_proposer_priority (pos 1) s
unfolding new_validator_set
new_validator_set-eq changes s some_changes h =
    ap {B = Option ValidatorSet}
      (λ (o : Outcome ChangeError ValidatorSet). elim o [
        | panics ↦ none
        | err e ↦ none
        | ok s ↦ if length changes == 0 then some s else increment_proposer_priority (pos 1) s
      ])
      h
    ∙ rw some_changes refl

no_validators-IsUnique : IsUnique no_validators.validators
unfolding count
no_validators-IsUnique a = omega arith

no_count : (a : Bytes) → count a no_validators.validators ≡ 0
unfolding count
no_count a = refl

-- Where updateWithChangeSet returns no error on at least one validator and no set, NewValidatorSet
-- does not panic. The set that it makes is in order, with a validator, distinct addresses and
-- int64s as priorities, its proposer is one of its validators, each address that is asked for has
-- the power that it asks for, and each other address has none.
pub new_validator_set-Movable :
    (changes : List Change) (s₀ : ValidatorSet)
    → (length changes == 0) ≡ false
    → update_with_change_set changes false no_validators ≡ ok s₀
    → (s : ValidatorSet) × (new_validator_set changes ≡ some s)
      × Movable s
      × IsProposed s
      × ((a : Bytes)
          → (0 < mentions a changes → held a s.validators ≡ asked a changes)
            × (mentions a changes ≡ 0 → held a s.validators ≡ 0))
new_validator_set-Movable changes s₀ some_changes h =
    let m =
      update_with_change_set-Movable changes false no_validators s₀ some_changes
        no_validators-IsUnique tt h in
    let (s, ran, same, m', proposed) = increment_proposer_priority-Movable s₀ 0 m in
    (
      s,
      new_validator_set-eq changes s₀ some_changes h ∙ ran,
      m',
      proposed,
      λ a.
          let kept : held a s.validators ≡ held a s₀.validators =
            sym (unranked-held a s.validators)
            ∙ (ap (held a) same ∙ unranked-held a s₀.validators) in
          let (once, others, asks) =
            update_with_change_set-powers changes false no_validators s₀ some_changes
              no_validators-IsUnique h a in
          (λ e. kept ∙ asks e, λ e. kept ∙ (others e ∙ held-none a [] (no_count a))),
    )

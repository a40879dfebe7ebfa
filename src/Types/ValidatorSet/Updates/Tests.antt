-- ===== src/Types/ValidatorSet/Updates/Tests.antt =====
-- A change of a validator set that raises one validator's power, removes one and adds one, and the
-- theorems at this change.
use relaychainmodel.Prelude.{List, [], arith, false, map, refl, true, ℕ, ◌<◌, ◌∷◌, ◌≡◌, ◌≤◌}
use relaychainmodel.Prelude.Int.{pos, ℤ}
use relaychainmodel.Prelude.Int64.{mul_int64, quot_int64, wrap_int64}
use relaychainmodel.Prelude.Bytes.{Bytes, bytes_eq, bytes_eq_iff}
use relaychainmodel.Prelude.Outcome.{Outcome, err, ok, panics}
use relaychainmodel.SafeMath.{safe_sub_clip}
use relaychainmodel.Types.Fixtures.{three_validators}
use relaychainmodel.Types.ValidatorSet.{
  IsValid, ValidatorSet, bytes_lt, get_by_address, total_voting_power,
}
use relaychainmodel.Types.ValidatorSet.Priorities.{
  rescale_priorities, shift_by_avg_proposer_priority,
}
use relaychainmodel.Types.ValidatorSet.Updates.{
  Change, ChangeError, deletes_not_allowed, duplicate_entry, update_with_change_set,
}
use relaychainmodel.Types.ValidatorSet.Updates.Members.{IsUnique, count, held}
use relaychainmodel.Types.ValidatorSet.Updates.Scan.{asked, mentions}
use relaychainmodel.Types.ValidatorSet.Updates.Guarantees.{
  update_with_change_set-IsValid, update_with_change_set-powers,
}

all_calls : Unit {0}
unfolding update_with_change_set bytes_eq bytes_lt get_by_address total_voting_power mul_int64
    quot_int64 wrap_int64 rescale_priorities shift_by_avg_proposer_priority safe_sub_clip
all_calls = tt

abbrev change : ℕ → ℤ → Change
change k p = record { address = k ∷ []; pub_key = k ∷ []; voting_power = p }

abbrev changes : List Change
changes = change 4 (pos 7) ∷ (change 3 (pos 0) ∷ (change 2 (pos 25) ∷ []))

powers : Outcome ChangeError ValidatorSet → List (Bytes × ℕ)
powers (ok s) = map (λ v. (v.address, v.voting_power)) s.validators
powers (err e) = []
powers panics = []

force : Outcome ChangeError ValidatorSet → ValidatorSet
force (ok s) = s
force (err e) = three_validators
force panics = three_validators

-- The strongest validator comes first.
changed_powers :
    powers (update_with_change_set changes true three_validators)
    ≡ (2 ∷ [], 25) ∷ ((1 ∷ [], 10) ∷ ((4 ∷ [], 7) ∷ []))
unfolding powers all_calls
changed_powers = refl

duplicates_refused :
    update_with_change_set (change 4 (pos 7) ∷ (change 4 (pos 8) ∷ [])) true three_validators
    ≡ err duplicate_entry
unfolding all_calls
duplicates_refused = refl

deletes_refused : update_with_change_set changes false three_validators ≡ err deletes_not_allowed
unfolding all_calls
deletes_refused = refl

abbrev after : ValidatorSet
after = force (update_with_change_set changes true three_validators)

applied : update_with_change_set changes true three_validators ≡ ok after
unfolding force all_calls
applied = refl

three-IsUnique : IsUnique three_validators.validators
unfolding count
three-IsUnique a =
    ground (arith, bytes_eq_iff (1 ∷ []) a, bytes_eq_iff (2 ∷ []) a, bytes_eq_iff (3 ∷ []) a)

update_with_change_set-IsValid_example : IsValid after × IsUnique after.validators
update_with_change_set-IsValid_example =
    update_with_change_set-IsValid changes true three_validators after refl three-IsUnique applied

update_with_change_set-powers_example :
    (mentions (2 ∷ []) changes ≤ 1)
    × (mentions (2 ∷ []) changes ≡ 0
        → held (2 ∷ []) after.validators ≡ held (2 ∷ []) three_validators.validators)
    × (0 < mentions (2 ∷ []) changes → held (2 ∷ []) after.validators ≡ asked (2 ∷ []) changes)
update_with_change_set-powers_example =
    update_with_change_set-powers changes true three_validators after refl three-IsUnique applied
      (2 ∷ [])

-- ===== src/Types/ValidatorSet/Creation/Tests.antt =====
-- A set of two new validators, and the theorem at it.
use relaychainmodel.Prelude.{List, [], false, refl, some, ℕ, ◌<◌, ◌∷◌, ◌≡◌}
use relaychainmodel.Prelude.Bytes.{Bytes, bytes_eq}
use relaychainmodel.Prelude.Int.{negsuc, pos, ℤ}
use relaychainmodel.Prelude.Int64.{mul_int64, quot_int64, wrap_int64}
use relaychainmodel.Prelude.Outcome.{Outcome, err, ok, panics}
use relaychainmodel.SafeMath.{safe_sub_clip}
use relaychainmodel.Types.Fixtures.{validator}
use relaychainmodel.Types.ValidatorSet.{ValidatorSet, bytes_lt, get_by_address, total_voting_power}
use relaychainmodel.Types.ValidatorSet.Priorities.{
  rescale_priorities, shift_by_avg_proposer_priority, with_priority,
}
use relaychainmodel.Types.ValidatorSet.Creation.{new_validator_set-Movable, no_validators}
use relaychainmodel.Types.ValidatorSet.Rotation.Steps.{IsProposed, Movable}
use relaychainmodel.Types.ValidatorSet.Updates.{
  Change, ChangeError, new_validator_set, update_with_change_set,
}
use relaychainmodel.Types.ValidatorSet.Updates.Members.{held}
use relaychainmodel.Types.ValidatorSet.Updates.Scan.{asked, mentions}

all_calls : Unit {0}
unfolding update_with_change_set bytes_eq bytes_lt get_by_address total_voting_power mul_int64
    quot_int64 wrap_int64 rescale_priorities shift_by_avg_proposer_priority safe_sub_clip
    new_validator_set
all_calls = tt

abbrev change : ℕ → ℤ → Change
change k p = record { address = k ∷ []; pub_key = k ∷ []; voting_power = p }

abbrev changes : List Change
changes = change 4 (pos 7) ∷ (change 2 (pos 25) ∷ [])

force : Outcome ChangeError ValidatorSet → ValidatorSet
force (ok s) = s
force (err e) = no_validators
force panics = no_validators

abbrev made : ValidatorSet
made = force (update_with_change_set changes false no_validators)

applied : update_with_change_set changes false no_validators ≡ ok made
unfolding force all_calls
applied = refl

-- The stronger validator proposes first.
new_set :
    new_validator_set changes
    ≡ some (record {
      validators =
          with_priority (validator 2 25) (negsuc 6) ∷ with_priority (validator 4 7) (pos 7) ∷ [];
      proposer = some (with_priority (validator 2 25) (negsuc 6));
      total_voting_power = 32;
    })
unfolding all_calls
new_set = refl

new_validator_set-Movable_example :
    (s : ValidatorSet) × (new_validator_set changes ≡ some s)
    × Movable s
    × IsProposed s
    × ((a : Bytes)
        → (0 < mentions a changes → held a s.validators ≡ asked a changes)
          × (mentions a changes ≡ 0 → held a s.validators ≡ 0))
new_validator_set-Movable_example = new_validator_set-Movable changes made refl applied

-- ===== src/Types/ValidatorSet/Updates.antt =====
-- Changes of a validator set: processChanges to UpdateWithChangeSet of types/validator_set.go, and
-- NewValidatorSet. The sorts of the standard library are insertion sorts; the orders that they are
-- given tell all members apart, or only members that the code then treats alike.
pub mod Members
pub mod Apply
pub mod Scan
pub mod Guarantees
mod Tests
use relaychainmodel.Prelude.{
  Bool, List, Option, [], false, if◌then◌else◌, length, ltb, map, none, not, some, suc, ℕ, ◌&&◌,
  ◌+◌, ◌==◌, ◌||◌, ◌∷◌, ◌++◌,
}
use relaychainmodel.Prelude.Int.{ltb_ℤ, pos, negsuc, ℤ, ◌+ℤ◌, ◌-ℤ◌}
use relaychainmodel.Prelude.Int64.{mul_int64, neg_int64, wrap_int64}
use relaychainmodel.Prelude.Bytes.{Bytes, bytes_eq}
use relaychainmodel.Prelude.Outcome.{Outcome, err, fail_if, ok, panic_if, panics, ◌>>=◌, ◌>>◌}
use relaychainmodel.Types.ValidatorSet.{
  Validator, ValidatorSet, add_powers, bytes_lt, get_by_address, max_total_voting_power, size,
  total_voting_power,
}
use relaychainmodel.Types.ValidatorSet.Priorities.{
  div_floor, increment_proposer_priority, rescale_priorities, shift_by_avg_proposer_priority,
}

-- A validator as a change gives it, whose power may be negative.
pub record Change : Type 0 where
  pub address : Bytes
  pub pub_key : Bytes
  pub voting_power : ℤ

pub data ChangeError : Type 0 where
  duplicate_entry negative_power power_too_high deletes_not_allowed empty_set not_found overflow :
      ChangeError

-- `sort.Sort` and `sort.Slice` by an order.
module _ {A : Type 0} (less : A → A → Bool) where
  unfoldable pub insert_by : A → List A → List A
  insert_by a [] = a ∷ []
  insert_by a (b ∷ bs) = if less a b then a ∷ (b ∷ bs) else b ∷ insert_by a bs

  unfoldable pub sort_by : List A → List A
  unfolding insert_by
  sort_by [] = []
  sort_by (a ∷ as') = insert_by a (sort_by as')

-- `ValidatorsByAddress`
abbrev pub by_address : Validator → Validator → Bool
by_address v w = bytes_lt v.address w.address

abbrev pub change_by_address : Change → Change → Bool
change_by_address v w = bytes_lt v.address w.address

-- `ValidatorsByVotingPower`
abbrev pub by_voting_power : Validator → Validator → Bool
by_voting_power v w =
    if v.voting_power == w.voting_power
    then bytes_lt v.address w.address
    else ltb w.voting_power v.voting_power

-- A change to a power that is not negative, as a validator with no priority yet.
abbrev pub validator_of : Change → ℕ → Validator
validator_of c p = record {
  address = c.address;
  pub_key = c.pub_key;
  voting_power = p;
  proposer_priority = pos 0;
}

-- A change that was accepted, before those that `rest` gives: it is a removal, or an update.
abbrev pub put_change :
    Change → ℕ → List Validator × List Validator → List Validator × List Validator
put_change c p (updates, removals) =
    if p == 0
    then (updates, validator_of c p ∷ removals)
    else (validator_of c p ∷ updates, removals)

-- The scan of `processChanges`, after an address.
unfoldable pub scan_changes :
    Bytes → List Change → Outcome ChangeError (List Validator × List Validator)
scan_changes prev [] = ok ([], [])
scan_changes prev (c ∷ cs) =
    let rest = scan_changes c.address cs in
    if bytes_eq c.address prev then err duplicate_entry else elim c.voting_power [
      | negsuc p ↦ err negative_power
      | pos p ↦
          if ltb max_total_voting_power p
          then err power_too_high
          else rest >>= λ found. ok (put_change c p found)
    ]

-- `processChanges`: the updates and the removals.
unfoldable pub process_changes : List Change → Outcome ChangeError (List Validator × List Validator)
unfolding scan_changes sort_by
process_changes changes = scan_changes [] (sort_by change_by_address changes)

-- `numNewValidators`
unfoldable pub num_new_validators : List Validator → ValidatorSet → ℕ
num_new_validators [] s = 0
num_new_validators (u ∷ us) s = elim (get_by_address s u.address) [
  | none ↦ suc (num_new_validators us s)
  | some found ↦ num_new_validators us s
]

-- The loop of `verifyRemovals`, with the power that was found before.
unfoldable pub removed_from : ℤ → List Validator → ValidatorSet → Outcome ChangeError ℤ
removed_from sum [] s = ok sum
removed_from sum (d ∷ ds) s = elim (get_by_address s d.address) [
  | none ↦ err not_found
  | some (i, v) ↦ removed_from (wrap_int64 (sum +ℤ pos v.voting_power)) ds s
]

-- `verifyRemovals`
unfoldable pub verify_removals : List Validator → ValidatorSet → Outcome ChangeError ℤ
unfolding removed_from
verify_removals deletes s = do
  removed ← removed_from (pos 0) deletes s
  panic_if (ltb (size s) (length deletes))
  ok removed

-- What an update adds to the total.
unfoldable pub delta : ValidatorSet → Validator → ℤ
delta s u = elim (get_by_address s u.address) [
  | none ↦ pos u.voting_power
  | some (i, v) ↦ pos u.voting_power -ℤ pos v.voting_power
]

-- The loop of `verifyUpdates` over the sorted updates.
unfoldable pub total_after : ValidatorSet → ℤ → List Validator → Outcome ChangeError ℤ
unfolding delta
total_after s total [] = ok total
total_after s total (u ∷ us) =
    let total' = wrap_int64 (total +ℤ delta s u) in
    let rest = total_after s total' us in
    if ltb_ℤ (pos max_total_voting_power) total' then err overflow else rest

-- A value that a panic may withhold.
abbrev pub or_panics : {A : Type 0} → Option A → Outcome ChangeError A
or_panics none = panics
or_panics (some a) = ok a

-- `verifyUpdates`: the total before the removals.
unfoldable pub verify_updates : List Validator → ValidatorSet → ℤ → Outcome ChangeError ℤ
unfolding total_after sort_by delta
verify_updates updates s removed = do
  total ← or_panics (total_voting_power s)
  after ←
      total_after s (wrap_int64 (pos total -ℤ removed))
        (sort_by (λ u v. ltb_ℤ (delta s u) (delta s v)) updates)
  ok (wrap_int64 (after +ℤ removed))

-- The priority of a validator that is new, or its old one.
abbrev pub new_priority : ValidatorSet → ℤ → Validator → ℤ
new_priority s total u = elim (get_by_address s u.address) [
  | none ↦ neg_int64 (wrap_int64 (total +ℤ div_floor total 8))
  | some (i, v) ↦ v.proposer_priority
]

-- `computeNewPriorities`
unfoldable pub compute_new_priorities : List Validator → ValidatorSet → ℤ → List Validator
compute_new_priorities updates s total =
    map {A = Validator} (λ u. record u { proposer_priority = new_priority s total u }) updates

-- The merge of `applyUpdates`, of two lists that are sorted by address; the fuel is the number of all
-- that are in them.
unfoldable pub merge_on : ℕ → List Validator → List Validator → List Validator
merge_on fuel [] us = us
merge_on fuel (v ∷ vs) [] = v ∷ vs
merge_on ℕ.zero (v ∷ vs) (u ∷ us) = []
merge_on (suc fuel) (v ∷ vs) (u ∷ us) =
    let keep = v ∷ merge_on fuel vs (u ∷ us) in
    let replace = u ∷ merge_on fuel vs us in
    let add = u ∷ merge_on fuel (v ∷ vs) us in
    if bytes_lt v.address u.address
    then keep
    else if bytes_eq v.address u.address
    then replace
    else add

-- `applyUpdates`
unfoldable pub apply_updates : List Validator → List Validator → List Validator
unfolding merge_on sort_by
apply_updates existing updates =
    merge_on (length existing + length updates) (sort_by by_address existing) updates

-- `applyRemovals`; `none` is a panic. The slice for the result is too short only if a removal is not
-- found, and then the loop runs out of validators as well.
unfoldable pub apply_removals : List Validator → List Validator → Option (List Validator)
apply_removals existing [] = some existing
apply_removals [] (d ∷ ds) = none
apply_removals (v ∷ vs) (d ∷ ds) =
    let found = apply_removals vs ds in
    let kept = apply_removals vs (d ∷ ds) in
    if bytes_eq v.address d.address
    then found
    else elim kept [ none ↦ none | some ws ↦ some (v ∷ ws) ]

-- `updateTotalVotingPower`
unfoldable pub update_total_voting_power : ValidatorSet → Option ValidatorSet
unfolding add_powers
update_total_voting_power s = elim (add_powers 0 s.validators) [
  | none ↦ none
  | some t ↦ some (record s { total_voting_power = t })
]

-- `updateWithChangeSet` from `computeNewPriorities` on.
unfoldable pub apply_change_set :
    List Validator → List Validator → ℤ → ValidatorSet → Outcome ChangeError ValidatorSet
unfolding compute_new_priorities apply_updates apply_removals update_total_voting_power sort_by
    rescale_priorities shift_by_avg_proposer_priority
apply_change_set updates deletes total s = do
  vs ←
      or_panics (
        apply_removals (apply_updates s.validators (compute_new_priorities updates s total))
          deletes)
  s₁ ← or_panics (update_total_voting_power (record s { validators = vs }))
  t ← or_panics (total_voting_power s₁)
  s₂ ← or_panics (rescale_priorities (mul_int64 (pos 2) (pos t)) s₁)
  s₃ ← or_panics (shift_by_avg_proposer_priority s₂)
  ok (record s₃ { validators = sort_by by_voting_power s₃.validators })

-- `updateWithChangeSet`. After an error the set is as it was.
unfoldable pub update_with_change_set :
    List Change → Bool → ValidatorSet → Outcome ChangeError ValidatorSet
unfolding process_changes num_new_validators verify_removals verify_updates apply_change_set
update_with_change_set changes allow_deletes s = if length changes == 0 then ok s else do
  (updates, deletes) ← process_changes changes
  fail_if (not allow_deletes && not (length deletes == 0)) deletes_not_allowed
  fail_if ((num_new_validators updates s == 0) && (size s == length deletes)) empty_set
  removed ← verify_removals deletes s
  total ← verify_updates updates s removed
  apply_change_set updates deletes total s

-- `NewValidatorSet`; `none` is a panic.
unfoldable pub new_validator_set : List Change → Option ValidatorSet
unfolding update_with_change_set increment_proposer_priority
new_validator_set changes =
    elim (update_with_change_set changes false
      (record { validators = []; proposer = none; total_voting_power = 0 })) [
        | panics ↦ none
        | err e ↦ none
        | ok s ↦ if length changes == 0 then some s else increment_proposer_priority (pos 1) s
      ]

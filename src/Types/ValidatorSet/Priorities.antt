-- ===== src/Types/ValidatorSet/Priorities.antt =====
-- Proposer priorities: the part of types/validator_set.go that rescales, centres and increments them.
-- A priority is an int64. `none` is a panic.
use relaychainmodel.Prelude.{
  List, Option, [], false, if◌then◌else◌, length, map, none, set, some, suc, true, zero, ℕ, ◌&&◌,
  ◌+◌, ◌/◌, ◌==◌, ◌||◌, ◌∷◌,
}
use relaychainmodel.Prelude.Int.{eq_ℤ, leb_ℤ, ltb_ℤ, negsuc, pos, pos_part, ℤ, ◌+ℤ◌, ◌-ℤ◌}
use relaychainmodel.Prelude.Int64.{max_int64, min_int64, mul_int64, quot_int64, wrap_int64}
use relaychainmodel.SafeMath.{safe_add_clip, safe_sub_clip}
use relaychainmodel.Types.ValidatorSet.{
  Validator, ValidatorSet, size, is_preferred, total_voting_power,
}

abbrev pub with_priority : Validator → ℤ → Validator
with_priority v p = record v { proposer_priority = p }

-- The loop of `computeMaxMinPriorityDiff`.
pub max_min_from : ℤ → ℤ → List Validator → ℤ × ℤ
max_min_from max min [] = (max, min)
max_min_from max min (v ∷ vs) =
    let p = v.proposer_priority in
    max_min_from (if ltb_ℤ max p then p else max) (if ltb_ℤ p min then p else min) vs

-- `-1 * diff` below 0, on int64.
abbrev pub magnitude : ℤ → ℤ
magnitude diff = if ltb_ℤ diff (pos 0) then mul_int64 (negsuc 0) diff else diff

-- `computeMaxMinPriorityDiff`, with the wrap-around of its difference.
unfoldable pub max_min_priority_diff : List Validator → ℤ
unfolding max_min_from
max_min_priority_diff vs =
    let (max, min) = max_min_from min_int64 (pos max_int64) vs in
    magnitude (wrap_int64 (max -ℤ min))

-- `val.ProposerPriority /= ratio` for each validator of a set that has one: a ratio of 0 panics.
unfoldable pub divide_priorities : ℤ → ValidatorSet → Option ValidatorSet
divide_priorities ratio s =
    if eq_ℤ ratio (pos 0)
    then none
    else some (record s {
      validators = map (λ v. with_priority v (quot_int64 v.proposer_priority ratio)) s.validators;
    })

-- The ratio of `RescalePriorities`, for a number above 0. The sum before the division wraps around.
unfoldable pub rescale_ratio : ℤ → ValidatorSet → ℤ
unfolding max_min_priority_diff
rescale_ratio diff_max s =
    let diff = max_min_priority_diff s.validators in
    quot_int64 (wrap_int64 (wrap_int64 (diff +ℤ diff_max) -ℤ pos 1)) diff_max

-- `RescalePriorities`
unfoldable pub rescale_priorities : ℤ → ValidatorSet → Option ValidatorSet
unfolding rescale_ratio divide_priorities wrap_int64
rescale_priorities diff_max s =
    if size s == 0
    then none
    else if leb_ℤ diff_max (pos 0)
    then some s
    else let ratio = rescale_ratio diff_max s in
      if ltb_ℤ diff_max (max_min_priority_diff s.validators)
      then divide_priorities ratio s
      else some s

-- The exact sum of the priorities, which the code takes over big integers.
unfoldable pub sum_priorities : List Validator → ℤ
sum_priorities [] = pos 0
sum_priorities (v ∷ vs) = v.proposer_priority +ℤ sum_priorities vs

-- `big.Int.Div` by a number above 0, which rounds down.
abbrev pub div_floor : ℤ → ℕ → ℤ
div_floor (pos a) n = pos (a / n)
div_floor (negsuc a) n = negsuc (a / n)

-- `computeAvgProposerPriority`
unfoldable pub compute_avg_proposer_priority : List Validator → Option ℤ
unfolding sum_priorities
compute_avg_proposer_priority vs =
    let avg = div_floor (sum_priorities vs) (length vs) in
    if leb_ℤ min_int64 avg && leb_ℤ avg (pos max_int64) then some avg else none

-- `shiftByAvgProposerPriority`
unfoldable pub shift_by_avg_proposer_priority : ValidatorSet → Option ValidatorSet
unfolding compute_avg_proposer_priority safe_sub_clip
shift_by_avg_proposer_priority s =
    if size s == 0 then none else elim (compute_avg_proposer_priority s.validators) [
      | none ↦ none
      | some avg ↦ some (record s {
        validators =
            map (λ v. with_priority v (safe_sub_clip v.proposer_priority avg)) s.validators;
      })
    ]

-- The loop of `getValWithMostPriority` from position `i`: the position and the validator.
unfoldable pub most_from : ℕ → ℕ × Validator → List Validator → Option (ℕ × Validator)
unfolding is_preferred
most_from i res [] = some res
most_from i res (v ∷ vs) =
    let keep = most_from (i + 1) res vs in
    let change = most_from (i + 1) (i, v) vs in
    elim (is_preferred res.1 v) [ none ↦ none | some true ↦ keep | some false ↦ change ]

-- `getValWithMostPriority`; a nil result of an empty set is dereferenced.
unfoldable pub val_with_most_priority : List Validator → Option (ℕ × Validator)
unfolding most_from
val_with_most_priority [] = none
val_with_most_priority (v ∷ vs) = most_from 1 (0, v) vs

-- `incrementProposerPriority`: the set, and the validator that was chosen.
unfoldable pub increment_once : ValidatorSet → Option (ValidatorSet × Validator)
unfolding val_with_most_priority safe_add_clip safe_sub_clip total_voting_power
increment_once s =
    let vs =
      map (λ v. with_priority v (safe_add_clip v.proposer_priority (pos v.voting_power)))
        s.validators in
    elim (val_with_most_priority vs) [
      | none ↦ none
      | some (i, mostest) ↦ elim (total_voting_power s) [
        | none ↦ none
        | some total ↦
            let v = with_priority mostest (safe_sub_clip mostest.proposer_priority (pos total)) in
            some (record s { validators = set vs i v }, v)
      ]
    ]

-- The loop of `IncrementProposerPriority`, and the proposer at its end.
unfoldable pub increment_times : ℕ → ValidatorSet → Option Validator → Option ValidatorSet
unfolding increment_once
increment_times zero s proposer = some (record s { proposer = proposer })
increment_times (suc n) s proposer = elim (increment_once s) [
  | none ↦ none
  | some (s', v) ↦ increment_times n s' (some v)
]

-- `IncrementProposerPriority`. The code keeps a pointer to the proposer in the set; here it is a copy.
unfoldable pub increment_proposer_priority : ℤ → ValidatorSet → Option ValidatorSet
unfolding increment_times rescale_priorities shift_by_avg_proposer_priority total_voting_power
increment_proposer_priority times s =
    if (size s == 0) || leb_ℤ times (pos 0) then none else elim (total_voting_power s) [
      | none ↦ none
      | some total ↦ elim (rescale_priorities (mul_int64 (pos 2) (pos total)) s) [
        | none ↦ none
        | some s₁ ↦ elim (shift_by_avg_proposer_priority s₁) [
          | none ↦ none
          | some s₂ ↦ increment_times (pos_part times) s₂ none
        ]
      ]
    ]

-- ===== src/Types/ValidatorSet/Rotation/Centring.antt =====
-- `RescalePriorities` and `shiftByAvgProposerPriority` of types/validator_set.go on a set in order.
use relaychainmodel.Prelude.{
  ◌/◌, ◌≤◌, ℕ, ◌+◌, suc, some-injective, Bool-cases, List, [], ap, arith, false, inl, inr, length,
  map, refl, some, true, ◌<◌, ◌==◌, ◌∷◌, ◌≡◌,
}
use native.Mathlib.Nat.{le-div_iff_mul-le}
use relaychainmodel.Prelude.Int.{eq_ℤ, neg_part, negsuc, pos, pos_part, ℤ, leb_ℤ, ltb_ℤ, ◌-ℤ◌, ◌+ℤ◌}
use relaychainmodel.Prelude.Int64.{
  max_int64, min_int64, mul, mul_int64, quot, quot_int64, wrap_int64,
}
use relaychainmodel.SafeMath.{IsInt64, safe_sub_clip}
use relaychainmodel.Types.ValidatorSet.{Validator, ValidatorSet, size}
use relaychainmodel.Types.ValidatorSet.Priorities.{
  compute_avg_proposer_priority, divide_priorities, magnitude, max_min_from, rescale_ratio,
  max_min_priority_diff, rescale_priorities, shift_by_avg_proposer_priority, sum_priorities,
  div_floor, with_priority,
}
use relaychainmodel.Types.ValidatorSet.Rotation.Ranks.{
  AllInt64, Kept, clips-IsInt64, div_floor-IsInt64, map-Kept, quot_int64-IsInt64,
  wrap_int64-IsInt64, sum_priorities-bounds,
}
use relaychainmodel.Types.ValidatorSet.Rotation.Steps.{Turned}

Turned-refl : (s : ValidatorSet) → AllInt64 s.validators → Turned s s
Turned-refl s h = record { kept = record { same = refl; ranked = h }; cache = refl }

-- The sum of an int64 above a window and the window wraps around at most once, to a number below 0
-- that is far enough from it.
wrapped-far :
    (d m : ℕ)
    → 0 < m
    → m ≤ max_int64 / 4
    → m < d
    → d ≤ max_int64
    → let y = wrap_int64 (wrap_int64 (pos d +ℤ pos m) -ℤ pos 1) in m ≤ pos_part y + neg_part y
unfolding wrap_int64
wrapped-far d m some_window small above int64 = ground arith

quotient-positive : (a m : ℕ) → 0 < m → m ≤ a → 1 ≤ a / m
quotient-positive a m h k = (le-div_iff_mul-le h).1 (omega arith)

quot_int64-far :
    (y : ℤ) (m : ℕ)
    → 0 < m
    → m ≤ max_int64
    → IsInt64 y
    → m ≤ pos_part y + neg_part y
    → eq_ℤ (quot_int64 y (pos m)) (pos 0) ≡ false
unfolding quot_int64 wrap_int64 quot
quot_int64-far (pos a) m h small int64 far =
    let q = quotient-positive a m h (omega arith) in ground arith
quot_int64-far (negsuc a) m h small int64 far =
    let q = quotient-positive (suc a) m h (omega arith) in ground arith

mul_int64-IsInt64 : (a b : ℤ) → IsInt64 (mul_int64 a b)
unfolding mul_int64
mul_int64-IsInt64 a b = wrap_int64-IsInt64 (mul a b)

magnitude-IsInt64 : (x : ℤ) → IsInt64 x → IsInt64 (magnitude x)
magnitude-IsInt64 x h = elim (Bool-cases (ltb_ℤ x (pos 0))) [
  | inl e ↦ rw e (mul_int64-IsInt64 (negsuc 0) x)
  | inr e ↦ rw e h
]

-- The difference of priorities is an int64.
diff-IsInt64 : (vs : List Validator) → IsInt64 (max_min_priority_diff vs)
unfolding max_min_priority_diff
diff-IsInt64 vs =
    let (max, min) = max_min_from min_int64 (pos max_int64) vs in
    let x = wrap_int64 (max -ℤ min) in magnitude-IsInt64 x (wrap_int64-IsInt64 (max -ℤ min))

-- So a set that is rescaled is not divided by 0, where the window is a quarter of the int64s.
rescale_ratio-nonzero :
    (m : ℕ) (s : ValidatorSet)
    → 0 < m
    → m ≤ max_int64 / 4
    → ltb_ℤ (pos m) (max_min_priority_diff s.validators) ≡ true
    → eq_ℤ (rescale_ratio (pos m) s) (pos 0) ≡ false
unfolding rescale_ratio
rescale_ratio-nonzero m s some_window small above =
    nonzero (max_min_priority_diff s.validators) (diff-IsInt64 s.validators) above
  where
    nonzero :
        (diff : ℤ)
        → IsInt64 diff
        → ltb_ℤ (pos m) diff ≡ true
        → eq_ℤ (quot_int64 (wrap_int64 (wrap_int64 (diff +ℤ pos m) -ℤ pos 1)) (pos m)) (pos 0)
          ≡ false
    nonzero (negsuc d) int64 h = absurd (ground arith)
    nonzero (pos d) int64 h =
        quot_int64-far (wrap_int64 (wrap_int64 (pos d +ℤ pos m) -ℤ pos 1)) m some_window
          (omega arith) (wrap_int64-IsInt64 (wrap_int64 (pos d +ℤ pos m) -ℤ pos 1))
          (wrapped-far d m some_window small (ground arith) (omega arith))

divide_priorities-Turned :
    (ratio : ℤ) (s s' : ValidatorSet) → divide_priorities ratio s ≡ some s' → Turned s s'
unfolding divide_priorities
divide_priorities-Turned ratio s s' h = elim (Bool-cases (eq_ℤ ratio (pos 0))) [
  | inl e ↦ absurd (let h' = rw e at h in cc)
  | inr e ↦ rw (← some-injective _ s' (rw e at h)) (record {
    kept =
        map-Kept (λ v. quot_int64 v.proposer_priority ratio) s.validators
          (λ v. quot_int64-IsInt64 v.proposer_priority ratio);
    cache = refl;
  })
]

divide_priorities-some :
    (ratio : ℤ) (s : ValidatorSet)
    → eq_ℤ ratio (pos 0) ≡ false
    → (s' : ValidatorSet) × (divide_priorities ratio s ≡ some s')
unfolding divide_priorities
divide_priorities-some ratio s e = rw e (_, refl)

-- What rescaling keeps, where it returns.
pub rescale_priorities-Turned :
    (d : ℤ) (s s' : ValidatorSet)
    → AllInt64 s.validators
    → rescale_priorities d s ≡ some s'
    → Turned s s'
unfolding rescale_priorities
rescale_priorities-Turned d s s' ranked h = elim (Bool-cases (size s == 0)) [
  | inl e ↦ absurd (let h' = rw e at h in cc)
  | inr e ↦ elim (Bool-cases (leb_ℤ d (pos 0))) [
    | inl f ↦ rw (← some-injective s s' (rw (e, f) at h)) (Turned-refl s ranked)
    | inr f ↦ elim (Bool-cases (ltb_ℤ d (max_min_priority_diff s.validators))) [
      | inl g ↦ divide_priorities-Turned (rescale_ratio d s) s s' (rw (e, f, g) at h)
      | inr g ↦ rw (← some-injective s s' (rw (e, f, g) at h)) (Turned-refl s ranked)
    ]
  ]
]

-- It returns where the set has a validator and the window is at most a quarter of the int64s.
pub rescale_priorities-some :
    (m : ℕ) (s : ValidatorSet)
    → m ≤ max_int64 / 4
    → 0 < size s
    → (s' : ValidatorSet) × (rescale_priorities (pos m) s ≡ some s')
unfolding rescale_priorities
rescale_priorities-some m s small some_validators =
    let z : (size s == 0) ≡ false = ground arith in
    elim (Bool-cases (leb_ℤ (pos m) (pos 0))) [
      | inl e ↦ (s, rw (z, e) refl)
      | inr e ↦ elim (Bool-cases (ltb_ℤ (pos m) (max_min_priority_diff s.validators))) [
        | inr f ↦ (s, rw (z, e, f) refl)
        | inl f ↦
            let ratio = rescale_ratio-nonzero m s (ground arith) small f in
            let (s', made) = divide_priorities-some (rescale_ratio (pos m) s) s ratio in
            (s', rw (z, e, f) made)
      ]
    ]

shifted-Kept :
    (avg : ℤ) (vs : List Validator)
    → IsInt64 avg
    → AllInt64 vs
    → Kept vs (map (λ v. with_priority v (safe_sub_clip v.proposer_priority avg)) vs)
shifted-Kept avg [] a h = record { same = refl; ranked = tt }
shifted-Kept avg (v ∷ vs) a (h, hs) =
    let k = shifted-Kept avg vs a hs in
    record {
      same = ap (λ r. with_priority v (pos 0) ∷ r) k.same;
      ranked = ((clips-IsInt64 v.proposer_priority avg h a).1, k.ranked);
    }

compute_avg-IsInt64 :
    (vs : List Validator)
    → AllInt64 vs
    → 0 < length vs
    → (avg : ℤ) × (compute_avg_proposer_priority vs ≡ some avg) × IsInt64 avg
unfolding compute_avg_proposer_priority
compute_avg-IsInt64 vs h n =
    let (p, q) = sum_priorities-bounds vs h in
    let avg = div_floor (sum_priorities vs) (length vs) in
    let (low, high) = div_floor-IsInt64 (sum_priorities vs) (length vs) n p q in
    let l : leb_ℤ min_int64 avg ≡ true = ground arith in
    let r : leb_ℤ avg (pos max_int64) ≡ true = ground arith in (avg, rw (l, r) refl, (low, high))

pub shift_by_avg-Turned :
    (s : ValidatorSet)
    → AllInt64 s.validators
    → 0 < size s
    → (s' : ValidatorSet) × (shift_by_avg_proposer_priority s ≡ some s') × Turned s s'
unfolding shift_by_avg_proposer_priority
shift_by_avg-Turned s ranked some_validators =
    let z : (size s == 0) ≡ false = ground (arith, some_validators) in
    let (avg, found, int64) = compute_avg-IsInt64 s.validators ranked some_validators in
    (
      record s {
        validators =
            map (λ v. with_priority v (safe_sub_clip v.proposer_priority avg)) s.validators;
      },
      rw (z, found) refl,
      record { kept = shifted-Kept avg s.validators int64 ranked; cache = refl },
    )

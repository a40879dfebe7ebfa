-- ===== src/Types/ValidatorSet.antt =====
-- The part of types/validator_set.go that votes and commits read: lookups and the total power.
-- Voting powers are non-negative (Validator.ValidateBasic), so an int64 power is a number.
pub mod Power
pub mod Priorities
pub mod Rotation
pub mod Creation
pub mod Updates
use relaychainmodel.Prelude.{
  Bool, Bool-cases, List, Option, [], arith, false, get_elem?, if◌then◌else◌, inl, inr, leb, length,
  ltb, none, refl, some, suc, true, ℕ, ◌&&◌, ◌*◌, ◌+◌, ◌-◌, ◌/◌, ◌<◌, ◌==◌, ◌||◌, ◌∷◌, ◌≡◌, ◌≤◌,
  ◌⊎◌,
}
use relaychainmodel.Prelude.Int.{ltb_ℤ, negsuc, pos, ℤ}
use relaychainmodel.Prelude.Bytes.{Bytes, bytes_eq}
use relaychainmodel.Prelude.Int64.{max_int64, mul_int64, quot_int64}

pub record Validator : Type 0 where
  pub address : Bytes
  pub pub_key : Bytes
  pub voting_power : ℕ
  pub proposer_priority : ℤ

pub record ValidatorSet : Type 0 where
  pub validators : List Validator
  pub proposer : Option Validator
  pub total_voting_power : ℕ  -- cached, 0 before the first use

abbrev pub max_total_voting_power : ℕ
max_total_voting_power = max_int64 / 8

-- `safeAddClip`, for numbers that are not negative.
pub safe_add_clip : ℕ → ℕ → ℕ
safe_add_clip a b = if ltb 0 b && ltb (max_int64 - b) a then max_int64 else a + b

-- The loop of `updateTotalVotingPower`; `none` is its panic.
pub add_powers : ℕ → List Validator → Option ℕ
add_powers sum [] = some sum
add_powers sum (v ∷ vs) =
    let sum' = safe_add_clip sum v.voting_power in
    let rest = add_powers sum' vs in if ltb max_total_voting_power sum' then none else rest

-- `TotalVotingPower`
unfoldable pub total_voting_power : ValidatorSet → Option ℕ
unfolding add_powers safe_add_clip
total_voting_power s =
    if s.total_voting_power == 0 then add_powers 0 s.validators else some s.total_voting_power

-- `vals.TotalVotingPower() * 2 / 3` on int64.
abbrev pub two_thirds : ℕ → ℤ
two_thirds total = quot_int64 (mul_int64 (pos total) (pos 2)) (pos 3)

-- `Size`
abbrev pub size : ValidatorSet → ℕ
size s = length s.validators

-- `GetByIndex`; `none` is the nil validator.
unfoldable pub get_by_index : ValidatorSet → ℤ → Option Validator
get_by_index s (pos i) = if leb (size s) i then none else get_elem? s.validators i
get_by_index s (negsuc i) = none

-- The loop of `GetByAddress` from position `i`.
pub find_address : ℕ → Bytes → List Validator → Option (ℕ × Validator)
find_address i a [] = none
find_address i a (v ∷ vs) = if bytes_eq v.address a then some (i, v) else find_address (i + 1) a vs

-- `GetByAddress`; `none` is the pair of -1 and nil.
unfoldable pub get_by_address : ValidatorSet → Bytes → Option (ℕ × Validator)
unfolding find_address bytes_eq
get_by_address s a = find_address 0 a s.validators

-- `bytes.Compare(a, b) < 0`: the order of dictionaries.
unfoldable pub bytes_lt : Bytes → Bytes → Bool
bytes_lt [] [] = false
bytes_lt [] (y ∷ ys) = true
bytes_lt (x ∷ xs) [] = false
bytes_lt (x ∷ xs) (y ∷ ys) = ltb x y || (x == y) && bytes_lt xs ys

-- `CompareProposerPriority` on a proposer that is there: whether it is preferred to the other, or
-- `none` for the panic.
unfoldable pub is_preferred : Validator → Validator → Option Bool
unfolding bytes_lt
is_preferred v other =
    if ltb_ℤ other.proposer_priority v.proposer_priority
    then some true
    else if ltb_ℤ v.proposer_priority other.proposer_priority
    then some false
    else if bytes_lt v.address other.address
    then some true
    else if bytes_lt other.address v.address
    then some false
    else none

-- `CompareProposerPriority` on a proposer that may be nil.
unfoldable pub compare_proposer_priority : Option Validator → Validator → Option Validator
unfolding is_preferred
compare_proposer_priority none other = some other
compare_proposer_priority (some v) other = elim (is_preferred v other) [
  | none ↦ none
  | some true ↦ some v
  | some false ↦ some other
]

-- The loop of `findProposer`; the outer `none` is a panic.
unfoldable pub find_proposer_from : Option Validator → List Validator → Option (Option Validator)
find_proposer_from proposer [] = some proposer
find_proposer_from none (v ∷ vs) = find_proposer_from (some v) vs
find_proposer_from (some p) (v ∷ vs) =
    let keep = find_proposer_from (some p) vs in
    if bytes_eq v.address p.address then keep else elim (compare_proposer_priority (some p) v) [
      | none ↦ none
      | some q ↦ find_proposer_from (some q) vs
    ]

-- `GetProposer`: the outer `none` is a panic, the inner one the nil of an empty set.
unfoldable pub get_proposer : ValidatorSet → Option (Option Validator)
unfolding find_proposer_from compare_proposer_priority bytes_lt
get_proposer s =
    if size s == 0
    then some none
    else elim s.proposer [ none ↦ find_proposer_from none s.validators | some p ↦ some (some p) ]

-- The mathematical sum of the powers.
unfoldable pub power : List Validator → ℕ
power [] = 0
power (v ∷ vs) = v.voting_power + power vs

-- The cache holds the sum, which is below the cap.
pub record IsValid (s : ValidatorSet) : Type 0 where
  pub cached : (s.total_voting_power ≡ 0) ⊎ (s.total_voting_power ≡ power s.validators)
  pub capped : power s.validators ≤ max_total_voting_power

add_powers-eq :
    (sum : ℕ) (vs : List Validator)
    → sum + power vs ≤ max_total_voting_power
    → add_powers sum vs ≡ some (sum + power vs)
unfolding add_powers power safe_add_clip
add_powers-eq sum [] h = ground arith
add_powers-eq sum (v ∷ vs) h = ground (arith, add_powers-eq (sum + v.voting_power) vs)

-- Exactly the sums up to the cap are computed: the loop stops before anything can wrap.
pub add_powers_exact :
    (sum t : ℕ) (vs : List Validator)
    → sum ≤ max_total_voting_power
    → add_powers sum vs ≡ some t
    → (t ≡ sum + power vs) × (t ≤ max_total_voting_power)
unfolding add_powers power safe_add_clip
add_powers_exact sum t [] h e = ground arith
add_powers_exact sum t (v ∷ vs) h e = ground (arith, add_powers_exact (sum + v.voting_power) t vs)

pub total_voting_power-eq :
    (s : ValidatorSet) → IsValid s → total_voting_power s ≡ some (power s.validators)
unfolding total_voting_power
total_voting_power-eq s h = ground (arith, add_powers-eq 0 s.validators)

-- What `GetByIndex` finds lies in the set at that index.
pub get_by_index-some :
    (s : ValidatorSet) (i : ℤ) {v : Validator}
    → get_by_index s i ≡ some v
    → (n : ℕ) × (i ≡ pos n) × (n < size s) × (get_elem? s.validators n ≡ some v)
unfolding get_by_index
get_by_index-some s (pos n) h = (n, refl, ground arith, ground arith)
get_by_index-some s (negsuc n) h = cc

pub find_address-some :
    (k : ℕ) (a : Bytes) (vs : List Validator) (i : ℕ) (v : Validator)
    → find_address k a vs ≡ some (i, v)
    → (k ≤ i) × (get_elem? vs (i - k) ≡ some v) × (bytes_eq v.address a ≡ true)
unfolding find_address
find_address-some k a [] i v h = cc
find_address-some k a (w ∷ vs) i v h = elim (Bool-cases (bytes_eq w.address a)) [
  | inl same ↦ ground arith
  | inr other ↦
      let (le, found, same) = find_address-some (k + 1) a vs i v (rw other at h) in
      let step : i - k ≡ suc (i - (k + 1)) = omega arith in (omega arith, rw step found, same)
]

-- What `GetByAddress` finds has the address, and lies in the set at the index.
pub get_by_address-some :
    (s : ValidatorSet) (a : Bytes) (i : ℕ) (v : Validator)
    → get_by_address s a ≡ some (i, v)
    → (get_elem? s.validators i ≡ some v) × (bytes_eq v.address a ≡ true)
unfolding get_by_address
get_by_address-some s a i v h =
    let (le, found, same) = find_address-some 0 a s.validators i v h in
    let e : i - 0 ≡ i = omega arith in (rw e at found, same)

-- Two thirds of a total within the cap are computed with no overflow.
pub two_thirds-eq : (t : ℕ) → t ≤ max_total_voting_power → two_thirds t ≡ pos (t * 2 / 3)
unfolding mul_int64 quot_int64
two_thirds-eq t h = ground arith

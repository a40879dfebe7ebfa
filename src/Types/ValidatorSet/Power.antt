-- ===== src/Types/ValidatorSet/Power.antt =====
-- The power of the validators at chosen positions, and how it grows.
use relaychainmodel.Prelude.{
  Bool, List, [], arith, false, get_elem?, if◌then◌else◌, refl, some, suc, true, zero, ℕ, ◌&&◌, ◌+◌,
  ◌<◌, ◌==◌, ◌||◌, ◌∷◌, ◌≡◌, ◌≤◌,
}
use relaychainmodel.Types.ValidatorSet.{Validator, power}

-- The power at the positions that `p` chooses, of validators counted from position `k`.
unfoldable pub power_from : (ℕ → Bool) → ℕ → List Validator → ℕ
power_from p k [] = 0
power_from p k (v ∷ vs) = (if p k then v.voting_power else 0) + power_from p (k + 1) vs

-- The power of the validators whose index `p` chooses.
abbrev pub power_of : (ℕ → Bool) → List Validator → ℕ
power_of p vs = power_from p 0 vs

abbrev pub with_index : ℕ → (ℕ → Bool) → ℕ → Bool
with_index i p j = (j == i) || p j

power_from-le : (p : ℕ → Bool) (k : ℕ) (vs : List Validator) → power_from p k vs ≤ power vs
unfolding power_from power
power_from-le p k [] = omega arith
power_from-le p k (v ∷ vs) = ground (arith, power_from-le p (k + 1) vs)

pub power_of-le : (p : ℕ → Bool) (vs : List Validator) → power_of p vs ≤ power vs
power_of-le p vs = power_from-le p 0 vs

power_from_below :
    (p : ℕ → Bool) (i k : ℕ) (vs : List Validator)
    → i < k
    → power_from (with_index i p) k vs ≡ power_from p k vs
unfolding power_from
power_from_below p i k [] h = refl
power_from_below p i k (v ∷ vs) h = ground (arith, power_from_below p i (k + 1) vs)

power_from_add :
    (p : ℕ → Bool) (i j k : ℕ) (vs : List Validator) (v : Validator)
    → i ≡ k + j
    → get_elem? vs j ≡ some v
    → p i ≡ false
    → power_from (with_index i p) k vs ≡ power_from p k vs + v.voting_power
unfolding power_from
power_from_add p i j k [] v z h e = cc
power_from_add p i zero k (w ∷ vs) v z h e =
    let same : i ≡ k = omega arith in
    let e' : p k ≡ false = rw same at e in ground (arith, power_from_below p i (k + 1) vs)
power_from_add p i (suc j) k (w ∷ vs) v z h e = ground (arith, power_from_add p i j (k + 1) vs v)

-- One more position adds its validator's power.
pub power_of-with_index :
    (p : ℕ → Bool) (i : ℕ) (vs : List Validator) (v : Validator)
    → get_elem? vs i ≡ some v
    → p i ≡ false
    → power_of (with_index i p) vs ≡ power_of p vs + v.voting_power
power_of-with_index p i vs v h e = power_from_add p i i 0 vs v (omega arith) h e

power_from_empty : (k : ℕ) (vs : List Validator) → power_from (λ _. false) k vs ≡ 0
unfolding power_from
power_from_empty k [] = refl
power_from_empty k (v ∷ vs) = omega (arith, power_from_empty (k + 1) vs)

pub power_of-empty : (vs : List Validator) → power_of (λ _. false) vs ≡ 0
power_of-empty vs = power_from_empty 0 vs

power_from_mono :
    (p q : ℕ → Bool) (k : ℕ) (vs : List Validator)
    → ((i : ℕ) → p i ≡ true → q i ≡ true)
    → power_from p k vs ≤ power_from q k vs
unfolding power_from
power_from_mono p q k [] h = omega arith
power_from_mono p q k (v ∷ vs) h = ground (arith, h k, power_from_mono p q (k + 1) vs h)

pub power_of_mono :
    (p q : ℕ → Bool) (vs : List Validator)
    → ((i : ℕ) → p i ≡ true → q i ≡ true)
    → power_of p vs ≤ power_of q vs
power_of_mono p q vs h = power_from_mono p q 0 vs h

abbrev pub both : (ℕ → Bool) → (ℕ → Bool) → ℕ → Bool
both p q i = p i && q i

power_from-both :
    (p q : ℕ → Bool) (k : ℕ) (vs : List Validator)
    → power_from p k vs + power_from q k vs ≤ power vs + power_from (both p q) k vs
unfolding power_from power
power_from-both p q k [] = omega arith
power_from-both p q k (v ∷ vs) = ground (arith, power_from-both p q (k + 1) vs)

-- Two sets of validators share what their powers exceed the total by.
pub power_of-both :
    (p q : ℕ → Bool) (vs : List Validator)
    → power_of p vs + power_of q vs ≤ power vs + power_of (both p q) vs
power_of-both p q vs = power_from-both p q 0 vs

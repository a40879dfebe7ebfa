-- ===== src/Merkle/Split.antt =====
-- The split point of `getSplitPoint`: a power of two that is less than the length and not less than
-- half of it.
use relaychainmodel.Prelude.{
  ==_iff, Bool-cases, arith, if◌then◌else◌, inl, inr, refl, suc, zero, ℕ, ◌*◌, ◌-◌, ◌/◌, ◌<◌, ◌==◌,
  ◌^◌, ◌≡◌, ◌≤◌,
}
use relaychainmodel.Prelude.Int64.{two63}
use native.Mathlib.Omega.{pow_step}
use relaychainmodel.Merkle.{bits_len, split_point}

bits_len-zero : (fuel : ℕ) → bits_len fuel 0 ≡ 0
unfolding bits_len
bits_len-zero zero = refl
bits_len-zero (suc fuel) = refl

-- The digits of a number: it is below the power of two of their number, and that power is at most
-- twice the number.
bits_len-bounds :
    (fuel n : ℕ) → n < 2 ^ fuel → (n < 2 ^ bits_len fuel n) × (0 < n → 2 ^ bits_len fuel n ≤ 2 * n)
unfolding bits_len
bits_len-bounds zero n h = (omega arith, λ p. absurd (omega arith))
bits_len-bounds (suc fuel) n h =
    let half : n / 2 < 2 ^ fuel = omega (arith, pow_step 2 fuel) in
    let (below, above) = bits_len-bounds fuel (n / 2) half in
    let p = pow_step 2 (bits_len fuel (n / 2)) in
    elim (Bool-cases (n / 2 == 0)) [
      | inr e ↦ ground arith
      | inl e ↦
          let e' = (==_iff _ _).0 e in
          let z : bits_len fuel (n / 2) ≡ 0 = rw (e', bits_len-zero fuel) in ground arith
    ]

-- A split of a length: below it, at least half of it, and a power of two.
abbrev pub IsSplit : ℕ → ℕ → Type 0
IsSplit n k = (k < n) × (n ≤ 2 * k) × (e : ℕ) × (k ≡ 2 ^ e)

halves :
    (e n : ℕ)
    → 2 ≤ n
    → n < 2 * 2 ^ e
    → 2 ^ e ≤ n
    → IsSplit n (if 2 ^ e == n then 2 ^ e / 2 else 2 ^ e)
halves zero n two h g = absurd (omega arith)
halves (suc e) n two h g =
    let p = pow_step 2 e in
    let r : 2 ^ suc e / 2 ≡ 2 ^ e = omega arith in
    elim (Bool-cases (2 ^ suc e == n)) [
      | inl same ↦ rw (same, r) (ground arith, ground arith, e, refl)
      | inr other ↦ rw other (ground arith, ground arith, suc e, refl)
    ]

pow_pred : (m : ℕ) → 0 < m → 2 ^ m ≡ 2 * 2 ^ (m - 1)
pow_pred zero h = absurd (omega arith)
pow_pred (suc m) h = let e : suc m - 1 ≡ m = omega arith in rw e (pow_step 2 m)

-- The split point of a length from 2 to 2 ^ 63 - 1 is below it, at least half of it, and a power of
-- two.
pub split_point-bounds : (n : ℕ) → 2 ≤ n → n < two63 → IsSplit n (split_point n)
unfolding split_point
split_point-bounds n two h =
    let (below, above) = bits_len-bounds 64 n (omega arith) in
    let digits = bits_len 64 n in
    let some_digits : 0 < digits = elim (Bool-cases (digits == 0)) [
      | inl e ↦ absurd (let e' = (==_iff _ _).0 e in omega (arith, rw e' at below))
      | inr e ↦ ground arith
    ] in
    let p = pow_pred digits some_digits in
    halves (digits - 1) n two (omega arith) (omega (arith, above (omega arith)))

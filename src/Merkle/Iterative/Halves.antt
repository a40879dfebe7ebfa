-- ===== src/Merkle/Iterative/Halves.antt =====
-- The splits of a length and of half that length, for `getSplitPoint`.
use relaychainmodel.Prelude.{
  ap, arith, inl, inr, refl, suc, sym, zero, ℕ, ◌*◌, ◌+◌, ◌/◌, ◌<◌, ◌^◌, ◌∙◌, ◌≡◌, ◌≤◌, ◌⊎◌,
}
use native.Mathlib.Omega.{pow_step}
use relaychainmodel.Merkle.Split.{IsSplit}

pow_lt : (e d : ℕ) → 2 * 2 ^ e ≤ 2 ^ (suc e + d)
pow_lt e zero =
    let p = pow_step 2 e in let z : suc e + 0 ≡ suc e = omega arith in rw z (omega arith)
pow_lt e (suc d) =
    let z : suc e + suc d ≡ suc (suc e + d) = omega arith in
    let h = pow_lt e d in let p = pow_step 2 (suc e + d) in rw z (omega arith)

order : (a b : ℕ) → (a ≡ b) ⊎ (((d : ℕ) × (b ≡ suc a + d)) ⊎ ((d : ℕ) × (a ≡ suc b + d)))
order zero zero = inl refl
order zero (suc b) = inr (inl (b, omega arith))
order (suc a) zero = inr (inr (a, omega arith))
order (suc a) (suc b) = elim (order a b) [
  | inl e ↦ inl (ap suc e)
  | inr (inl (d, e)) ↦ inr (inl (d, omega arith))
  | inr (inr (d, e)) ↦ inr (inr (d, omega arith))
]

too_big : (n e e' d : ℕ) → n ≤ 2 * 2 ^ e → 2 ^ e' < n → e' ≡ suc e + d → ⊥
too_big n e e' d le lt h = let p = pow_lt e d in absurd (omega (arith, rw h at lt))

-- A length has one split.
pub IsSplit-unique : (n k k' : ℕ) → IsSplit n k → IsSplit n k' → k ≡ k'
IsSplit-unique n k k' (lt, le, e, h) (lt', le', e', h') = elim (order e e') [
  | inl same ↦ h ∙ ap (λ r. 2 ^ r) same ∙ sym h'
  | inr (inl (d, o)) ↦ absurd (too_big n e e' d (rw h at le) (rw h' at lt') o)
  | inr (inr (d, o)) ↦ absurd (too_big n e' e d (rw h' at le') (rw h at lt) o)
]

-- The split of a length from 3 on is even, and its half is the split of half the length.
pub IsSplit-half :
    (n k : ℕ) → 3 ≤ n → IsSplit n k → (j : ℕ) × (k ≡ 2 * j) × (1 ≤ j) × IsSplit ((n + 1) / 2) j
IsSplit-half n k three (lt, le, zero, h) = absurd (omega arith)
IsSplit-half n k three (lt, le, suc e, h) =
    let p = pow_step 2 e in (2 ^ e, omega arith, omega arith, (omega arith, omega arith, e, refl))

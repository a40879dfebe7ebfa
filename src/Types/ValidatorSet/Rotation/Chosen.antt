-- ===== src/Types/ValidatorSet/Rotation/Chosen.antt =====
-- `getValWithMostPriority` of types/validator_set.go finds a validator where addresses are distinct.
use relaychainmodel.Prelude.{
  Bool, Bool-cases, Option-cases, drop, drop-cons, List, Option, [], ap, arith, false, get_elem?,
  inl, inr, length, none, refl, if◌then◌else◌, some, suc, true, zero, ℕ, ◌+◌, ◌<◌, ◌∙◌, ◌∷◌, ◌≡◌,
  ◌≤◌,
}
use relaychainmodel.Prelude.Bytes.{bytes_eq, bytes_eq_refl}
use relaychainmodel.Types.ValidatorSet.{Validator, is_preferred}
use relaychainmodel.Types.ValidatorSet.Priorities.{most_from, val_with_most_priority}
use relaychainmodel.Types.ValidatorSet.Updates.Members.{IsUnique, bytes_lt-total, count}

-- Two validators of a list in which each address has one are at one position if they have one address.
count-at :
    (vs : List Validator) (i : ℕ) (v : Validator) → get_elem? vs i ≡ some v → 1 ≤ count v.address vs
unfolding count
count-at [] i v h = cc
count-at (w ∷ vs) zero v h =
    let e : w ≡ v = cc in let r = bytes_eq_refl v.address in rw (e, r) (omega arith)
count-at (w ∷ vs) (suc i) v h = let p = count-at vs i v h in omega arith

count-two :
    (vs : List Validator) (j k : ℕ) (a b : Validator)
    → get_elem? vs j ≡ some a
    → get_elem? vs k ≡ some b
    → j < k
    → bytes_eq a.address b.address ≡ true
    → 2 ≤ count b.address vs
unfolding count
count-two [] j k a b h g lt e = cc
count-two (w ∷ vs) zero zero a b h g lt e = absurd (omega arith)
count-two (w ∷ vs) zero (suc k) a b h g lt e =
    let same : w ≡ a = cc in let p = count-at vs k b g in rw (same, e) (omega arith)
count-two (w ∷ vs) (suc j) zero a b h g lt e = absurd (omega arith)
count-two (w ∷ vs) (suc j) (suc k) a b h g lt e =
    let p = count-two vs j k a b h g (omega arith) e in omega arith

is_preferred-some :
    (a b : Validator)
    → bytes_eq a.address b.address ≡ false
    → (x : Bool) × (is_preferred a b ≡ some x)
unfolding is_preferred
is_preferred-some a b h = elim (Option-cases (is_preferred a b)) [
  | inr found ↦ found
  | inl e ↦ absurd (ground (arith, bytes_lt-total a.address b.address))
]

-- A position of a list with what is there.
abbrev pub Stands : List Validator → ℕ × Validator → Type 0
Stands vs r = get_elem? vs r.0 ≡ some r.1

most_from-next :
    (i : ℕ) (res : ℕ × Validator) (v : Validator) (vs : List Validator) (keep : Bool)
    → is_preferred res.1 v ≡ some keep
    → most_from i res (v ∷ vs) ≡ most_from (i + 1) (if keep then res else (i, v)) vs
unfolding most_from
most_from-next i res v vs true h =
    ap {B = Option (ℕ × Validator)}
      (λ (o : Option Bool). elim o [
        | none ↦ none
        | some true ↦ most_from (i + 1) res vs
        | some false ↦ most_from (i + 1) (i, v) vs
      ])
      h
most_from-next i res v vs false h =
    ap {B = Option (ℕ × Validator)}
      (λ (o : Option Bool). elim o [
        | none ↦ none
        | some true ↦ most_from (i + 1) res vs
        | some false ↦ most_from (i + 1) (i, v) vs
      ])
      h

module _ (all : List Validator) (unique : IsUnique all) where
  most_from-Stands :
      (i : ℕ) (res : ℕ × Validator) (rest : List Validator)
      → Stands all res
      → res.0 < i
      → drop i all ≡ rest
      → (r : ℕ × Validator) × (most_from i res rest ≡ some r) × Stands all r
  unfolding most_from
  most_from-Stands i res [] at lt e = (res, refl, at)
  most_from-Stands i res (v ∷ vs) at lt e =
      let (here, after, within) = drop-cons i all v vs e in
      let one : i + 1 ≡ suc i = omega arith in
      elim (Bool-cases (bytes_eq res.1.address v.address)) [
        | inl same ↦
            absurd (omega (arith, unique v.address, count-two all res.0 i res.1 v at here lt same))
        | inr other ↦
            let (keep, f) = is_preferred-some res.1 v other in
            elim (Bool-cases keep) [
              | inl t ↦
                  let (r, g, stands) =
                    most_from-Stands (i + 1) res vs at (omega arith) (rw one after) in
                  (r, most_from-next i res v vs true (f ∙ ap some t) ∙ g, stands)
              | inr t ↦
                  let (r, g, stands) =
                    most_from-Stands (i + 1) (i, v) vs here (omega arith) (rw one after) in
                  (r, most_from-next i res v vs false (f ∙ ap some t) ∙ g, stands)
            ]
      ]

pub val_with_most_priority-Stands :
    (vs : List Validator)
    → IsUnique vs
    → 0 < length vs
    → (r : ℕ × Validator) × (val_with_most_priority vs ≡ some r) × Stands vs r
unfolding val_with_most_priority
val_with_most_priority-Stands [] unique h = absurd (omega arith)
val_with_most_priority-Stands (v ∷ vs) unique h =
    most_from-Stands (v ∷ vs) unique 1 (0, v) vs refl (omega arith) refl

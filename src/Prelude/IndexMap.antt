-- ===== src/Prelude/IndexMap.antt =====
-- A Go map whose keys are unsigned integers, as an association list.
use relaychainmodel.Prelude.{
  ◌≡◌, refl, Option, none, some, List, [], ◌∷◌, ℕ, suc, zero, ◌<◌, ◌≤◌, arith, ◌==◌, if◌then◌else◌,
  length, Bool-cases, inl, inr, false,
}

abbrev pub IndexMap {ℓ} : Type ℓ → Type ℓ
IndexMap V = List (ℕ × V)

module _ {ℓ} {V : Type ℓ} where
  unfoldable pub at : ℕ → IndexMap V → Option V
  at key [] = none
  at key (entry ∷ rest) = if entry.0 == key then some entry.1 else at key rest

  unfoldable pub put_at : ℕ → V → IndexMap V → IndexMap V
  put_at key value [] = (key, value) ∷ []
  put_at key value (entry ∷ rest) =
      let rest' = put_at key value rest in
      if entry.0 == key then (key, value) ∷ rest else entry ∷ rest'

  -- `delete`
  unfoldable pub delete : ℕ → IndexMap V → IndexMap V
  delete key [] = []
  delete key (entry ∷ rest) =
      let rest' = delete key rest in if entry.0 == key then rest' else entry ∷ rest'

  -- The keys are distinct, and below a bound.
  unfoldable pub IsMap : ℕ → IndexMap V → Type ℓ
  IsMap n [] = Unit
  IsMap n (entry ∷ rest) = (entry.0 < n) × (at entry.0 rest ≡ none) × IsMap n rest

  pub at-put_at :
      (key other : ℕ) (value : V) (m : IndexMap V)
      → at other (put_at key value m) ≡ (if key == other then some value else at other m)
  unfolding at put_at
  at-put_at key other value [] = refl
  at-put_at key other value (entry ∷ rest) = ground (arith, at-put_at key other value rest)

  pub at-delete :
      (key other : ℕ) (m : IndexMap V)
      → at other (delete key m) ≡ (if key == other then none else at other m)
  unfolding at delete
  at-delete key other [] = ground arith
  at-delete key other (entry ∷ rest) = ground (arith, at-delete key other rest)

  pub put_at-IsMap :
      (n key : ℕ) (value : V) (m : IndexMap V) → key < n → IsMap n m → IsMap n (put_at key value m)
  unfolding at put_at IsMap
  put_at-IsMap n key value [] h i = (h, refl, tt)
  put_at-IsMap n key value (entry ∷ rest) h (below, fresh, others) =
      elim (Bool-cases (entry.0 == key)) [
        | inl e ↦ let same : entry.0 ≡ key = ground arith in rw e (h, rw (← same) fresh, others)
        | inr e ↦
            let other : (key == entry.0) ≡ false = ground arith in
            rw e (
              below,
              rw (at-put_at key entry.0 value rest, other) fresh,
              put_at-IsMap n key value rest h others,
            )
      ]

  pub delete-IsMap : (n key : ℕ) (m : IndexMap V) → IsMap n m → IsMap n (delete key m)
  unfolding at delete IsMap
  delete-IsMap n key [] i = tt
  delete-IsMap n key (entry ∷ rest) (below, fresh, others) = elim (Bool-cases (entry.0 == key)) [
    | inl e ↦ rw e (delete-IsMap n key rest others)
    | inr e ↦
        let other : (key == entry.0) ≡ false = ground arith in
        rw e (below, rw (at-delete key entry.0 rest, other) fresh, delete-IsMap n key rest others)
  ]

  length-put_at :
      (key : ℕ) (value : V) (m : IndexMap V)
      → at key m ≡ none
      → length (put_at key value m) ≡ suc (length m)
  unfolding at put_at
  length-put_at key value [] h = refl
  length-put_at key value (entry ∷ rest) h = elim (Bool-cases (entry.0 == key)) [
    | inl e ↦ absurd (ground arith)
    | inr e ↦ rw e (omega (arith, length-put_at key value rest (ground arith)))
  ]

  length-delete-missing : (key : ℕ) (m : IndexMap V) → at key m ≡ none → delete key m ≡ m
  unfolding at delete
  length-delete-missing key [] h = refl
  length-delete-missing key (entry ∷ rest) h = elim (Bool-cases (entry.0 == key)) [
    | inl e ↦ absurd (ground arith)
    | inr e ↦ let same = length-delete-missing key rest (ground arith) in ground (arith, same)
  ]

  -- Below a bound, without the last key.
  narrow : (n : ℕ) (m : IndexMap V) → IsMap (suc n) m → IsMap n (delete n m)
  unfolding at delete IsMap
  narrow n [] i = tt
  narrow n (entry ∷ rest) (below, fresh, others) = elim (Bool-cases (entry.0 == n)) [
    | inl e ↦ rw e (narrow n rest others)
    | inr e ↦
        let other : (n == entry.0) ≡ false = ground arith in
        rw e (ground arith, rw (at-delete n entry.0 rest, other) fresh, narrow n rest others)
  ]

  length-delete : (n key : ℕ) (m : IndexMap V) → IsMap n m → length m ≤ suc (length (delete key m))
  unfolding at delete IsMap
  length-delete n key [] i = omega arith
  length-delete n key (entry ∷ rest) (below, fresh, others) = elim (Bool-cases (entry.0 == key)) [
    | inl e ↦
        let same : entry.0 ≡ key = ground arith in
        let kept = length-delete-missing key rest (rw (← same) fresh) in rw (e, kept) (omega arith)
    | inr e ↦ rw e (omega (arith, length-delete n key rest others))
  ]

  IsMap-length : (n : ℕ) (m : IndexMap V) → IsMap n m → length m ≤ n
  unfolding IsMap
  IsMap-length zero [] i = omega arith
  IsMap-length zero (entry ∷ rest) i = absurd (omega (arith, i.0))
  IsMap-length (suc n) m i =
      omega (arith, length-delete (suc n) n m i, IsMap-length n (delete n m) (narrow n m i))

  -- A map that has as many entries as there are keys has them all.
  pub IsMap-full :
      (n key : ℕ) (value : V) (m : IndexMap V)
      → IsMap n m
      → n ≤ length m
      → key < n
      → at key m ≡ none
      → ⊥
  IsMap-full n key value m i full below missing = omega (
    arith,
    IsMap-length n (put_at key value m) (put_at-IsMap n key value m below i),
    length-put_at key value m missing,
  )

  pub at-delete-some :
      (key other : ℕ) (value : V) (m : IndexMap V)
      → at other (delete key m) ≡ some value
      → at other m ≡ some value
  at-delete-some key other value m h = ground (arith, at-delete key other m)

  pub at-nil : (m : IndexMap V) (key : ℕ) (value : V) → m ≡ [] → at key m ≡ some value → ⊥
  unfolding at
  at-nil [] key value e h = ground arith
  at-nil (entry ∷ rest) key value e h = ground arith

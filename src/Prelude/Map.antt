-- ===== src/Prelude/Map.antt =====
-- A Go map whose keys are strings, as an association list.
use relaychainmodel.Prelude.{◌≡◌, refl, Option, none, some, List, [], ◌∷◌, arith, if◌then◌else◌}
use relaychainmodel.Prelude.Bytes.{Bytes, bytes_eq, bytes_eq_iff}

abbrev pub Map {ℓ} : Type ℓ → Type ℓ
Map V = List (Bytes × V)

module _ {ℓ} {V : Type ℓ} where
  unfoldable pub lookup : Bytes → Map V → Option V
  lookup key [] = none
  lookup key (entry ∷ rest) = if bytes_eq entry.0 key then some entry.1 else lookup key rest

  unfoldable pub insert : Bytes → V → Map V → Map V
  insert key value [] = (key, value) ∷ []
  insert key value (entry ∷ rest) =
      if bytes_eq entry.0 key then (key, value) ∷ rest else entry ∷ insert key value rest

  pub lookup-insert :
      (key other : Bytes) (value : V) (m : Map V)
      → lookup other (insert key value m)
        ≡ (if bytes_eq key other then some value else lookup other m)
  unfolding lookup insert
  lookup-insert key other value [] = refl
  lookup-insert key other value (entry ∷ rest) = ground (
    arith,
    bytes_eq_iff key other,
    bytes_eq_iff entry.0 key,
    bytes_eq_iff entry.0 other,
    lookup-insert key other value rest,
  )

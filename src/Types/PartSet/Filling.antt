-- ===== src/Types/PartSet/Filling.antt =====
-- Lists of parts (types/part_set.go): how many are there, and the bytes that a full list reads as.
use relaychainmodel.Prelude.{
  List, Option, [], arith, drop, get_elem?, get_or, length, length-drop, none, refl, replicate, set,
  some, suc, take, take-append-drop, zero, ℕ, ◌++◌, ◌+◌, ◌*◌, ◌-◌, ◌/◌, ◌<◌, ◌∷◌, ◌≡◌, ◌≤◌,
}
use native.Mathlib.Nat.{div-add-mod', mod-lt}
use relaychainmodel.Prelude.Bytes.{Bytes}
use relaychainmodel.Types.PartSet.{Part, read_parts}

-- The number of the parts that are there.
unfoldable pub filled : List (Option Part) → ℕ
filled [] = 0
filled (none ∷ ps) = filled ps
filled (some p ∷ ps) = suc (filled ps)

pub filled-le : (ps : List (Option Part)) → filled ps ≤ length ps
unfolding filled
filled-le [] = omega arith
filled-le (none ∷ ps) = omega (arith, filled-le ps)
filled-le (some p ∷ ps) = omega (arith, filled-le ps)

pub filled-replicate : (n : ℕ) → filled (replicate n none) ≡ 0
unfolding filled
filled-replicate zero = refl
filled-replicate (suc n) = filled-replicate n

pub filled-set :
    (ps : List (Option Part)) (i : ℕ) (p : Part)
    → i < length ps
    → get_or ps i none ≡ none
    → filled (set ps i (some p)) ≡ suc (filled ps)
unfolding filled
filled-set [] i p h e = absurd (omega arith)
filled-set (none ∷ ps) zero p h e = refl
filled-set (some q ∷ ps) zero p h e = cc
filled-set (none ∷ ps) (suc i) p h e = filled-set ps i p (omega arith) e
filled-set (some q ∷ ps) (suc i) p h e = omega (arith, filled-set ps i p (omega arith) e)

-- All items, one after the other.
unfoldable pub flat : List Bytes → Bytes
flat [] = []
flat (b ∷ bs) = b ++ flat bs

-- Parts that are all there and hold the items are read as these.
pub read_parts-flat :
    (ps : List (Option Part)) (items : List Bytes)
    → length ps ≡ length items
    → filled ps ≡ length ps
    → ((i : ℕ) (p : Part) → get_elem? ps i ≡ some (some p) → get_elem? items i ≡ some p.bytes)
    → read_parts ps ≡ some (flat items)
unfolding read_parts flat filled
read_parts-flat [] [] n c h = refl
read_parts-flat [] (b ∷ bs) n c h = absurd (omega arith)
read_parts-flat (none ∷ ps) items n c h = absurd (omega (arith, filled-le ps))
read_parts-flat (some p ∷ ps) [] n c h = absurd (omega arith)
read_parts-flat (some p ∷ ps) (b ∷ bs) n c h =
    let tail = read_parts-flat ps bs (omega arith) (omega arith) (λ i q e. h (suc i) q e) in
    let first = h 0 p refl in ground arith

-- A number of chunks of a size, one after the other.
unfoldable pub chunks : ℕ → ℕ → Bytes → List Bytes
chunks zero size bytes = []
chunks (suc n) size bytes = take size bytes ∷ chunks n size (drop size bytes)

pub flat-chunks :
    (n size : ℕ) (bytes : Bytes) → length bytes ≤ n * size → flat (chunks n size bytes) ≡ bytes
unfolding flat chunks
flat-chunks zero size [] h = refl
flat-chunks zero size (b ∷ bytes) h = absurd (omega arith)
flat-chunks (suc n) size bytes h =
    rw (flat-chunks n size (drop size bytes) (omega (arith, length-drop size bytes)))
      (take-append-drop size bytes)

pub length-chunks : (n size : ℕ) (bytes : Bytes) → length (chunks n size bytes) ≡ n
unfolding chunks
length-chunks zero size bytes = refl
length-chunks (suc n) size bytes = omega (arith, length-chunks n size (drop size bytes))

-- The parts of a size that data needs are enough for it.
pub parts-enough : (n size : ℕ) → 0 < size → n ≤ (n + size - 1) / size * size
parts-enough n size h =
    let q = div-add-mod' (n + size - 1) size in
    let r = mod-lt (n + size - 1) h in omega (arith, q, r)

pub factor-positive : (n k size : ℕ) → 0 < n → n ≤ k * size → 0 < k
factor-positive n zero size some_of h = absurd (omega arith)
factor-positive n (suc k) size some_of h = omega arith

pub cons_of :
    (ps : List (Option Part))
    → 0 < length ps
    → (p : Option Part) × (qs : List (Option Part)) × (ps ≡ p ∷ qs)
cons_of [] h = absurd (omega arith)
cons_of (p ∷ ps) h = (p, ps, refl)

pub get_elem?-replicate : (n i : ℕ) (p : Part) → get_elem? (replicate n none) i ≡ some (some p) → ⊥
get_elem?-replicate zero i p e = cc
get_elem?-replicate (suc n) zero p e = cc
get_elem?-replicate (suc n) (suc i) p e = get_elem?-replicate n i p e

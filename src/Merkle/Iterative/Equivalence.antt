-- ===== src/Merkle/Iterative/Equivalence.antt =====
-- Hashing level by level gives the hash of the recursive tree. The split points of a level and of the
-- level above it agree, so that a pass commutes with the split.
use relaychainmodel.Prelude.{
  List, Option, [], none, arith, ap, drop, get_elem?, length, length-drop, length-map, length-take,
  map, refl, some, suc, sym, take, take-append-drop, zero, ℕ, ◌++◌, ◌+◌, ◌*◌, ◌/◌, ◌<◌, ◌∙◌, ◌∷◌,
  ◌≡◌, ◌≤◌,
}
use relaychainmodel.Prelude.Bytes.{Bytes}
use relaychainmodel.Prelude.Int64.{two63}
use relaychainmodel.Merkle.Iterative.Halves.{IsSplit-half, IsSplit-unique}
use relaychainmodel.Merkle.Split.{split_point-bounds}
use relaychainmodel.Merkle.{
  bits_len, empty_hash, hash_from_byte_slices, hash_on, inner_hash, leaf_hash, split_point,
}
use relaychainmodel.Merkle.Iterative.{hash_from_byte_slices_iterative, level_on, levels_on}
use relaychainmodel.Merkle.Iterative.Levels.{
  length-pair_up, level_on-pair_up, pair_up, pair_up-append,
}

module _ {ℓ} {A : Type ℓ} where
  map-take {κ} :
      {B : Type κ} (f : A → B) (n : ℕ) (xs : List A) → map f (take n xs) ≡ take n (map f xs)
  map-take f zero xs = refl
  map-take f (suc n) [] = refl
  map-take f (suc n) (x ∷ xs) = ap (λ r. f x ∷ r) (map-take f n xs)

  map-drop {κ} :
      {B : Type κ} (f : A → B) (n : ℕ) (xs : List A) → map f (drop n xs) ≡ drop n (map f xs)
  map-drop f zero xs = refl
  map-drop f (suc n) [] = refl
  map-drop f (suc n) (x ∷ xs) = map-drop f n xs

  take-all : (xs : List A) → take (length xs) xs ≡ xs
  take-all [] = refl
  take-all (x ∷ xs) = ap (λ r. x ∷ r) (take-all xs)

  take-one : (xs : List A) (x : A) → take 1 xs ≡ x ∷ [] → get_elem? xs 0 ≡ some x
  take-one [] x h = absurd cc
  take-one (y ∷ ys) x h = cc

  -- Lists that make a list up are its parts at the length of the first.
  parts :
      (k : ℕ) (xs ys zs : List A)
      → zs ≡ xs ++ ys
      → length xs ≡ k
      → (take k zs ≡ xs) × (drop k zs ≡ ys)
  parts zero [] ys zs h n = (refl, h)
  parts zero (x ∷ xs) ys zs h n = absurd (omega arith)
  parts (suc k) [] ys zs h n = absurd (omega arith)
  parts (suc k) (x ∷ xs) ys [] h n = absurd cc
  parts (suc k) (x ∷ xs) ys (z ∷ zs) h n =
      let n' : length xs ≡ k = omega arith in let (a, b) = parts k xs ys zs (cc) n' in (cc, b)

module _ (sum : Bytes → Bytes) where
  -- The tree over hashes, as `hash_on` is the tree over items.
  tree_on : ℕ → List Bytes → Bytes
  tree_on zero hs = empty_hash sum
  tree_on (suc fuel) [] = empty_hash sum
  tree_on (suc fuel) (x ∷ []) = x
  tree_on (suc fuel) (x ∷ y ∷ zs) =
      let hs = x ∷ y ∷ zs in
      let k = split_point (length hs) in
      inner_hash sum (tree_on fuel (take k hs)) (tree_on fuel (drop k hs))

  hash_on-tree :
      (fuel : ℕ) (items : List Bytes)
      → hash_on sum fuel items ≡ tree_on fuel (map (leaf_hash sum) items)
  unfolding hash_on tree_on
  hash_on-tree zero items = refl
  hash_on-tree (suc fuel) [] = refl
  hash_on-tree (suc fuel) (x ∷ []) = refl
  hash_on-tree (suc fuel) (x ∷ y ∷ zs) =
      let items = x ∷ y ∷ zs in
      let k = split_point (length items) in
      let l = hash_on-tree fuel (take k items) in
      let r = hash_on-tree fuel (drop k items) in
      rw (
        l,
        r,
        map-take (leaf_hash sum) k items,
        map-drop (leaf_hash sum) k items,
        length-map zs (leaf_hash sum),
      )

  tree_on-split :
      (fuel : ℕ) (hs : List Bytes)
      → 2 ≤ length hs
      → tree_on (suc fuel) hs
        ≡ inner_hash sum
            (tree_on fuel (take (split_point (length hs)) hs))
            (tree_on fuel (drop (split_point (length hs)) hs))
  unfolding tree_on
  tree_on-split fuel [] h = absurd (omega arith)
  tree_on-split fuel (x ∷ []) h = absurd (omega arith)
  tree_on-split fuel (x ∷ y ∷ zs) h = refl

  -- A pass does not change the hash of the tree.
  abbrev Passes : ℕ → ℕ → List Bytes → Type 0
  Passes f g hs =
      length hs ≤ f
      → length (pair_up sum hs) ≤ g
      → length hs < two63
      → tree_on f hs ≡ tree_on g (pair_up sum hs)

  -- The split of the level above is half the split.
  split_point-pair_up :
      (hs : List Bytes)
      → 3 ≤ length hs
      → length hs < two63
      → (split_point (length hs) ≡ 2 * split_point (length (pair_up sum hs)))
        × (split_point (length hs) < length hs)
        × (1 ≤ split_point (length hs))
  split_point-pair_up hs three small =
      let n = length hs in
      let s = split_point-bounds n (omega arith) small in
      let (j, double, least, half) = IsSplit-half n (split_point n) three s in
      let m = length-pair_up sum hs in
      let s' = split_point-bounds ((n + 1) / 2) (omega arith) (omega arith) in
      let same = IsSplit-unique ((n + 1) / 2) j (split_point ((n + 1) / 2)) half s' in
      (rw (m, sym same, double) refl, s.0, omega arith)

  pass-step :
      (f g : ℕ) (hs : List Bytes)
      → 3 ≤ length hs
      → ((xs : List Bytes) → Passes f g xs)
      → Passes (suc f) (suc g) hs
  pass-step f g hs three ih lf lg small =
      let n = length hs in
      let k = split_point n in
      let (double, below, least) = split_point-pair_up hs three small in
      let j = split_point (length (pair_up sum hs)) in
      let lt = length-take k hs in
      let ld = length-drop k hs in
      let m = length-pair_up sum hs in
      let mt = length-pair_up sum (take k hs) in
      let md = length-pair_up sum (drop k hs) in
      let joined : pair_up sum hs ≡ pair_up sum (take k hs) ++ pair_up sum (drop k hs) =
        ap (pair_up sum) (sym (take-append-drop k hs))
        ∙ pair_up-append sum j (take k hs) (drop k hs) (omega arith) in
      let (l, r) =
        parts j (pair_up sum (take k hs)) (pair_up sum (drop k hs)) (pair_up sum hs) joined
          (omega arith) in
      let left = ih (take k hs) (omega arith) (omega arith) (omega arith) in
      let right = ih (drop k hs) (omega arith) (omega arith) (omega arith) in
      tree_on-split f hs (omega arith)
      ∙ rw (tree_on-split g (pair_up sum hs) (omega arith), left, right, l, r) refl

  tree_on-pair_up : (f g : ℕ) (hs : List Bytes) → Passes f g hs
  unfolding tree_on split_point bits_len
  tree_on-pair_up zero zero [] lf lg small = refl
  tree_on-pair_up zero (suc g) [] lf lg small = refl
  tree_on-pair_up (suc f) zero [] lf lg small = refl
  tree_on-pair_up (suc f) (suc g) [] lf lg small = refl
  tree_on-pair_up zero g (x ∷ xs) lf lg small = absurd (omega arith)
  tree_on-pair_up (suc f) zero (x ∷ []) lf lg small = absurd (omega arith)
  tree_on-pair_up (suc f) (suc g) (x ∷ []) lf lg small = refl
  tree_on-pair_up (suc zero) g (x ∷ y ∷ zs) lf lg small = absurd (omega arith)
  tree_on-pair_up (suc (suc f)) zero (x ∷ y ∷ zs) lf lg small = absurd (omega arith)
  tree_on-pair_up (suc (suc f)) (suc g) (x ∷ y ∷ []) lf lg small = refl
  tree_on-pair_up (suc (suc f)) (suc g) (x ∷ y ∷ z ∷ zs) lf lg small =
      pass-step (suc f) g (x ∷ y ∷ z ∷ zs) (omega arith) (tree_on-pair_up (suc f) g) lf lg small

  levels_on-next :
      (fuel n size : ℕ) (items items' : List Bytes)
      → level_on sum (suc (suc (suc n))) (suc (suc n)) 0 0 items ≡ some (items', size)
      → levels_on sum (suc fuel) (suc (suc n)) items ≡ levels_on sum fuel size items'
  unfolding levels_on
  levels_on-next fuel n size items items' h =
      ap {B = Option Bytes}
        (λ (o : Option (List Bytes × ℕ)). elim o [
          | none ↦ none
          | some (next, size) ↦ levels_on sum fuel size next
        ])
        h

  levels_on-tree :
      (fuel f : ℕ) (hs items : List Bytes)
      → length hs < fuel
      → length hs ≤ f
      → length hs < two63
      → take (length hs) items ≡ hs
      → levels_on sum fuel (length hs) items ≡ some (tree_on f hs)
  unfolding levels_on tree_on
  levels_on-tree zero f hs items lt le small e = absurd (omega arith)
  levels_on-tree (suc fuel) zero [] items lt le small e = refl
  levels_on-tree (suc fuel) (suc f) [] items lt le small e = refl
  levels_on-tree (suc fuel) zero (x ∷ xs) items lt le small e = absurd (omega arith)
  levels_on-tree (suc fuel) (suc f) (x ∷ []) items lt le small e = take-one items x e
  levels_on-tree (suc fuel) (suc f) (x ∷ y ∷ zs) items lt le small e =
      let hs = x ∷ y ∷ zs in
      let (items', ran, written) = level_on-pair_up sum (length hs) items hs refl e in
      let m = length-pair_up sum hs in
      let higher =
        levels_on-tree fuel (suc f) (pair_up sum hs) items' (omega arith) (omega arith)
          (omega arith) written in
      let same = tree_on-pair_up (suc f) (suc f) hs le (omega arith) small in
      levels_on-next fuel (length zs) (length (pair_up sum hs)) items items' ran
      ∙ (higher ∙ ap some (sym same))

  -- HashFromByteSlicesIterative returns, without reading out of range, the hash of
  -- HashFromByteSlices, for fewer than 2 ^ 63 items.
  pub hash_from_byte_slices_iterative_lem :
      (input : List Bytes)
      → length input < two63
      → hash_from_byte_slices_iterative sum input ≡ some (hash_from_byte_slices sum input)
  unfolding hash_from_byte_slices_iterative hash_from_byte_slices
  hash_from_byte_slices_iterative_lem input small =
      let hashes = map (leaf_hash sum) input in
      let n = length-map input (leaf_hash sum) in
      levels_on-tree (suc (length hashes)) (length input) hashes hashes (omega arith) (omega arith)
        (omega arith) (take-all hashes)
      ∙ ap some (sym (hash_on-tree (length input) input))

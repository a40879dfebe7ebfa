-- ===== src/Types/PartSet/Slicing.antt =====
-- The slices of NewPartSetFromData (types/part_set.go): where the arithmetic in 32 bits does not wrap,
-- they are the chunks of the data.
use relaychainmodel.Prelude.{
  [], arith, drop, false, length, length-drop, ltb, refl, some, suc, take, sym, zero, ℕ, ◌%◌, ◌*◌,
  ◌+◌, ◌-◌, ◌/◌, ◌<◌, ◌==◌, ◌∙◌, ◌∷◌, ◌≡◌, ◌≤◌, ap,
}
use native.Mathlib.Nat.{div-add-mod'}
use Prim.Native.Nat.{min}
use relaychainmodel.Prelude.Bytes.{Bytes}
use relaychainmodel.Types.PartSet.{
  full_part_set, new_part_set_from_data, part_bytes, slices_from, total_parts, two32,
}
use relaychainmodel.Types.PartSet.Filling.{chunks}

take-min : (n : ℕ) (bytes : Bytes) → take (min (length bytes) n) bytes ≡ take n bytes
take-min zero [] = refl
take-min zero (b ∷ bytes) = let e : min (suc (length bytes)) 0 ≡ 0 = omega arith in rw e refl
take-min (suc n) [] = let e : min 0 (suc n) ≡ 0 = omega arith in rw e refl
take-min (suc n) (b ∷ bytes) =
    let e : min (suc (length bytes)) (suc n) ≡ suc (min (length bytes) n) = omega arith in
    rw (e, take-min n bytes) refl

drop-nil : (n : ℕ) (bytes : Bytes) → length bytes ≡ 0 → drop n bytes ≡ bytes
drop-nil n (b ∷ bytes) e = absurd (omega arith)
drop-nil zero [] e = refl
drop-nil (suc n) [] e = refl

drop-drop : (n m : ℕ) (bytes : Bytes) → drop n (drop m bytes) ≡ drop (m + n) bytes
drop-drop n zero bytes = let e : 0 + n ≡ n = omega arith in rw e refl
drop-drop n (suc m) [] = let e : suc m + n ≡ suc (m + n) = omega arith in rw e (drop-nil n [] refl)
drop-drop n (suc m) (b ∷ bytes) =
    let e : suc m + n ≡ suc (m + n) = omega arith in rw (e, drop-drop n m bytes) refl

wrapped : (n : ℕ) → n < two32 → n % two32 ≡ n
wrapped n h = omega arith

total_parts-exact :
    (n size : ℕ) → 0 < size → n + size ≤ two32 → total_parts n size ≡ some ((n + size - 1) / size)
unfolding total_parts
total_parts-exact n size some_size small =
    let e : ((n % two32 + size) % two32 + (two32 - 1)) % two32 ≡ n + size - 1 = omega arith in
    let f : (size == 0) ≡ false = ground arith in rw (e, f) refl

-- The parts cover the data with less than a part to spare.
pub parts-bound : (n size : ℕ) → 0 < size → (n + size - 1) / size * size < n + size
parts-bound n size h = let q = div-add-mod' (n + size - 1) size in omega (arith, q)

part_bytes-exact :
    (bytes : Bytes) (size i : ℕ)
    → i * size ≤ length bytes
    → (i + 1) * size < two32
    → i + 1 < two32
    → part_bytes bytes size i ≡ some (take size (drop (i * size) bytes))
unfolding part_bytes
part_bytes-exact bytes size i below small count =
    let after : (i + 1) * size ≡ i * size + size = grind arith in
    let low : i * size % two32 ≡ i * size = wrapped (i * size) (omega arith) in
    let next : (i + 1) % two32 ≡ i + 1 = wrapped (i + 1) count in
    let high : (i + 1) * size % two32 ≡ (i + 1) * size = wrapped ((i + 1) * size) small in
    let ordered : ltb (min (length bytes) (i * size + size)) (i * size) ≡ false = ground arith in
    let left = length-drop (i * size) bytes in
    let width : min (length bytes) (i * size + size) - i * size
        ≡ min (length (drop (i * size) bytes)) size =
      omega arith in
    rw (low, next, high, after, ordered, width) (ap some (take-min size (drop (i * size) bytes)))

pub le-product : (i size : ℕ) → 0 < size → i ≤ i * size
le-product i zero h = absurd (omega arith)
le-product i (suc m) h = let e : i * suc m ≡ i + i * m = grind arith in omega arith

slices_from-exact :
    (bytes : Bytes) (size n i : ℕ)
    → 0 < size
    → (i + n) * size < length bytes + size
    → length bytes + size ≤ two32
    → slices_from bytes size n i ≡ some (chunks n size (drop (i * size) bytes))
unfolding slices_from chunks
slices_from-exact bytes size zero i some_size bound small = refl
slices_from-exact bytes size (suc n) i some_size bound small =
    let after : (i + 1) * size ≡ i * size + size = grind arith in
    let all : (i + suc n) * size ≡ i * size + size + n * size = grind arith in
    let shift : (i + 1 + n) * size ≡ i * size + size + n * size = grind arith in
    let wide = le-product (i + 1) size some_size in
    let first = part_bytes-exact bytes size i (omega arith) (omega arith) (omega arith) in
    let onward = drop-drop size (i * size) bytes in
    let rest : slices_from bytes size n (i + 1)
        ≡ some (chunks n size (drop size (drop (i * size) bytes))) =
      slices_from-exact bytes size n (i + 1) some_size (omega arith) small
      ∙ ap (λ d. some (chunks n size d)) (ap (λ j. drop j bytes) after ∙ sym onward) in
    ground (arith, first, rest)

module _ (sum : Bytes → Bytes) where
  pub new_part_set_from_data-chunks :
      (bytes : Bytes) (size : ℕ)
      → 0 < size
      → length bytes + size ≤ two32
      → let total = (length bytes + size - 1) / size in
        new_part_set_from_data sum bytes size
        ≡ some (full_part_set sum (chunks total size bytes) total (length bytes))
  unfolding new_part_set_from_data
  new_part_set_from_data-chunks bytes size some_size small =
      let total = (length bytes + size - 1) / size in
      let from : 0 + total ≡ total = omega arith in
      let none_before : 0 * size ≡ 0 = omega arith in
      let slices : slices_from bytes size total 0 ≡ some (chunks total size bytes) =
        slices_from-exact bytes size total 0 some_size
          (rw from (parts-bound (length bytes) size some_size)) small
        ∙ ap (λ j. some (chunks total size (drop j bytes))) none_before in
      let counted = total_parts-exact (length bytes) size some_size small in
      ground (arith, counted, slices)

-- ===== src/SafeMath.antt =====
-- Checked arithmetic: libs/math/safemath.go, libs/math/fraction.go (the type) and the `safe`
-- functions at the end of types/validator_set.go. An int64 is an integer within its range.
use relaychainmodel.Prelude.{
  Bool, Option, arith, false, if◌then◌else◌, none, some, true, ℕ, ◌&&◌, ◌*◌, ◌/◌, ◌<◌, ◌||◌, ◌≡◌,
  ◌≤◌, ◌⊎◌,
}
use relaychainmodel.Prelude.Int.{eq_ℤ, ltb_ℤ, negsuc, pos, ℤ, ◌+ℤ◌, ◌-ℤ◌, ◌≤ℤ◌}
use relaychainmodel.Prelude.Int64.{
  abs_int64, max_int64, min_int64, mul_int64, quot_int64, quot_int64-pos, two63,
}

-- `Fraction`, of two uint64s.
pub record Fraction : Type 0 where
  pub numerator : ℕ
  pub denominator : ℕ

-- `safeMul`: the product, and whether it overflowed.
unfoldable pub safe_mul : ℤ → ℤ → ℤ × Bool
safe_mul a b =
    if eq_ℤ a (pos 0) || eq_ℤ b (pos 0)
    then (pos 0, false)
    else if ltb_ℤ (quot_int64 (pos max_int64) (abs_int64 b)) (abs_int64 a)
    then (pos 0, true)
    else (mul_int64 a b, false)

-- `safeAdd` and `safeSub`: the sum or difference, and whether it overflowed.
unfoldable pub safe_add : ℤ → ℤ → ℤ × Bool
safe_add a b =
    if ltb_ℤ (pos 0) b && ltb_ℤ (pos max_int64 -ℤ b) a
    then (negsuc 0, true)
    else if ltb_ℤ b (pos 0) && ltb_ℤ a (min_int64 -ℤ b)
    then (negsuc 0, true)
    else (a +ℤ b, false)

unfoldable pub safe_sub : ℤ → ℤ → ℤ × Bool
safe_sub a b =
    if ltb_ℤ (pos 0) b && ltb_ℤ a (min_int64 +ℤ b)
    then (negsuc 0, true)
    else if ltb_ℤ b (pos 0) && ltb_ℤ (pos max_int64 +ℤ b) a
    then (negsuc 0, true)
    else (a -ℤ b, false)

-- `safeAddClip` and `safeSubClip`
unfoldable pub safe_add_clip : ℤ → ℤ → ℤ
unfolding safe_add
safe_add_clip a b =
    let (c, overflow) = safe_add a b in
    if overflow then (if ltb_ℤ b (pos 0) then min_int64 else pos max_int64) else c

unfoldable pub safe_sub_clip : ℤ → ℤ → ℤ
unfolding safe_sub
safe_sub_clip a b =
    let (c, overflow) = safe_sub a b in
    if overflow then (if ltb_ℤ (pos 0) b then min_int64 else pos max_int64) else c

-- An integer moved to the nearest int64.
abbrev pub clamp : ℤ → ℤ
clamp x =
    if ltb_ℤ x min_int64 then min_int64 else if ltb_ℤ (pos max_int64) x then pos max_int64 else x

abbrev pub IsInt64 : ℤ → Type 0
IsInt64 x = (min_int64 ≤ℤ x) × (x ≤ℤ pos max_int64)

-- On all int64s, the clipping operations give the int64 that is nearest to the exact result.
pub clip_exact :
    (a b : ℤ)
    → IsInt64 a
    → IsInt64 b
    → (safe_add_clip a b ≡ clamp (a +ℤ b)) × (safe_sub_clip a b ≡ clamp (a -ℤ b))
unfolding safe_add_clip safe_sub_clip
clip_exact (pos a) (pos b) ha hb = (ground arith, ground arith)
clip_exact (pos a) (negsuc b) ha hb = (ground arith, ground arith)
clip_exact (negsuc a) (pos b) ha hb = (ground arith, ground arith)
clip_exact (negsuc a) (negsuc b) ha hb = (ground arith, ground arith)

-- On numbers that are not negative: overflow is reported exactly where the product leaves int64, and
-- otherwise the product is exact.
le_div→mul_le : (a b m : ℕ) → 0 < b → a ≤ m / b → a * b ≤ m
le_div→mul_le a b m h k = grind arith

lt_div→lt_mul : (a b m : ℕ) → 0 < b → m / b < a → m < a * b
lt_div→lt_mul a b m h k = grind arith

pub mul_int64-pos : (a b : ℕ) → a * b < two63 → mul_int64 (pos a) (pos b) ≡ pos (a * b)
unfolding mul_int64
mul_int64-pos a b h = ground arith

pub safe_mul_lem :
    (a b : ℕ)
    → a < two63
    → b < two63
    → ((a * b < two63) × (safe_mul (pos a) (pos b) ≡ (pos (a * b), false)))
      ⊎ ((two63 ≤ a * b) × ((safe_mul (pos a) (pos b)).1 ≡ true))
unfolding safe_mul
safe_mul_lem a b ha hb = ground (
  arith,
  quot_int64-pos max_int64 b,
  mul_int64-pos a b,
  le_div→mul_le a b max_int64,
  lt_div→lt_mul a b max_int64,
)

abbrev pub max_int32 : ℕ
max_int32 = 2147483647

abbrev pub min_int32 : ℤ
min_int32 = negsuc max_int32

-- `SafeAddInt32` and `SafeSubInt32`; `none` is a panic.
unfoldable pub safe_add_int32 : ℤ → ℤ → Option ℤ
safe_add_int32 a b =
    if ltb_ℤ (pos 0) b && ltb_ℤ (pos max_int32 -ℤ b) a
    then none
    else if ltb_ℤ b (pos 0) && ltb_ℤ a (min_int32 -ℤ b)
    then none
    else some (a +ℤ b)

unfoldable pub safe_sub_int32 : ℤ → ℤ → Option ℤ
safe_sub_int32 a b =
    if ltb_ℤ (pos 0) b && ltb_ℤ a (min_int32 +ℤ b)
    then none
    else if ltb_ℤ b (pos 0) && ltb_ℤ (pos max_int32 +ℤ b) a
    then none
    else some (a -ℤ b)

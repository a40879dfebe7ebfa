-- ===== src/Prelude/Int64.antt =====
-- int64 arithmetic. A number below 2 ^ 64 is the bit pattern of an int64, and `to_int64` reads it.
use relaychainmodel.Prelude.{
  ℕ, suc, ◌+◌, ◌-◌, ◌*◌, ◌/◌, ◌%◌, ◌<◌, ◌≡◌, Bool, true, false, arith, ltb, ◌==◌, if◌then◌else◌,
}
use relaychainmodel.Prelude.Int.{ℤ, pos, negsuc, pos_part, neg_part, ltb_ℤ}

abbrev pub two63 : ℕ
two63 = 9223372036854775808

abbrev pub two64 : ℕ
two64 = 18446744073709551616

abbrev pub max_int64 : ℕ
max_int64 = 9223372036854775807

-- The conversion `int64(u)`.
abbrev pub to_int64 : ℕ → ℤ
to_int64 n = let m = n % two64 in if ltb m two63 then pos m else negsuc (two64 - 1 - m)

-- The sum of two int64s as a bit pattern.
abbrev pub add_int64 : ℕ → ℕ → ℕ
add_int64 a b = (a + b) % two64

pub to_int64-eq : (n : ℕ) → n < two63 → to_int64 n ≡ pos n
to_int64-eq n h = ground arith

pub add_int64-eq : (a b : ℕ) → a + b < two63 → add_int64 a b ≡ a + b
add_int64-eq a b h = omega arith

abbrev pub min_int64 : ℤ
min_int64 = negsuc max_int64

-- `-b` on int64: the least value has no negation and stays.
abbrev pub neg_int64 : ℤ → ℤ
neg_int64 (pos n) = if n == 0 then pos 0 else negsuc (n - 1)
neg_int64 (negsuc n) = if n == max_int64 then negsuc n else pos (suc n)

abbrev pub abs_int64 : ℤ → ℤ
abs_int64 b = if ltb_ℤ b (pos 0) then neg_int64 b else b

sign : Bool → ℕ → ℤ
sign true n = if n == 0 then pos 0 else negsuc (n - 1)
sign false n = pos n

abs : ℤ → ℕ
abs a = pos_part a + neg_part a

xor : Bool → Bool → Bool
xor true b = if b then false else true
xor false b = b

-- The product and the quotient truncated towards zero, as integers.
unfoldable pub mul : ℤ → ℤ → ℤ
unfolding sign abs xor
mul a b = sign (xor (ltb_ℤ a (pos 0)) (ltb_ℤ b (pos 0))) (abs a * abs b)

unfoldable pub quot : ℤ → ℤ → ℤ
unfolding sign abs xor
quot a b = sign (xor (ltb_ℤ a (pos 0)) (ltb_ℤ b (pos 0))) (abs a / abs b)

-- An integer reduced to an int64.
unfoldable pub wrap_int64 : ℤ → ℤ
wrap_int64 (pos n) = to_int64 n
wrap_int64 (negsuc n) = to_int64 (two64 - 1 - n % two64)

-- `a * b` and `a / b` on int64.
unfoldable pub mul_int64 : ℤ → ℤ → ℤ
unfolding mul wrap_int64
mul_int64 a b = wrap_int64 (mul a b)

unfoldable pub quot_int64 : ℤ → ℤ → ℤ
unfolding quot wrap_int64
quot_int64 a b = wrap_int64 (quot a b)

pub quot_int64-pos : (a b : ℕ) → a < two63 → quot_int64 (pos a) (pos b) ≡ pos (a / b)
unfolding quot_int64
quot_int64-pos a b h = ground arith

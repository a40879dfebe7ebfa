-- ===== src/Types/ValidatorSet/Rotation/Ranks.antt =====
-- What a rotation of types/validator_set.go keeps of the validators, and that priorities stay int64s.
use relaychainmodel.Prelude.{
  List, [], ap, arith, length, length-map, map, refl, sym, ℕ, ◌*◌, ◌<◌, ◌∙◌, ◌∷◌, ◌≡◌, ◌≤◌,
}
use relaychainmodel.Prelude.Int.{neg_part, negsuc, pos, pos_part, ℤ, ◌-ℤ◌, ◌+ℤ◌}
use relaychainmodel.Prelude.Bytes.{Bytes}
use relaychainmodel.Prelude.Int64.{max_int64, quot, quot_int64, two63, wrap_int64}
use relaychainmodel.SafeMath.{IsInt64, clamp, clip_exact, safe_add_clip, safe_sub_clip}
use relaychainmodel.Types.ValidatorSet.{Validator, power}
use relaychainmodel.Types.ValidatorSet.Priorities.{sum_priorities, div_floor, with_priority}
use relaychainmodel.Types.ValidatorSet.Updates.Members.{IsUnique, count}

pub wrap_int64-IsInt64 : (x : ℤ) → IsInt64 (wrap_int64 x)
unfolding wrap_int64
wrap_int64-IsInt64 (pos n) = ground arith
wrap_int64-IsInt64 (negsuc n) = ground arith

pub quot_int64-IsInt64 : (a b : ℤ) → IsInt64 (quot_int64 a b)
unfolding quot_int64
quot_int64-IsInt64 a b = wrap_int64-IsInt64 (quot a b)

clamp-IsInt64 : (x : ℤ) → IsInt64 (clamp x)
clamp-IsInt64 (pos n) = ground arith
clamp-IsInt64 (negsuc n) = ground arith

pub clips-IsInt64 :
    (a b : ℤ) → IsInt64 a → IsInt64 b → IsInt64 (safe_add_clip a b) × IsInt64 (safe_sub_clip a b)
clips-IsInt64 a b ha hb =
    let (plus, minus) = clip_exact a b ha hb in
    (rw plus (clamp-IsInt64 (a +ℤ b)), rw minus (clamp-IsInt64 (a -ℤ b)))

-- The validators apart from their priorities.
abbrev pub unranked : List Validator → List Validator
unranked vs = map (λ v. with_priority v (pos 0)) vs

abbrev pub AllInt64 : List Validator → Type 0
AllInt64 [] = Unit {0}
AllInt64 (v ∷ vs) = IsInt64 v.proposer_priority × AllInt64 vs

-- What the steps of a rotation keep of a list of validators.
pub record Kept (vs ws : List Validator) : Type 0 where
  pub same : unranked ws ≡ unranked vs
  pub ranked : AllInt64 ws

pub map-Kept :
    (f : Validator → ℤ) (vs : List Validator)
    → ((v : Validator) → IsInt64 (f v))
    → Kept vs (map (λ v. with_priority v (f v)) vs)
map-Kept f [] h = record { same = refl; ranked = tt }
map-Kept f (v ∷ vs) h =
    let k = map-Kept f vs h in
    record { same = ap (λ r. with_priority v (pos 0) ∷ r) k.same; ranked = (h v, k.ranked) }

unranked-power : (vs : List Validator) → power (unranked vs) ≡ power vs
unfolding power
unranked-power [] = refl
unranked-power (v ∷ vs) = let h = unranked-power vs in omega arith

unranked-count : (a : Bytes) (vs : List Validator) → count a (unranked vs) ≡ count a vs
unfolding count
unranked-count a [] = refl
unranked-count a (v ∷ vs) = let h = unranked-count a vs in omega arith

module _ (vs ws : List Validator) (same : unranked ws ≡ unranked vs) where
  pub same-power : power ws ≡ power vs
  same-power = sym (unranked-power ws) ∙ (ap power same ∙ unranked-power vs)

  pub same-length : length ws ≡ length vs
  same-length = sym (length-map ws _) ∙ (ap length same ∙ length-map vs _)

  pub same-IsUnique : IsUnique vs → IsUnique ws
  same-IsUnique u a =
      let e : count a ws ≡ count a vs =
        sym (unranked-count a ws) ∙ (ap (count a) same ∙ unranked-count a vs) in
      rw e (u a)

-- The exact sum of int64s, and that their average is one.
pub sum_priorities-bounds :
    (vs : List Validator)
    → AllInt64 vs
    → (pos_part (sum_priorities vs) ≤ length vs * max_int64)
      × (neg_part (sum_priorities vs) ≤ length vs * two63)
unfolding sum_priorities
sum_priorities-bounds [] h = (omega arith, omega arith)
sum_priorities-bounds (v ∷ vs) (h, hs) =
    let (p, n) = sum_priorities-bounds vs hs in (ground arith, ground arith)

pub div_floor-IsInt64 :
    (x : ℤ) (n : ℕ)
    → 0 < n
    → pos_part x ≤ n * max_int64
    → neg_part x ≤ n * two63
    → IsInt64 (div_floor x n)
div_floor-IsInt64 (pos a) n h p q = grind arith
div_floor-IsInt64 (negsuc a) n h p q = grind arith

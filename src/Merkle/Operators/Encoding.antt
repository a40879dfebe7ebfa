-- ===== src/Merkle/Operators/Encoding.antt =====
-- The leaves of a tree of keys and values: `encodeByteSlice` of crypto/merkle/types.go, and the leaf that
-- `ValueOp.Run` of crypto/merkle/proof_value.go hashes.
use relaychainmodel.Prelude.{
  Bool-cases, List, [], ap, append-injective, arith, get_elem?, get_elem?-lt, get_elem?-map,
  get_elem?-some, inl, inr, length, length-map, map, some, some-injective, suc, sym, zero, ℕ, ◌%◌,
  ◌++◌, ◌+◌, ◌/◌, ◌<◌, ◌^◌, ◌∙◌, ◌≡◌, ◌⊎◌, ltb,
}
use mathlib.Core.List.{append-nil, append_assoc}
use mathlib.Core.Path.{ap₂}
use native.Mathlib.Omega.{pow_step}
use relaychainmodel.Prelude.Bytes.{Bytes}
use relaychainmodel.Merkle.Soundness.{Collision, IsSized, same_or_Collision}
use relaychainmodel.Merkle.Operators.{
  encode_byte_slice, key_value_leaf, max_varint_len64, put_uvarint,
}
use relaychainmodel.Prelude.Int64.{two63}

put_uvarint-injective :
    (fuel n m : ℕ) (xs ys : Bytes)
    → n < 128 ^ fuel
    → m < 128 ^ fuel
    → put_uvarint fuel n ++ xs ≡ put_uvarint fuel m ++ ys
    → (n ≡ m) × (xs ≡ ys)
unfolding put_uvarint
put_uvarint-injective zero n m xs ys hn hm h = (omega arith, h)
put_uvarint-injective (suc fuel) n m xs ys hn hm h =
    let p = pow_step 128 fuel in
    elim (Bool-cases (ltb n 128)) [
      | inl e ↦ elim (Bool-cases (ltb m 128)) [
        | inl f ↦ let h' = rw (e, f) at h in (cc, cc)
        | inr f ↦
            let h' = rw (e, f) at h in let heads : n ≡ m % 128 + 128 = cc in absurd (ground arith)
      ]
      | inr e ↦ elim (Bool-cases (ltb m 128)) [
        | inl f ↦
            let h' = rw (e, f) at h in let heads : n % 128 + 128 ≡ m = cc in absurd (ground arith)
        | inr f ↦
            let h' = rw (e, f) at h in
            let heads : n % 128 + 128 ≡ m % 128 + 128 = cc in
            let (q, rest) =
              put_uvarint-injective fuel (n / 128) (m / 128) xs ys (omega arith) (omega arith)
                (cc) in
            (omega arith, rest)
      ]
    ]

encode_byte_slice-injective :
    (a b xs ys : Bytes)
    → length a < two63
    → length b < two63
    → encode_byte_slice a ++ xs ≡ encode_byte_slice b ++ ys
    → (a ≡ b) × (xs ≡ ys)
unfolding encode_byte_slice
encode_byte_slice-injective a b xs ys ha hb h =
    let head = put_uvarint max_varint_len64 (length a) in
    let (same, rest) =
      put_uvarint-injective max_varint_len64 (length a) (length b) (a ++ xs) (b ++ ys) (omega arith)
        (omega arith)
        (sym (append_assoc (put_uvarint max_varint_len64 (length a)) a xs)
          ∙ (h ∙ append_assoc (put_uvarint max_varint_len64 (length b)) b ys)) in
    append-injective a xs b ys same rest

-- A list of keys and values of which the keys are byte slices.
abbrev pub AllShort : List (Bytes × Bytes) → Type 0
AllShort kvs =
    (j : ℕ) (key value : Bytes) → get_elem? kvs j ≡ some (key, value) → length key < two63

-- The leaves of the tree for keys and values.
abbrev pub leaves : (Bytes → Bytes) → List (Bytes × Bytes) → List Bytes
leaves sum kvs = map (λ (kv : Bytes × Bytes). key_value_leaf sum kv.0 kv.1) kvs

module _ (sum : Bytes → Bytes) (sized : IsSized sum) where
  key_value_leaf-injective :
      (key key' value value' : Bytes)
      → length key < two63
      → length key' < two63
      → key_value_leaf sum key value ≡ key_value_leaf sum key' value'
      → ((key ≡ key') × (value ≡ value')) ⊎ Collision sum
  key_value_leaf-injective key key' value value' short short' h =
      let (keys, hashes) =
        encode_byte_slice-injective key key' (encode_byte_slice (sum value))
          (encode_byte_slice (sum value')) short short' h in
      let (same, nothing) =
        encode_byte_slice-injective (sum value) (sum value') [] [] (omega (arith, sized value))
          (omega (arith, sized value'))
          (append-nil (encode_byte_slice (sum value))
            ∙ (hashes ∙ sym (append-nil (encode_byte_slice (sum value'))))) in
      elim (same_or_Collision sum sized value value' same) [ inl e ↦ inl (keys, e) | inr c ↦ inr c ]

  pub leaves-get :
      (kvs : List (Bytes × Bytes)) (i : ℕ) (key value : Bytes)
      → AllShort kvs
      → length key < two63
      → get_elem? (leaves sum kvs) i ≡ some (key_value_leaf sum key value)
      → (get_elem? kvs i ≡ some (key, value)) ⊎ Collision sum
  leaves-get kvs i key value short short' h =
      let within = get_elem?-lt (leaves sum kvs) i h in
      let leaf = λ (kv : Bytes × Bytes). key_value_leaf sum kv.0 kv.1 in
      let (kv, at) = get_elem?-some kvs i (omega (arith, length-map kvs leaf)) in
      let there = get_elem?-map leaf kvs i kv at in
      let same = some-injective (leaf kv) (key_value_leaf sum key value) (sym there ∙ h) in
      elim (key_value_leaf-injective kv.0 key kv.1 value (short i kv.0 kv.1 at) short' same) [
        | inl (k, v) ↦ inl (at ∙ ap some (ap₂ (λ (a b : Bytes). (a, b)) k v))
        | inr c ↦ inr c
      ]

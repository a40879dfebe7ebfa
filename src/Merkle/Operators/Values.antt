-- ===== src/Merkle/Operators/Values.antt =====
-- What a proof for a value in a tree of keys and values shows.
use relaychainmodel.Prelude.{
  Bool-cases, List, Option, [], ap, arith, get_elem?, inl, inr, length, length-map, not, refl, some,
  sym, ℕ, ◌==◌, ◌+◌, ◌<◌, ◌∙◌, ◌∷◌, ◌≡◌, ◌⊎◌, false,
}
use mathlib.Core.List.{reverse, reverse-reverse}
use relaychainmodel.Prelude.Bytes.{Bytes, bytes_eq, bytes_eq_iff, slice}
use relaychainmodel.Prelude.Int.{ltb_ℤ, pos}
use relaychainmodel.Prelude.Map.{insert, lookup}
use relaychainmodel.Prelude.Outcome.{bind-ok, Outcome, fail_if, ok}
use relaychainmodel.Merkle.{
  Proof, compute_root_hash, hash_from_byte_slices, leaf_hash, proof_validate_basic, proof_verify,
}
use relaychainmodel.Merkle.KeyPath.{key_path_to_keys, part_to_key, parts_to_keys, slash, split}
use relaychainmodel.Merkle.Soundness.{Collision, IsSized, proof_verify_sound}
use relaychainmodel.Merkle.Operators.{
  OpError, Operator, ProofOp, ProofRuntime, ValueOp, bad_proof, decode, decode_proof,
  default_proof_runtime, key_value_leaf, proof_from_proto, proof_op_value, runtime_verify,
  unexpected_type, value_op_decoder, value_op_run, value_operator, verify_value, wrap_err,
}
use relaychainmodel.Merkle.Operators.Encoding.{AllShort, leaves, leaves-get}
use relaychainmodel.Merkle.Operators.Verify.{operators_verify-ok, with_key}
use relaychainmodel.Prelude.Int64.{two63}

-- A path has a key.
parts_to_keys-some :
    (i : ℕ) (part : Bytes) (parts : List Bytes) → parts_to_keys i (part ∷ parts) ≡ ok [] → ⊥
unfolding parts_to_keys
parts_to_keys-some i part parts h =
    let (key, first, then) = bind-ok (part_to_key i part) _ [] h in
    let (keys, others, last) = bind-ok (parts_to_keys (i + 1) parts) _ [] then in cc

key_path_to_keys-some : (path : Bytes) → key_path_to_keys path ≡ ok [] → ⊥
unfolding key_path_to_keys
key_path_to_keys-some [] h = cc
key_path_to_keys-some (c ∷ path) h = elim (Bool-cases (c == slash)) [
  | inl e ↦ parts_to_keys-some 0 (split path).0 (split path).1 (rw e at h)
  | inr e ↦ let h' = rw e at h in cc
]

-- The keys of a path of which the reverse is that of one operator.
one_key :
    (keypath key : Bytes) (keys : List Bytes)
    → key_path_to_keys keypath ≡ ok keys
    → reverse keys ≡ with_key key []
    → key_path_to_keys keypath ≡ ok (key ∷ [])
one_key keypath [] keys h e =
    let none_left : keys ≡ [] = sym (reverse-reverse keys) ∙ ap reverse e in
    absurd (key_path_to_keys-some keypath (h ∙ ap ok none_left))
one_key keypath (k ∷ ks) keys h e = h ∙ ap ok (sym (reverse-reverse keys) ∙ ap reverse e)

module _ (sum : Bytes → Bytes) (unmarshal : Bytes → Outcome OpError (Option Proof)) where
  value_op_decoder-ok :
      (pop : ProofOp) (p : Proof) (op : Operator)
      → unmarshal pop.«data» ≡ ok (some p)
      → value_op_decoder sum unmarshal pop ≡ ok op
      → op ≡ value_operator sum (record { key = pop.key; proof = p })
  unfolding value_op_decoder proof_from_proto
  value_op_decoder-ok pop p op read h =
      let (t, typed, then) =
        bind-ok (fail_if (not (bytes_eq pop.type proof_op_value)) unexpected_type) _ op h in
      let (pb, got, next) = bind-ok (unmarshal pop.«data») _ op then in
      let (sp, made, last) = bind-ok (proof_from_proto pb) _ op next in
      let same : pb ≡ some p = cc in
      let made' : proof_from_proto (some p) ≡ ok sp = rw same at made in
      let (u, valid, is) = bind-ok (wrap_err bad_proof (proof_validate_basic p)) _ sp made' in cc

  decode-default :
      (prt : ProofRuntime) (pop : ProofOp) (op : Operator)
      → default_proof_runtime sum unmarshal ≡ ok prt
      → decode prt pop ≡ ok op
      → value_op_decoder sum unmarshal pop ≡ ok op
  unfolding default_proof_runtime decode lookup insert
  decode-default prt pop op made h =
      let is : (proof_op_value, value_op_decoder sum unmarshal) ∷ [] ≡ prt = cc in
      let h' = rw (sym is) at h in
      elim (Bool-cases (bytes_eq proof_op_value pop.type)) [
        | inl e ↦ rw e at h'
        | inr e ↦ absurd (let h'' = rw e at h' in cc)
      ]

  value_op_run-ok :
      (op : ValueOp) (value root : Bytes) (rest : List Bytes)
      → value_op_run sum op (value ∷ []) ≡ ok (root ∷ rest)
      → (slice op.proof.leaf_hash ≡ leaf_hash sum (key_value_leaf sum op.key value))
        × (root ≡ slice (compute_root_hash sum op.proof))
  unfolding value_op_run
  value_op_run-ok op value root rest h =
      let leaf = leaf_hash sum (key_value_leaf sum op.key value) in
      elim (Bool-cases (bytes_eq leaf (slice op.proof.leaf_hash))) [
        | inr e ↦ absurd (let h' = rw e at h in cc)
        | inl e ↦
            let h' = rw e at h in (sym ((bytes_eq_iff leaf (slice op.proof.leaf_hash)).0 e), cc)
      ]

  proof_verify-ok :
      (p : Proof) (root leaf : Bytes) (n i : ℕ)
      → p.total ≡ pos n
      → p.index ≡ pos i
      → slice p.leaf_hash ≡ leaf_hash sum leaf
      → root ≡ slice (compute_root_hash sum p)
      → proof_verify sum p (some root) leaf ≡ ok tt
  unfolding proof_verify
  proof_verify-ok p root leaf n i total index leaves roots =
      let l = (bytes_eq_iff (slice p.leaf_hash) (leaf_hash sum leaf)).1 leaves in
      let r = (bytes_eq_iff (slice (compute_root_hash sum p)) root).1 (sym roots) in
      let n' : ltb_ℤ (pos n) (pos 0) ≡ false = ground arith in
      let i' : ltb_ℤ (pos i) (pos 0) ≡ false = ground arith in
      rw (total, index, n', i', l, rw (total, index) at r) refl

module _ (sum : Bytes → Bytes) (sized : IsSized sum) where
  module _ (unmarshal : Bytes → Outcome OpError (Option Proof)) where
    -- If VerifyValue of the default runtime accepts a proof of one value operator for the hash of a
    -- tree of keys and values, then the path is the operator's key alone, and the tree has this key
    -- with the value at the proof's index, or else there are two byte strings with one hash. The
    -- proof is for the number of the leaves, which are fewer than 2 ^ 63, as the bytes of a key
    -- are. A hash has 32 bytes.
    pub verify_value_sound :
        (prt : ProofRuntime) (pop : ProofOp) (p : Proof) (kvs : List (Bytes × Bytes)) (i : ℕ)
        (keypath value : Bytes)
        → default_proof_runtime sum unmarshal ≡ ok prt
        → unmarshal pop.«data» ≡ ok (some p)
        → p.total ≡ pos (length kvs)
        → p.index ≡ pos i
        → length kvs < two63
        → length pop.key < two63
        → AllShort kvs
        → verify_value prt (pop ∷ []) (hash_from_byte_slices sum (leaves sum kvs)) keypath value
          ≡ ok tt
        → ((key_path_to_keys keypath ≡ ok (pop.key ∷ []))
            × (get_elem? kvs i ≡ some (pop.key, value)))
          ⊎ Collision sum
    unfolding runtime_verify decode_proof
    verify_value_sound prt pop p kvs i keypath value made read total index few short shorts h =
        let root = hash_from_byte_slices sum (leaves sum kvs) in
        let (ops, decoded, verified) = bind-ok (decode_proof prt (pop ∷ [])) _ tt h in
        let (op, first, then) = bind-ok (decode prt pop) _ ops decoded in
        let is =
          value_op_decoder-ok sum unmarshal pop p op read
            (decode-default sum unmarshal prt pop op made first) in
        let one : ops ≡ op ∷ [] = cc in
        let (keys, path, same, rest, ran) =
          operators_verify-ok ops root keypath (value ∷ []) verified in
        let vop : ValueOp = record { key = pop.key; proof = p } in
        let (out, run, last) =
          bind-ok (value_op_run sum vop (value ∷ [])) _ (root ∷ rest) (rw (one, is) at ran) in
        let (leaf, roots) = value_op_run-ok sum unmarshal vop value root rest (run ∙ last) in
        let size : length (leaves sum kvs) ≡ length kvs = length-map kvs _ in
        let count : p.total ≡ pos (length (leaves sum kvs)) = total ∙ ap pos (sym size) in
        let good =
          proof_verify-ok sum unmarshal p root (key_value_leaf sum pop.key value)
            (length (leaves sum kvs)) i count index leaf roots in
        elim (proof_verify_sound sum sized (leaves sum kvs) p (key_value_leaf sum pop.key value) i
          (omega arith) count index good) [
            | inr c ↦ inr c
            | inl at ↦ elim (leaves-get sum sized kvs i pop.key value shorts short at) [
              | inr c ↦ inr c
              | inl found ↦ inl (one_key keypath pop.key keys path (rw (one, is) at same), found)
            ]
          ]

-- ===== src/Merkle/Operators.antt =====
-- Proofs of chained Merkle trees: crypto/merkle/proof_op.go, proof_value.go and `encodeByteSlice` of
-- types.go. SHA-256 is a parameter, and so are the generated encoder and decoder of a value proof.
use relaychainmodel.Prelude.{
  List, Option, Option-elim, [], if◌then◌else◌, length, ltb, none, not, some, suc, zero, ℕ, ◌%◌,
  ◌++◌, ◌+◌, ◌/◌, ◌∷◌,
}
use relaychainmodel.Prelude.Bytes.{Bytes, bytes_eq, slice}
use relaychainmodel.Prelude.Map.{Map, insert, lookup}
use relaychainmodel.Prelude.Outcome.{Outcome, err, fail_if, ok, panics, ◌>>=◌, ◌>>◌}
use mathlib.Core.List.{reverse}
use relaychainmodel.Merkle.{
  Proof, ProofError, compute_hash_from_aunts, compute_root_hash, leaf_hash, proof_validate_basic,
}
use relaychainmodel.Merkle.KeyPath.{KeyPathError, key_path_to_keys}
mod Verify
mod Encoding
mod Values
mod Tests

-- The errors, where `decoding` is one of the generated decoder and `foreign` one of an operator of
-- another package.
pub data OpError : Type 0 where
  bad_key_path : KeyPathError → OpError
  missing_key : OpError
  key_mismatch : ℕ → OpError
  invalid_root keys_left leaf_mismatch nil_proof unexpected_type unrecognized decoding foreign :
      OpError
  arg_count : ℕ → OpError
  bad_proof : ProofError → OpError

-- `ProofOp`, generated from its protobuf message.
pub record ProofOp : Type 0 where
  pub type : Bytes
  pub key : Bytes
  pub «data» : Bytes

-- `ProofOperator`, without `ProofOp`.
pub record Operator : Type 0 where
  pub run : List Bytes → Outcome OpError (List Bytes)
  pub key : Bytes

-- `ValueOp`
pub record ValueOp : Type 0 where
  pub key : Bytes
  pub proof : Proof

-- An error that is passed on in another.
abbrev pub wrap_err : {E A : Type 0} → (E → OpError) → Outcome E A → Outcome OpError A
wrap_err f (ok a) = ok a
wrap_err f (err e) = err (f e)
wrap_err f panics = panics

-- The check of an operator's key in `ProofOperators.Verify`. It takes the keys from the end: here
-- they are in reverse.
unfoldable pub take_key : ℕ → Bytes → List Bytes → Outcome OpError (List Bytes)
take_key i [] keys = ok keys
take_key i (k ∷ ks) [] = err missing_key
take_key i (k ∷ ks) (last ∷ keys) =
    if not (bytes_eq last (k ∷ ks)) then err (key_mismatch i) else ok keys

-- The loop of `ProofOperators.Verify` from operator `i`: the keys that are left, and the last values.
unfoldable pub run_operators :
    ℕ → List Operator → List Bytes → List Bytes → Outcome OpError (List Bytes × List Bytes)
unfolding take_key
run_operators i [] keys args = ok (keys, args)
run_operators i (op ∷ ops) keys args = take_key i op.key keys >>= λ keys'.
    op.run args >>= λ args'. run_operators (i + 1) ops keys' args'

-- The checks after the loop.
unfoldable pub check_root : Bytes → List Bytes → Outcome OpError (Unit {0})
check_root root [] = panics
check_root root (arg ∷ args) = fail_if (not (bytes_eq root arg)) invalid_root

unfoldable pub check_keys : List Bytes → Outcome OpError (Unit {0})
check_keys [] = ok tt
check_keys (key ∷ keys) = err keys_left

-- `ProofOperators.Verify` and `VerifyValue`
unfoldable pub operators_verify :
    List Operator → Bytes → Bytes → List Bytes → Outcome OpError (Unit {0})
unfolding run_operators check_root check_keys
operators_verify ops root keypath args =
    wrap_err bad_key_path (key_path_to_keys keypath) >>= λ keys.
    run_operators 0 ops (reverse keys) args >>= λ (left, out).
    check_root root out >> check_keys left

abbrev pub operators_verify_value :
    List Operator → Bytes → Bytes → Bytes → Outcome OpError (Unit {0})
operators_verify_value ops root keypath value = operators_verify ops root keypath (value ∷ [])

-- `ProofRuntime`: its decoders.
abbrev pub ProofRuntime : Type 0
ProofRuntime = Map (ProofOp → Outcome OpError Operator)

-- `RegisterOpDecoder`, `Decode` and `DecodeProof`
unfoldable pub register_op_decoder :
    Bytes → (ProofOp → Outcome OpError Operator) → ProofRuntime → Outcome OpError ProofRuntime
register_op_decoder typ dec prt =
    Option-elim (lookup typ prt) (ok (insert typ dec prt)) (λ d. panics)

unfoldable pub decode : ProofRuntime → ProofOp → Outcome OpError Operator
unfolding Option-elim
decode prt pop = Option-elim (lookup pop.type prt) (err unrecognized) (λ decoder. decoder pop)

unfoldable pub decode_proof : ProofRuntime → List ProofOp → Outcome OpError (List Operator)
unfolding decode
decode_proof prt [] = ok []
decode_proof prt (pop ∷ pops) =
    let rest = decode_proof prt pops in decode prt pop >>= λ op. rest >>= λ ops. ok (op ∷ ops)

-- `ProofRuntime.Verify`, `VerifyValue` and `VerifyAbsence`
unfoldable pub runtime_verify :
    ProofRuntime → List ProofOp → Bytes → Bytes → List Bytes → Outcome OpError (Unit {0})
unfolding decode_proof operators_verify
runtime_verify prt proof root keypath args =
    decode_proof prt proof >>= λ ops. operators_verify ops root keypath args

abbrev pub verify_value :
    ProofRuntime → List ProofOp → Bytes → Bytes → Bytes → Outcome OpError (Unit {0})
verify_value prt proof root keypath value = runtime_verify prt proof root keypath (value ∷ [])

abbrev pub verify_absence : ProofRuntime → List ProofOp → Bytes → Bytes → Outcome OpError (Unit {0})
verify_absence prt proof root keypath = runtime_verify prt proof root keypath []

-- `binary.PutUvarint` with fuel: seven bits in a byte, the lowest first. A uint64 takes at most
-- `binary.MaxVarintLen64` bytes.
abbrev pub max_varint_len64 : ℕ
max_varint_len64 = 10

unfoldable pub put_uvarint : ℕ → ℕ → Bytes
put_uvarint zero n = []
put_uvarint (suc fuel) n =
    let rest = put_uvarint fuel (n / 128) in if ltb n 128 then n ∷ [] else (n % 128 + 128) ∷ rest

-- `encodeByteSlice`
unfoldable pub encode_byte_slice : Bytes → Bytes
unfolding put_uvarint
encode_byte_slice bz = put_uvarint max_varint_len64 (length bz) ++ bz

-- `ProofFromProto`, where `none` is nil.
unfoldable pub proof_from_proto : Option Proof → Outcome OpError Proof
unfolding Option-elim proof_validate_basic
proof_from_proto pb =
    Option-elim pb (err nil_proof) (λ p. wrap_err bad_proof (proof_validate_basic p) >> ok p)

-- `ProofOpValue`, which is `simple:v`.
abbrev pub proof_op_value : Bytes
proof_op_value = 115 ∷ 105 ∷ 109 ∷ 112 ∷ 108 ∷ 101 ∷ 58 ∷ 118 ∷ []

module _ (sum : Bytes → Bytes) where
  -- The leaf for a key and a value in `ValueOp.Run`: the key and the value's hash.
  abbrev pub key_value_leaf : Bytes → Bytes → Bytes
  key_value_leaf key value = encode_byte_slice key ++ encode_byte_slice (sum value)

  -- `ValueOp.Run`; a nil root is empty.
  unfoldable pub value_op_run : ValueOp → List Bytes → Outcome OpError (List Bytes)
  unfolding encode_byte_slice compute_hash_from_aunts
  value_op_run op [] = err (arg_count 0)
  value_op_run op (a ∷ b ∷ args) = err (arg_count (length (a ∷ b ∷ args)))
  value_op_run op (value ∷ []) =
      let kvhash = leaf_hash sum (key_value_leaf op.key value) in
      if not (bytes_eq kvhash (slice op.proof.leaf_hash))
      then err leaf_mismatch
      else ok (slice (compute_root_hash sum op.proof) ∷ [])

  abbrev pub value_operator : ValueOp → Operator
  value_operator op = record { run = value_op_run op; key = op.key }

  module _ (unmarshal : Bytes → Outcome OpError (Option Proof)) where
    -- `ValueOpDecoder`, where `unmarshal` is `ValueOp.Unmarshal`, of which the proof is used.
    unfoldable pub value_op_decoder : ProofOp → Outcome OpError Operator
    unfolding proof_from_proto value_op_run
    value_op_decoder pop =
        fail_if (not (bytes_eq pop.type proof_op_value)) unexpected_type
        >> (unmarshal pop.«data» >>= λ pb. proof_from_proto pb >>= λ sp.
            ok (value_operator (record { key = pop.key; proof = sp })))

    -- `DefaultProofRuntime`
    unfoldable pub default_proof_runtime : Outcome OpError ProofRuntime
    unfolding register_op_decoder value_op_decoder
    default_proof_runtime = register_op_decoder proof_op_value value_op_decoder []

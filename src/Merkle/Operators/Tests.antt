-- ===== src/Merkle/Operators/Tests.antt =====
-- Runs of a proof for a value with a toy hash, and the theorems at them.
use relaychainmodel.Prelude.{
  List, Option, [], arith, get_elem?, none, refl, some, ◌∷◌, ◌≡◌, ◌↔◌, ◌⊎◌, length, zero, suc,
}
use relaychainmodel.Prelude.Bytes.{Bytes, bytes_eq}
use relaychainmodel.Prelude.Int.{pos}
use relaychainmodel.Prelude.Map.{insert, lookup}
use relaychainmodel.Prelude.Outcome.{Outcome, err, ok, panics}
use relaychainmodel.Merkle.Fixtures.{toy, toy-IsSized}
use relaychainmodel.Merkle.{
  Proof, bits_len, flatten_aunts, hash_from_byte_slices, proof_at, proofs_from_byte_slices,
  split_point,
}
use relaychainmodel.Merkle.Soundness.{Collision}
use relaychainmodel.Merkle.KeyPath.{key_path_to_keys}
use relaychainmodel.Merkle.Operators.{
  OpError, ProofOp, ProofRuntime, default_proof_runtime, leaf_mismatch, operators_verify,
  proof_op_value, runtime_verify, value_op_decoder, value_operator, verify_absence, verify_value,
}
use relaychainmodel.Merkle.Operators.Encoding.{AllShort, leaves}
use relaychainmodel.Merkle.Operators.Verify.{Accepts, operators_verify_iff}
use relaychainmodel.Merkle.Operators.Values.{verify_value_sound}

-- The keys `A` and `B` with values.
abbrev pairs : List (Bytes × Bytes)
pairs = ((65 ∷ []), (7 ∷ [])) ∷ ((66 ∷ []), (8 ∷ 9 ∷ [])) ∷ []

first-length :
    (a b c d : Bytes)
    → ◌≡◌ {A = Option (Bytes × Bytes)} (some (a, c)) (some (b, d))
    → length a ≡ length b
first-length a b c d h = cc

pairs-AllShort : AllShort pairs
pairs-AllShort zero key value h = omega (arith, first-length (65 ∷ []) key (7 ∷ []) value h)
pairs-AllShort (suc zero) key value h =
    omega (arith, first-length (66 ∷ []) key (8 ∷ 9 ∷ []) value h)
pairs-AllShort (suc (suc j)) key value h = absurd cc

abbrev first_proof : Option Proof → Proof
first_proof (some p) = p
first_proof none = record { total = pos 0; index = pos 0; leaf_hash = none; aunts = [] }

root : Bytes
root = hash_from_byte_slices toy (leaves toy pairs)

proof_b : Proof
proof_b = first_proof (get_elem? (proofs_from_byte_slices toy (leaves toy pairs)).1 1)

abbrev unmarshal : Bytes → Outcome OpError (Option Proof)
unmarshal b = ok (some proof_b)

abbrev op_b : ProofOp
op_b = record { type = proof_op_value; key = 66 ∷ []; «data» = [] }

abbrev runtime : ProofRuntime
runtime = (proof_op_value, value_op_decoder toy unmarshal) ∷ []

all_calls : Unit {0}
unfolding hash_from_byte_slices proofs_from_byte_slices proof_at flatten_aunts split_point bits_len
    bytes_eq key_path_to_keys default_proof_runtime runtime_verify operators_verify value_op_decoder
    insert lookup root proof_b
all_calls = tt

made : default_proof_runtime toy unmarshal ≡ ok runtime
unfolding default_proof_runtime insert lookup
made = refl

-- The value of `B` is proved at the path `/B`.
value_b : verify_value runtime (op_b ∷ []) root (47 ∷ 66 ∷ []) (8 ∷ 9 ∷ []) ≡ ok tt
unfolding all_calls
value_b = refl

-- Another value is refused.
value_c : verify_value runtime (op_b ∷ []) root (47 ∷ 66 ∷ []) (8 ∷ []) ≡ err leaf_mismatch
unfolding all_calls
value_c = refl

-- A proof of absence without an operator panics, for any path that can be read.
absence_panics : verify_absence runtime [] root (47 ∷ 66 ∷ []) ≡ panics
unfolding all_calls
absence_panics = refl

proved_index : (proof_b.total ≡ pos 2) × (proof_b.index ≡ pos 1)
unfolding all_calls
proved_index = (refl, refl)

operators_verify_iff_example :
    (operators_verify
        (value_operator toy (record { key = 66 ∷ []; proof = proof_b }) ∷ [])
        root
        (47 ∷ 66 ∷ [])
        ((8 ∷ 9 ∷ []) ∷ [])
      ≡ ok tt)
    ↔ Accepts
        (value_operator toy (record { key = 66 ∷ []; proof = proof_b }) ∷ [])
        root
        (47 ∷ 66 ∷ [])
        ((8 ∷ 9 ∷ []) ∷ [])
operators_verify_iff_example =
    operators_verify_iff (value_operator toy (record { key = 66 ∷ []; proof = proof_b }) ∷ []) root
      (47 ∷ 66 ∷ []) ((8 ∷ 9 ∷ []) ∷ [])

verify_value_sound_example :
    ((key_path_to_keys (47 ∷ 66 ∷ []) ≡ ok ((66 ∷ []) ∷ []))
      × (get_elem? pairs 1 ≡ some ((66 ∷ []), (8 ∷ 9 ∷ []))))
    ⊎ Collision toy
unfolding root
verify_value_sound_example =
    verify_value_sound toy toy-IsSized unmarshal runtime op_b proof_b pairs 1 (47 ∷ 66 ∷ [])
      (8 ∷ 9 ∷ []) made refl proved_index.0 proved_index.1 (omega arith) (omega arith)
      pairs-AllShort value_b

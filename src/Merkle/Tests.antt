-- ===== src/Merkle/Tests.antt =====
-- Runs of the tree and of its proofs with a toy hash, and the theorems at these inputs.
use relaychainmodel.Prelude.{
  List, Option, [], arith, get_elem?, none, refl, replicate, some, ◌∷◌, ◌≡◌, ◌⊎◌,
}
use relaychainmodel.Prelude.Int.{pos}
use relaychainmodel.Prelude.Bytes.{Bytes, bytes_eq}
use relaychainmodel.Prelude.Outcome.{err, ok}
use relaychainmodel.Merkle.Fixtures.{toy, toy-IsSized}
use relaychainmodel.Merkle.Split.{split_point-bounds, IsSplit}
use relaychainmodel.Merkle.Completeness.{proofs_complete}
use relaychainmodel.Merkle.Soundness.{proof_verify_sound, Collision}
use relaychainmodel.Merkle.{
  Proof, split_point, bits_len, hash_from_byte_slices, proofs_from_byte_slices, proof_verify,
  proof_at, flatten_aunts, invalid_leaf_hash, invalid_root_hash,
}

abbrev items : List Bytes
items = (1 ∷ []) ∷ (2 ∷ []) ∷ (3 ∷ []) ∷ (4 ∷ []) ∷ (5 ∷ []) ∷ []

abbrev first_proof : Option Proof → Proof
first_proof (some p) = p
first_proof none = record { total = pos 0; index = pos 0; leaf_hash = none; aunts = [] }

all_calls : Unit {0}
unfolding proof_verify proofs_from_byte_slices hash_from_byte_slices proof_at flatten_aunts
    split_point bits_len bytes_eq
all_calls = tt

proof_3 : Proof
proof_3 = first_proof (get_elem? (proofs_from_byte_slices toy items).1 3)

split_points :
    (split_point 2 ≡ 1)
    × (split_point 3 ≡ 2)
    × (split_point 4 ≡ 2)
    × (split_point 5 ≡ 4)
    × (split_point 8 ≡ 4)
    × (split_point 9 ≡ 8)
unfolding split_point bits_len bytes_eq
split_points = (refl, refl, refl, refl, refl, refl)

proof_3_verifies :
    proof_verify toy proof_3 (some (hash_from_byte_slices toy items)) (4 ∷ []) ≡ ok tt
unfolding all_calls proof_3
proof_3_verifies = refl

-- Another leaf, or another root, is refused.
proof_3_refuses :
    (proof_verify toy proof_3 (some (hash_from_byte_slices toy items)) (5 ∷ [])
      ≡ err invalid_leaf_hash)
    × (proof_verify toy proof_3 (some (replicate 32 7)) (4 ∷ []) ≡ err invalid_root_hash)
unfolding all_calls proof_3
proof_3_refuses = (refl, refl)

proofs_complete_example :
    (p : Proof) × (leaf : Bytes) × (get_elem? (proofs_from_byte_slices toy items).1 3 ≡ some p)
    × (p.index ≡ pos 3)
    × (p.total ≡ pos 5)
    × (get_elem? items 3 ≡ some leaf)
    × (proof_verify toy p (some (hash_from_byte_slices toy items)) leaf ≡ ok tt)
proofs_complete_example = proofs_complete toy items 3 (omega arith) (omega arith)

proof_verify_sound_example : (get_elem? items 3 ≡ some (4 ∷ [])) ⊎ Collision toy
unfolding all_calls proof_3
proof_verify_sound_example =
    proof_verify_sound toy toy-IsSized items proof_3 (4 ∷ []) 3 (omega arith) refl refl
      proof_3_verifies

split_point-bounds_example : IsSplit 9 (split_point 9)
split_point-bounds_example = split_point-bounds 9 (omega arith) (omega arith)

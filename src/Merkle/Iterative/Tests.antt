-- ===== src/Merkle/Iterative/Tests.antt =====
-- Runs of the iterative hash with a toy hash, and the theorem at five items.
use relaychainmodel.Prelude.{List, [], arith, refl, some, ◌∷◌, ◌≡◌}
use relaychainmodel.Prelude.Bytes.{Bytes}
use relaychainmodel.Merkle.Fixtures.{toy}
use relaychainmodel.Merkle.{empty_hash, hash_from_byte_slices, inner_hash, leaf_hash}
use relaychainmodel.Merkle.Iterative.{hash_from_byte_slices_iterative}
use relaychainmodel.Merkle.Iterative.Equivalence.{hash_from_byte_slices_iterative_lem}

abbrev items : List Bytes
items = (1 ∷ []) ∷ (2 ∷ []) ∷ (3 ∷ []) ∷ (4 ∷ []) ∷ (5 ∷ []) ∷ []

of_none : hash_from_byte_slices_iterative toy [] ≡ some (empty_hash toy)
unfolding hash_from_byte_slices_iterative
of_none = refl

-- Five items: two pairs joined and joined again, then with the fifth.
of_five :
    hash_from_byte_slices_iterative toy items
    ≡ some (
        inner_hash toy
          (inner_hash toy
            (inner_hash toy (leaf_hash toy (1 ∷ [])) (leaf_hash toy (2 ∷ [])))
            (inner_hash toy (leaf_hash toy (3 ∷ [])) (leaf_hash toy (4 ∷ []))))
          (leaf_hash toy (5 ∷ [])))
unfolding hash_from_byte_slices_iterative
of_five = refl

hash_from_byte_slices_iterative_example :
    hash_from_byte_slices_iterative toy items ≡ some (hash_from_byte_slices toy items)
hash_from_byte_slices_iterative_example =
    hash_from_byte_slices_iterative_lem toy items (omega arith)

-- ===== src/Types/PartSet/Tests.antt =====
-- Parts of three bytes with a toy hash: a run of AddPart, a part at the wrong place, and the theorems.
use relaychainmodel.Prelude.{
  Bool, Option, [], arith, none, refl, replicate, some, true, ℕ, ◌%◌, ◌*◌, ◌+◌, ◌∷◌, ◌≡◌, ◌⊎◌,
  get_or,
}
use relaychainmodel.Prelude.Int.{pos}
use relaychainmodel.Prelude.Bytes.{Bytes, bytes_eq}
use relaychainmodel.Prelude.Outcome.{Outcome, ok, err, panics}
use relaychainmodel.Merkle.{
  split_point, bits_len, hash_from_byte_slices, proofs_from_byte_slices, proof_verify, proof_at,
  flatten_aunts,
}
use relaychainmodel.Merkle.Soundness.{IsSized, Collision}
use relaychainmodel.Types.PartSet.{
  Part, PartSet, PartSetError, add_part, full_part_set, header_of, part_bytes, slices_from,
  total_parts, is_complete, make_parts, new_part_set_from_data, new_part_set_from_header, read_all,
  read_parts,
}
use relaychainmodel.Types.PartSet.Safety.{Filled, put, complete_reads, add_part-any_place}
use relaychainmodel.Types.PartSet.Filling.{chunks}

-- A hash of 32 bytes: a weighted sum of the bytes, and zeros.
abbrev weigh : Bytes → ℕ
weigh [] = 1
weigh (x ∷ xs) = (x + 3 * weigh xs) % 65521

abbrev toy : Bytes → Bytes
toy b = weigh b ∷ replicate 31 0

toy-IsSized : IsSized toy
toy-IsSized b = refl

abbrev three_bytes : Bytes
three_bytes = 7 ∷ 8 ∷ 9 ∷ []

all_calls : Unit {0}
unfolding proof_verify proofs_from_byte_slices hash_from_byte_slices proof_at flatten_aunts
    split_point bits_len bytes_eq add_part total_parts part_bytes slices_from full_part_set
    make_parts new_part_set_from_data chunks new_part_set_from_header read_all read_parts put
all_calls = tt

abbrev no_set : PartSet
no_set = record { total = 0; hash = []; parts = []; count = 0; byte_size = 0 }

abbrev set_or : Option PartSet → PartSet
set_or none = no_set
set_or (some s) = s

source_set : PartSet
unfolding all_calls
source_set = set_or (new_part_set_from_data toy three_bytes 2)

empty_set : PartSet
unfolding all_calls source_set
empty_set = new_part_set_from_header (header_of source_set)

no_part : Part
no_part = record {
  index = 9;
  bytes = [];
  proof = record { total = pos 0; index = pos 0; leaf_hash = none; aunts = [] };
}

abbrev part_or : Option Part → Part
part_or (some p) = p
part_or none = no_part

part_0 : Part
unfolding all_calls source_set
part_0 = part_or (get_or source_set.parts 0 none)

part_1 : Part
unfolding all_calls source_set
part_1 = part_or (get_or source_set.parts 1 none)

abbrev after : Outcome PartSetError (PartSet × Bool) → PartSet → PartSet
after (ok r) s = r.0
after (err e) s = s
after panics s = s

with_1 : PartSet
unfolding all_calls empty_set part_1
with_1 = after (add_part toy empty_set part_1) empty_set

with_both : PartSet
unfolding all_calls with_1 part_0
with_both = after (add_part toy with_1 part_0) with_1

-- The second part comes first, and the parts read as the bytes.
out_of_order : read_all with_both ≡ some three_bytes
unfolding all_calls with_both
out_of_order = refl

calls : Filled toy empty_set with_both
unfolding all_calls source_set empty_set part_0 part_1 with_1 with_both
calls =
    Filled.next part_0 true (Filled.next part_1 true Filled.here (refl, refl) refl) (refl, refl)
      refl

complete_reads_example : (read_all with_both ≡ some three_bytes) ⊎ Collision toy
unfolding all_calls source_set empty_set part_0 part_1 with_1 with_both
complete_reads_example =
    complete_reads toy toy-IsSized three_bytes 2 source_set with_both (omega arith) (omega arith)
      (omega arith) refl calls refl

-- The bytes of the second of three parts of 2 ^ 31 bytes would end at 2 ^ 32, which is 0 in 32 bits.
wrapped_end : part_bytes three_bytes 2147483648 1 ≡ none
unfolding part_bytes
wrapped_end = refl

-- The part of index 1 is taken as the part of index 0 too.
misplaced : PartSet
unfolding all_calls source_set empty_set part_1 with_1
misplaced = after (add_part toy with_1 (record part_1 { index = 0 })) with_1

wrong_bytes : (is_complete misplaced ≡ true) × (read_all misplaced ≡ some (9 ∷ 9 ∷ []))
unfolding all_calls misplaced
wrong_bytes = (refl, refl)

add_part-any_place_example :
    add_part toy empty_set (record part_1 { index = 0 })
    ≡ ok (put empty_set (record part_1 { index = 0 }), true)
unfolding all_calls source_set empty_set part_1 with_1
add_part-any_place_example =
    add_part-any_place toy empty_set with_1 part_1 0 refl (omega arith) refl

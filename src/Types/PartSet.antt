-- ===== src/Types/PartSet.antt =====
-- The parts of a block: Part and PartSet of types/part_set.go. The bit array of the parts tells which
-- of them are there, so it is left out, and so are the locks.
pub mod Filling
pub mod Slicing
pub mod Safety
mod Tests
use relaychainmodel.Prelude.{
  Bool, List, Option, [], drop, false, get_or, if◌then◌else◌, leb, length, ltb, none, not,
  replicate, set, some, suc, take, true, zero, ℕ, ◌++◌, ◌+◌, ◌-◌, ◌*◌, ◌%◌, ◌/◌, ◌==◌, ◌∷◌,
}
use Prim.Native.Nat.{min}
use relaychainmodel.Prelude.Bytes.{Bytes}
use relaychainmodel.Prelude.Outcome.{Outcome, err, ok, panics}
use relaychainmodel.Types.BlockId.{PartSetHeader, psh_equals}
use relaychainmodel.Merkle.{Proof, proofs_from_byte_slices, proof_verify}

pub record Part : Type 0 where
  pub index : ℕ  -- uint32
  pub bytes : Bytes
  pub proof : Proof

pub record PartSet : Type 0 where
  pub total : ℕ  -- uint32
  pub hash : Bytes
  pub parts : List (Option Part)
  pub count : ℕ
  pub byte_size : ℕ

pub data PartSetError : Type 0 where
  unexpected_index invalid_proof : PartSetError

abbrev pub two32 : ℕ
two32 = 4294967296

-- The number of parts of data of a length, in 32 bits. A size of 0 panics.
unfoldable pub total_parts : ℕ → ℕ → Option ℕ
total_parts size_of part_size =
    if part_size == 0
    then none
    else some (((size_of % two32 + part_size) % two32 + (two32 - 1)) % two32 / part_size)

-- The bytes of a part, whose ends are computed in 32 bits. An end before the start panics.
unfoldable pub part_bytes : Bytes → ℕ → ℕ → Option Bytes
part_bytes bytes part_size i =
    let low = i * part_size % two32 in
    let high = min (length bytes) ((i + 1) % two32 * part_size % two32) in
    if ltb high low then none else some (take (high - low) (drop low bytes))

-- The bytes of a number of parts, from one on.
unfoldable pub slices_from : Bytes → ℕ → ℕ → ℕ → Option (List Bytes)
slices_from bytes part_size zero i = some []
slices_from bytes part_size (suc n) i = elim (part_bytes bytes part_size i) [
  | none ↦ none
  | some b ↦ elim (slices_from bytes part_size n (i + 1)) [ none ↦ none | some bs ↦ some (b ∷ bs) ]
]

-- The parts, from the slices and their proofs.
unfoldable pub make_parts : ℕ → List Bytes → List Proof → List (Option Part)
make_parts i [] proofs = []
make_parts i (b ∷ bs) [] = []
make_parts i (b ∷ bs) (p ∷ ps) =
    some (record { index = i; bytes = b; proof = p }) ∷ make_parts (i + 1) bs ps

-- `NewPartSetFromHeader`
unfoldable pub new_part_set_from_header : PartSetHeader → PartSet
new_part_set_from_header header = record {
  total = header.total;
  hash = header.hash;
  parts = replicate header.total none;
  count = 0;
  byte_size = 0;
}

-- `PartSet.Header`
abbrev pub header_of : PartSet → PartSetHeader
header_of s = record { total = s.total; hash = s.hash }

-- `PartSet.HasHeader` of a set that may be nil.
abbrev pub has_header : Option PartSet → PartSetHeader → Bool
has_header none header = false
has_header (some s) header = psh_equals (header_of s) header

-- `IsComplete`
abbrev pub is_complete : PartSet → Bool
is_complete s = s.count == s.total

-- The bytes that `GetReader` gives: those of the parts, one after the other. A missing part panics.
unfoldable pub read_parts : List (Option Part) → Option Bytes
read_parts [] = some []
read_parts (none ∷ ps) = none
read_parts (some p ∷ ps) = elim (read_parts ps) [ none ↦ none | some bs ↦ some (p.bytes ++ bs) ]

-- The reader starts at the first part, which a set with no parts has not.
unfoldable pub read_all : PartSet → Option Bytes
unfolding read_parts
read_all s =
    if not (is_complete s) then none else elim s.parts [ [] ↦ none | p ∷ ps ↦ read_parts s.parts ]

module _ (sum : Bytes → Bytes) where
  -- The set of the slices, with their Merkle root and proofs.
  unfoldable pub full_part_set : List Bytes → ℕ → ℕ → PartSet
  unfolding make_parts
  full_part_set slices total byte_size =
      let (root, proofs) = proofs_from_byte_slices sum slices in
      record {
        total = total;
        hash = root;
        parts = make_parts 0 slices proofs;
        count = total;
        byte_size = byte_size;
      }

  -- `NewPartSetFromData`
  unfoldable pub new_part_set_from_data : Bytes → ℕ → Option PartSet
  new_part_set_from_data bytes part_size = elim (total_parts (length bytes) part_size) [
    | none ↦ none
    | some total ↦ elim (slices_from bytes part_size total 0) [
      | none ↦ none
      | some slices ↦ some (full_part_set slices total (length bytes))
    ]
  ]

  -- `AddPart`: the set, and whether the part was added.
  unfoldable pub add_part : PartSet → Part → Outcome PartSetError (PartSet × Bool)
  add_part s part =
      if leb s.total part.index
      then err unexpected_index
      else elim (get_or s.parts part.index none) [
        | some old ↦ ok (s, false)
        | none ↦ elim (proof_verify sum part.proof (some s.hash) part.bytes) [
          | err e ↦ err invalid_proof
          | panics ↦ panics
          | ok u ↦ ok (
            record s {
              parts = set s.parts part.index (some part);
              count = s.count + 1;
              byte_size = s.byte_size + length part.bytes;
            },
            true,
          )
        ]
      ]

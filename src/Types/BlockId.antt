-- ===== src/Types/BlockId.antt =====
-- Block identifiers: types/part_set.go (PartSetHeader), types/block.go (BlockID) and ValidateHash of
-- types/validation.go. A protobuf copy has the same fields and is the same record here.
use relaychainmodel.Prelude.{
  Bool, [], arith, false, if◌then◌else◌, length, ltb, not, true, ℕ, ◌&&◌, ◌++◌, ◌==◌, ◌↔◌, ◌≡◌,
}
use relaychainmodel.Prelude.Bytes.{Bytes, bytes_eq, bytes_eq_iff}

-- `tmhash.Size`
abbrev pub hash_size : ℕ
hash_size = 32

pub record PartSetHeader : Type 0 where
  pub total : ℕ  -- uint32
  pub hash : Bytes

pub record BlockId : Type 0 where
  pub hash : Bytes
  pub part_set_header : PartSetHeader

abbrev pub empty_block_id : BlockId
empty_block_id = record { hash = []; part_set_header = record { total = 0; hash = [] } }

abbrev pub is_empty : Bytes → Bool
is_empty b = length b == 0

-- `PartSetHeader.Equals`
pub psh_equals : PartSetHeader → PartSetHeader → Bool
psh_equals a b = (a.total == b.total) && bytes_eq a.hash b.hash

-- `PartSetHeader.IsZero`
pub psh_is_zero : PartSetHeader → Bool
psh_is_zero p = (p.total == 0) && is_empty p.hash

-- `BlockID.Equals`
unfoldable pub equals : BlockId → BlockId → Bool
unfolding psh_equals bytes_eq
equals a b = bytes_eq a.hash b.hash && psh_equals a.part_set_header b.part_set_header

-- `BlockID.IsZero`
unfoldable pub is_zero : BlockId → Bool
unfolding psh_is_zero
is_zero b = is_empty b.hash && psh_is_zero b.part_set_header

-- `BlockID.IsComplete`
unfoldable pub is_complete : BlockId → Bool
is_complete b =
    (length b.hash == hash_size)
    && (ltb 0 b.part_set_header.total && (length b.part_set_header.hash == hash_size))

-- `ValidateHash`: true where it returns no error.
unfoldable pub validate_hash : Bytes → Bool
validate_hash h = if ltb 0 (length h) && not (length h == hash_size) then false else true

-- `PartSetHeader.ValidateBasic`
pub psh_validate_basic : PartSetHeader → Bool
unfolding validate_hash
psh_validate_basic p = if not (validate_hash p.hash) then false else true

-- `BlockID.ValidateBasic`
unfoldable pub validate_basic : BlockId → Bool
unfolding validate_hash psh_validate_basic
validate_basic b =
    if not (validate_hash b.hash)
    then false
    else if not (psh_validate_basic b.part_set_header)
    then false
    else true

-- `BlockID.Key`, the key of a map of votes: the hash, then the encoded part set header. The
-- generated encoder is a parameter.
abbrev pub key : (PartSetHeader → Bytes) → BlockId → Bytes
key marshal b = b.hash ++ marshal b.part_set_header

pub psh_equals_iff : (a b : PartSetHeader) → (psh_equals a b ≡ true) ↔ (a ≡ b)
unfolding psh_equals
psh_equals_iff a b = ground (arith, bytes_eq_iff a.hash b.hash)

-- `Equals` decides equality of block identifiers.
pub equals_iff : (a b : BlockId) → (equals a b ≡ true) ↔ (a ≡ b)
unfolding equals
equals_iff a b =
    ground (arith, bytes_eq_iff a.hash b.hash, psh_equals_iff a.part_set_header b.part_set_header)

-- A block identifier is never both empty and complete.
pub is_complete-not_zero : (b : BlockId) → is_complete b ≡ true → is_zero b ≡ false
unfolding is_complete is_zero
is_complete-not_zero b h = ground arith

-- A complete identifier and an empty one pass the basic validation.
pub is_complete-validate_basic : (b : BlockId) → is_complete b ≡ true → validate_basic b ≡ true
unfolding is_complete validate_basic
is_complete-validate_basic b h = ground arith

pub is_zero-validate_basic : (b : BlockId) → is_zero b ≡ true → validate_basic b ≡ true
unfolding is_zero validate_basic
is_zero-validate_basic b h = ground arith

pub is_zero-eq-empty : (b : BlockId) → is_zero b ≡ true → b ≡ empty_block_id
unfolding is_zero
is_zero-eq-empty b h = ground arith

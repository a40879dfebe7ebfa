-- ===== src/Merkle.antt =====
-- Merkle trees and inclusion proofs: crypto/merkle/hash.go, tree.go and proof.go, with `tmhash.Sum`
-- of crypto/tmhash/hash.go, which is SHA-256, as a parameter.
use relaychainmodel.Prelude.{
  List, Option, [], drop, if◌then◌else◌, leb, length, ltb, map, none, not, some, suc, take, zero, ℕ,
  ◌++◌, ◌+◌, ◌-◌, ◌/◌, ◌==◌, ◌^◌, ◌||◌, ◌∷◌,
}
use relaychainmodel.Prelude.Int.{ltb_ℤ, negsuc, pos, ℤ}
use relaychainmodel.Prelude.Bytes.{Bytes, bytes_eq, slice}
use relaychainmodel.Prelude.Outcome.{Outcome, err, ok}
use mathlib.Core.List.{reverse}
use relaychainmodel.Types.BlockId.{hash_size}
pub mod Split
pub mod Completeness
pub mod Soundness
pub mod Iterative
pub mod KeyPath
pub mod Operators
mod Fixtures
mod Tests

abbrev pub max_aunts : ℕ
max_aunts = 100

-- `bits.Len` with fuel: the number of binary digits of a number.
unfoldable pub bits_len : ℕ → ℕ → ℕ
bits_len zero n = 0
bits_len (suc fuel) n = let rest = bits_len fuel (n / 2) in if n == 0 then 0 else suc rest

-- `getSplitPoint` from its guard on: the largest power of two less than a length from 2 on. The
-- callers split only lengths from 2 on, where the guard against a length below 1 lets them pass; a
-- length is an int64, so it has 64 digits at most.
unfoldable pub split_point : ℕ → ℕ
split_point n = let k = 2 ^ (bits_len 64 n - 1) in if k == n then k / 2 else k

-- `Proof`; a leaf hash `none` is the nil slice.
pub record Proof : Type 0 where
  pub total : ℤ
  pub index : ℤ
  pub leaf_hash : Option Bytes
  pub aunts : List Bytes

-- A `ProofNode`: its hash and its sibling, of which only the hash is read. `Parent` is the next node
-- of the list of nodes that is a trail.
pub record ProofNode : Type 0 where
  pub hash : Bytes
  pub left : Option Bytes
  pub right : Option Bytes

pub data ProofError : Type 0 where
  negative_total negative_index leaf_hash_size too_many_aunts : ProofError
  aunt_size : ℕ → ProofError
  invalid_leaf_hash invalid_root_hash : ProofError

-- `FlattenAunts`, the siblings' hashes from a leaf's node up.
unfoldable pub flatten_aunts : List ProofNode → List Bytes
flatten_aunts [] = []
flatten_aunts (n ∷ ns) =
    let rest = flatten_aunts ns in
    elim n.left [ some l ↦ l ∷ rest | none ↦ elim n.right [ some r ↦ r ∷ rest | none ↦ rest ] ]

-- The loop of `Proof.ValidateBasic` over the aunts from position `i`.
unfoldable pub validate_aunts : ℕ → List Bytes → Outcome ProofError (Unit {0})
validate_aunts i [] = ok tt
validate_aunts i (a ∷ rest_aunts) =
    let rest = validate_aunts (i + 1) rest_aunts in
    if not (length a == hash_size) then err (aunt_size i) else rest

-- `Proof.ValidateBasic`, which `ProofFromProto` calls on the copy of a message.
unfoldable pub proof_validate_basic : Proof → Outcome ProofError (Unit {0})
unfolding validate_aunts
proof_validate_basic p =
    if ltb_ℤ p.total (pos 0)
    then err negative_total
    else if ltb_ℤ p.index (pos 0)
    then err negative_index
    else if not (length (slice p.leaf_hash) == hash_size)
    then err leaf_hash_size
    else if ltb max_aunts (length p.aunts)
    then err too_many_aunts
    else validate_aunts 0 p.aunts

module _ (sum : Bytes → Bytes) where
  -- `emptyHash`
  abbrev pub empty_hash : Bytes
  empty_hash = sum []

  -- `leafHash` and `leafHashOpt`
  abbrev pub leaf_hash : Bytes → Bytes
  leaf_hash leaf = sum (0 ∷ leaf)

  -- `innerHash` and `innerHashOpt`
  abbrev pub inner_hash : Bytes → Bytes → Bytes
  inner_hash l r = sum (1 ∷ (l ++ r))

  -- `hashFromByteSlices` with fuel, of which the number of items is enough.
  unfoldable pub hash_on : ℕ → List Bytes → Bytes
  hash_on zero items = empty_hash
  hash_on (suc fuel) [] = empty_hash
  hash_on (suc fuel) (x ∷ []) = leaf_hash x
  hash_on (suc fuel) (x ∷ y ∷ zs) =
      let items = x ∷ y ∷ zs in
      let k = split_point (length items) in
      inner_hash (hash_on fuel (take k items)) (hash_on fuel (drop k items))

  -- `HashFromByteSlices`
  unfoldable pub hash_from_byte_slices : List Bytes → Bytes
  unfolding hash_on
  hash_from_byte_slices items = hash_on (length items) items

  -- `trailsFromByteSlices` with fuel: for each item, the nodes of its trail below the root, and the
  -- root, which the trails share and which gets its parent and its sibling one level up.
  unfoldable pub trails_on : ℕ → List Bytes → List (List ProofNode) × ProofNode
  trails_on zero items = ([], record { hash = empty_hash; left = none; right = none })
  trails_on (suc fuel) [] = ([], record { hash = empty_hash; left = none; right = none })
  trails_on (suc fuel) (x ∷ []) =
      ([] ∷ [], record { hash = leaf_hash x; left = none; right = none })
  trails_on (suc fuel) (x ∷ y ∷ zs) =
      let items = x ∷ y ∷ zs in
      let k = split_point (length items) in
      let (lefts, left_root) = trails_on fuel (take k items) in
      let (rights, right_root) = trails_on fuel (drop k items) in
      let root_hash = inner_hash left_root.hash right_root.hash in
      let left_root' = record left_root { right = some right_root.hash } in
      let right_root' = record right_root { left = some left_root.hash } in
      (
        map (λ t. t ++ (left_root' ∷ [])) lefts ++ map (λ t. t ++ (right_root' ∷ [])) rights,
        record { hash = root_hash; left = none; right = none },
      )

  -- The hash of the first node of a trail.
  abbrev pub first_hash : List ProofNode → ProofNode → Bytes
  first_hash [] root = root.hash
  first_hash (n ∷ ns) root = n.hash

  -- The proof for the item at a position, from its trail.
  unfoldable pub proof_at : ℕ → ℕ → ProofNode → List ProofNode → Proof
  proof_at total i root t = record {
    total = pos total;
    index = pos i;
    leaf_hash = some (first_hash t root);
    aunts = flatten_aunts (t ++ (root ∷ []));
  }

  -- The loop of `ProofsFromByteSlices` from position `i`.
  unfoldable pub proofs_from : ℕ → ℕ → ProofNode → List (List ProofNode) → List Proof
  proofs_from total i root [] = []
  proofs_from total i root (t ∷ ts) = proof_at total i root t ∷ proofs_from total (i + 1) root ts

  -- `ProofsFromByteSlices`: the root's hash, and the proofs.
  unfoldable pub proofs_from_byte_slices : List Bytes → Bytes × List Proof
  unfolding trails_on proofs_from
  proofs_from_byte_slices items =
      let (trails, root) = trails_on (length items) items in
      (root.hash, proofs_from (length items) 0 root trails)

  -- `computeHashFromAunts`, for an index and a total that are not negative. It takes the hashes from
  -- the end: here they are in reverse.
  unfoldable pub from_root : ℕ → ℕ → Option Bytes → List Bytes → Option Bytes
  from_root index total leaf [] =
      if leb total index || (total == 0) then none else if total == 1 then leaf else none
  from_root index total leaf (h ∷ hs) =
      let num_left = split_point total in
      let left = from_root index num_left leaf hs in
      let right = from_root (index - num_left) (total - num_left) leaf hs in
      if leb total index || (total == 0)
      then none
      else if total == 1
      then none
      else if ltb index num_left
      then elim left [ none ↦ none | some l ↦ some (inner_hash l h) ]
      else elim right [ none ↦ none | some r ↦ some (inner_hash h r) ]

  -- `computeHashFromAunts`; `none` is nil.
  unfoldable pub compute_hash_from_aunts : ℤ → ℤ → Option Bytes → List Bytes → Option Bytes
  unfolding from_root
  compute_hash_from_aunts (pos index) (pos total) leaf hashes =
      from_root index total leaf (reverse hashes)
  compute_hash_from_aunts (pos index) (negsuc t) leaf hashes = none
  compute_hash_from_aunts (negsuc i) total leaf hashes = none

  -- `ComputeRootHash`
  abbrev pub compute_root_hash : Proof → Option Bytes
  compute_root_hash p = compute_hash_from_aunts p.index p.total p.leaf_hash p.aunts

  -- `Proof.Verify`
  unfoldable pub proof_verify : Proof → Option Bytes → Bytes → Outcome ProofError (Unit {0})
  unfolding compute_hash_from_aunts
  proof_verify p root leaf =
      if ltb_ℤ p.total (pos 0)
      then err negative_total
      else if ltb_ℤ p.index (pos 0)
      then err negative_index
      else if not (bytes_eq (slice p.leaf_hash) (leaf_hash leaf))
      then err invalid_leaf_hash
      else if not (bytes_eq (slice (compute_root_hash p)) (slice root))
      then err invalid_root_hash
      else ok tt

-- ===== src/Merkle/Iterative.antt =====
-- The tree's hash level by level: `HashFromByteSlicesIterative` of crypto/merkle/tree.go, which
-- overwrites one slice of hashes. Halves is about the split
-- points of levels, Levels about the pass over a level, Equivalence about the result.
use relaychainmodel.Prelude.{
  List, Option, [], get_elem?, if◌then◌else◌, length, ltb, map, none, set, some, suc, zero, ℕ, ◌+◌,
}
use relaychainmodel.Prelude.Bytes.{Bytes}
use relaychainmodel.Merkle.{empty_hash, inner_hash, leaf_hash}
mod Halves
pub mod Levels
pub mod Equivalence
mod Tests

module _ (sum : Bytes → Bytes) where
  -- What the loop over a level reads at `rp`, below `size`: the hash that it writes, and the next
  -- `rp`. A read out of range, which panics, is `none`.
  unfoldable pub next_hash : ℕ → ℕ → List Bytes → Option (Bytes × ℕ)
  next_hash size rp items =
      let here = get_elem? items rp in
      if ltb (rp + 1) size
      then elim here [
        | none ↦ none
        | some l ↦ elim (get_elem? items (rp + 1)) [
          | none ↦ none
          | some r ↦ some (inner_hash sum l r, rp + 2)
        ]
      ]
      else elim here [ none ↦ none | some x ↦ some (x, rp + 1) ]

  -- The loop over a level with fuel, from `rp` and `wp` on: the slice and the last `wp`. It is `none`
  -- when it panics or runs out of fuel. It writes at `wp`, which is never past `rp`.
  unfoldable pub level_on : ℕ → ℕ → ℕ → ℕ → List Bytes → Option (List Bytes × ℕ)
  unfolding next_hash
  level_on zero size rp wp items = none
  level_on (suc fuel) size rp wp items =
      if ltb rp size
      then elim (next_hash size rp items) [
        | none ↦ none
        | some (h, rp') ↦ level_on fuel size rp' (wp + 1) (set items wp h)
      ]
      else some (items, wp)

  -- The loop over the levels with fuel, from a size on.
  unfoldable pub levels_on : ℕ → ℕ → List Bytes → Option Bytes
  unfolding level_on
  levels_on zero size items = none
  levels_on (suc fuel) zero items = some (empty_hash sum)
  levels_on (suc fuel) (suc zero) items = get_elem? items 0
  levels_on (suc fuel) (suc (suc n)) items =
      elim (level_on (suc (suc (suc n))) (suc (suc n)) 0 0 items) [
        | none ↦ none
        | some (items', size) ↦ levels_on fuel size items'
      ]

  -- `HashFromByteSlicesIterative`, with one more than the number of items as the fuel.
  unfoldable pub hash_from_byte_slices_iterative : List Bytes → Option Bytes
  unfolding levels_on
  hash_from_byte_slices_iterative input =
      let items = map (leaf_hash sum) input in levels_on (suc (length items)) (length items) items

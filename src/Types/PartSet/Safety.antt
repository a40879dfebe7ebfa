-- ===== src/Types/PartSet/Safety.antt =====
-- What a complete set of parts holds (types/part_set.go): AddPart checks the proof of a part, and not
-- that the proof is for the part's index, which is an assumption here.
use relaychainmodel.Prelude.{
  false, Bool, Bool-cases, ap, List, Option-cases, arith, get_elem?, get_elem?-set_ne,
  get_elem?-set_self, get_or, inl, inr, leb, length, length-set, length-replicate, none, refl, set,
  some-injective, some, sym, true, ℕ, ◌+◌, ◌*◌, ◌-◌, ◌/◌, ◌<◌, ◌==◌, ◌≡◌, ◌≤◌, ◌∙◌, ◌⊎◌,
}
use relaychainmodel.Types.BlockId.{PartSetHeader}
use relaychainmodel.Prelude.Int.{pos}
use relaychainmodel.Prelude.Int64.{two63}
use relaychainmodel.Prelude.Bytes.{Bytes}
use relaychainmodel.Prelude.Outcome.{Outcome-cases, failed, ok, panicked, returned}
use relaychainmodel.Merkle.{hash_from_byte_slices, proof_verify}
use relaychainmodel.Merkle.Completeness.{proofs_from_byte_slices-root}
use relaychainmodel.Merkle.Soundness.{Collision, IsSized, proof_verify_sound}
use relaychainmodel.Types.PartSet.{
  Part, PartSet, add_part, full_part_set, header_of, is_complete, new_part_set_from_data, two32,
  new_part_set_from_header, read_all,
}
use relaychainmodel.Types.PartSet.Filling.{
  chunks, filled, filled-replicate, filled-set, flat, read_parts-flat, flat-chunks, length-chunks,
  parts-enough, factor-positive, cons_of, get_elem?-replicate,
}
use relaychainmodel.Types.PartSet.Slicing.{new_part_set_from_data-chunks, parts-bound, le-product}

-- The proof of a part is for its index, and for the number of the parts.
abbrev pub IsPlaced : ℕ → Part → Type 0
IsPlaced total part = (part.proof.index ≡ pos part.index) × (part.proof.total ≡ pos total)

-- A set after calls of AddPart that returned no error, for parts whose proofs are for their places.
pub data Filled (sum : Bytes → Bytes) (s : PartSet) : PartSet → Type 0 where
  here : Filled sum s s
  next :
      {t u : PartSet} (part : Part) (added : Bool)
      → Filled sum s t
      → IsPlaced t.total part
      → add_part sum t part ≡ ok (u, added)
      → Filled sum s u

-- The parts that are there are the items of a list, at their places, and the count is theirs.
record Holds (sum : Bytes → Bytes) (items : List Bytes) (s : PartSet) : Type 0 where
  total : s.total ≡ length items
  hash : s.hash ≡ hash_from_byte_slices sum items
  places : length s.parts ≡ length items
  count : s.count ≡ filled s.parts
  held : (i : ℕ) (p : Part) → get_elem? s.parts i ≡ some (some p) → get_elem? items i ≡ some p.bytes

-- A part is put at its place.
unfoldable pub put : PartSet → Part → PartSet
put s part = record s {
  parts = set s.parts part.index (some part);
  count = s.count + 1;
  byte_size = s.byte_size + length part.bytes;
}

module _ (sum : Bytes → Bytes) (sized : IsSized sum) (items : List Bytes)
    (small : length items < two63) where
  empty-Holds :
      (header : PartSetHeader)
      → header.total ≡ length items
      → header.hash ≡ hash_from_byte_slices sum items
      → Holds sum items (new_part_set_from_header header)
  unfolding new_part_set_from_header
  empty-Holds header t h = record {
    total = t;
    hash = h;
    places = length-replicate header.total none ∙ t;
    count = sym (filled-replicate header.total);
    held = λ i p e. absurd (get_elem?-replicate header.total i p e);
  }

  put-Holds :
      (s : PartSet) (part : Part)
      → Holds sum items s
      → part.index < length items
      → get_or s.parts part.index none ≡ none
      → get_elem? items part.index ≡ some part.bytes
      → Holds sum items (put s part)
  unfolding put
  put-Holds s part h below free right = record {
    total = h.total;
    hash = h.hash;
    places = length-set s.parts part.index (some part) ∙ h.places;
    count = omega (arith, h.count, h.places, filled-set s.parts part.index part);
    held = λ i p e. elim (Bool-cases (part.index == i)) [
      | inl same ↦
          let at : part.index ≡ i = ground arith in
          let here = get_elem?-set_self s.parts part.index (some part) (omega (arith, h.places)) in
          let same : part ≡ p = cc in
          let t : get_elem? items i ≡ some part.bytes = rw (← at) right in rw (← same) t
      | inr other ↦ h.held i p (sym (get_elem?-set_ne s.parts (some part) (ground arith)) ∙ e)
    ];
  }

  add_part-Holds :
      (s u : PartSet) (part : Part) (added : Bool)
      → Holds sum items s
      → IsPlaced s.total part
      → add_part sum s part ≡ ok (u, added)
      → Holds sum items u ⊎ Collision sum
  unfolding add_part put
  add_part-Holds s u part added h placed e = elim (Bool-cases (leb s.total part.index)) [
    | inl f ↦ absurd (ground arith)
    | inr f ↦ elim (Option-cases (get_or s.parts part.index none)) [
      | inr (old, g) ↦ let same : s ≡ u = ground arith in inl (rw (← same) h)
      | inl g ↦ elim (Outcome-cases (proof_verify sum part.proof (some s.hash) part.bytes)) [
        | failed x i ↦ absurd (ground arith)
        | panicked i ↦ absurd (ground arith)
        | returned x i ↦
            elim (proof_verify_sound sum sized items part.proof part.bytes part.index small
              (placed.1 ∙ ap pos h.total) placed.0 (rw (← h.hash) i)) [
                | inr c ↦ inr c
                | inl right ↦
                    let same : put s part ≡ u = ground arith in
                    inl (rw (← same) (put-Holds s part h (ground (arith, h.total)) g right))
              ]
      ]
    ]
  ]

  Filled-Holds :
      (s u : PartSet) → Holds sum items s → Filled sum s u → Holds sum items u ⊎ Collision sum
  Filled-Holds s u h (here) = inl h
  Filled-Holds s u h (next {t} part added before placed e) = elim (Filled-Holds s t h before) [
    | inr c ↦ inr c
    | inl held ↦ add_part-Holds t u part added held placed e
  ]

  -- A complete set reads as the items.
  Holds-read :
      (s : PartSet)
      → Holds sum items s
      → is_complete s ≡ true
      → 0 < length items
      → read_all s ≡ some (flat items)
  unfolding read_all
  Holds-read s h full some_items =
      let all =
        read_parts-flat s.parts items h.places (ground (arith, h.total, h.count, h.places))
          h.held in
      let (p, qs, e) = cons_of s.parts (omega (arith, h.places)) in rw (full, e) all

module _ (sum : Bytes → Bytes) (sized : IsSized sum) where
  -- Data that is not empty, with a part size above 0 and together with it at most 2 ^ 32, is read
  -- back: a set that NewPartSetFromHeader makes of the header of the set that NewPartSetFromData
  -- returns, and that any calls of AddPart without an error make complete, with parts whose proofs
  -- are for the parts' indices and their number, reads as the data, or else it gives two byte
  -- strings with one hash. A hash has 32 bytes.
  pub complete_reads :
      (bytes : Bytes) (size : ℕ) (source s : PartSet)
      → 0 < length bytes
      → 0 < size
      → length bytes + size ≤ two32
      → new_part_set_from_data sum bytes size ≡ some source
      → Filled sum (new_part_set_from_header (header_of source)) s
      → is_complete s ≡ true
      → (read_all s ≡ some bytes) ⊎ Collision sum
  unfolding full_part_set
  complete_reads bytes size source s some_bytes sized_parts small made calls full =
      let total = (length bytes + size - 1) / size in
      let items = chunks total size bytes in
      let n : length items ≡ total = length-chunks total size bytes in
      let enough : length bytes ≤ total * size = parts-enough (length bytes) size sized_parts in
      let some_parts : 0 < total = factor-positive (length bytes) total size some_bytes enough in
      let few : length items < two63 = rw n (
        omega (
          arith,
          parts-bound (length bytes) size sized_parts,
          le-product total size sized_parts,
        )) in
      let same : full_part_set sum items total (length bytes) ≡ source =
        some-injective _ source
          (sym (new_part_set_from_data-chunks sum bytes size sized_parts small) ∙ made) in
      let start =
        empty-Holds sum sized items few (header_of source) (rw (← same) (sym n))
          (rw (← same) (proofs_from_byte_slices-root sum items)) in
      elim (Filled-Holds sum sized items few (new_part_set_from_header (header_of source)) s start
        calls) [
          | inr c ↦ inr c
          | inl h ↦ inl (
              Holds-read sum sized items few s h full (rw n some_parts)
              ∙ ap some (flat-chunks total size bytes enough))
        ]

module _ (sum : Bytes → Bytes) where
  -- AddPart does not look at the index in a part's proof: a part that it adds to a set it also
  -- adds, at any other place that is free, with that place as the part's index.
  pub add_part-any_place :
      (s t : PartSet) (part : Part) (j : ℕ)
      → add_part sum s part ≡ ok (t, true)
      → j < s.total
      → get_or s.parts j none ≡ none
      → add_part sum s (record part { index = j }) ≡ ok (put s (record part { index = j }), true)
  unfolding add_part put
  add_part-any_place s t part j e h free = elim (Bool-cases (leb s.total part.index)) [
    | inl f ↦ absurd (ground arith)
    | inr f ↦ elim (Option-cases (get_or s.parts part.index none)) [
      | inr (old, g) ↦ absurd (ground arith)
      | inl g ↦ elim (Outcome-cases (proof_verify sum part.proof (some s.hash) part.bytes)) [
        | failed x i ↦ absurd (ground arith)
        | panicked i ↦ absurd (ground arith)
        | returned x i ↦
            let below : leb s.total j ≡ false = ground arith in rw (below, free, i) refl
      ]
    ]
  ]

-- ===== src/Merkle/Soundness.antt =====
-- A proof that verifies against the hash of some items shows an item, or a collision of the hash.
use relaychainmodel.Prelude.{
  Bool-cases, List, Option, Option-cases, [], ap, append-injective, arith, drop, false, get_elem?,
  get_elem?-drop, get_elem?-take, inl, inr, length, length-append, length-drop, length-take, ltb,
  ltb-false, ltb→lt, none, refl, some, some-injective, suc, sym, take, true, zero, ℕ, ◌++◌, ◌+◌,
  ◌-◌, ◌<◌, ◌∙◌, ◌∷◌, ◌≡◌, ◌≤◌, ◌⊎◌,
}
use relaychainmodel.Prelude.Int.{pos}
use relaychainmodel.Prelude.Bytes.{Bytes, bytes_eq, bytes_eq_iff, slice}
use relaychainmodel.Prelude.Outcome.{ok}
use relaychainmodel.Prelude.Int64.{two63}
use mathlib.Core.List.{reverse}
use relaychainmodel.Types.BlockId.{hash_size}
use relaychainmodel.Merkle.Split.{split_point-bounds}
use relaychainmodel.Merkle.{
  Proof, split_point, leaf_hash, inner_hash, hash_on, hash_from_byte_slices, from_root,
  proof_verify,
}

-- Two different byte strings with one hash.
abbrev pub Collision : (Bytes → Bytes) → Type 0
Collision sum = (x : Bytes) × (y : Bytes) × (bytes_eq x y ≡ false) × (sum x ≡ sum y)

-- A hash has `tmhash.Size` bytes.
abbrev pub IsSized : (Bytes → Bytes) → Type 0
IsSized sum = (b : Bytes) → length (sum b) ≡ hash_size

module _ (sum : Bytes → Bytes) (sized : IsSized sum) where
  pub same_or_Collision : (x y : Bytes) → sum x ≡ sum y → (x ≡ y) ⊎ Collision sum
  same_or_Collision x y h = elim (Bool-cases (bytes_eq x y)) [
    | inl e ↦ inl ((bytes_eq_iff x y).0 e)
    | inr e ↦ inr (x, y, e, h)
  ]

  hash_on-size : (fuel : ℕ) (items : List Bytes) → length (hash_on sum fuel items) ≡ hash_size
  unfolding hash_on
  hash_on-size zero items = sized _
  hash_on-size (suc fuel) [] = sized _
  hash_on-size (suc fuel) (x ∷ []) = sized _
  hash_on-size (suc fuel) (x ∷ y ∷ zs) = sized _

  -- What a step up from the left child or from the right one needs, and where it can come from.
  from_root-inv :
      (i n : ℕ) (leaf : Option Bytes) (h : Bytes) (hs : List Bytes) (root : Bytes)
      → from_root sum i n leaf (h ∷ hs) ≡ some root
      → (i < n)
        × (2 ≤ n)
        × (((l : Bytes) × (i < split_point n)
              × (from_root sum i (split_point n) leaf hs ≡ some l)
              × (root ≡ inner_hash sum l h))
            ⊎ ((r : Bytes) × (split_point n ≤ i)
                × (from_root sum (i - split_point n) (n - split_point n) leaf hs ≡ some r)
                × (root ≡ inner_hash sum h r)))
  unfolding from_root
  from_root-inv i n leaf h hs root e =
      let left = from_root sum i (split_point n) leaf hs in
      let right = from_root sum (i - split_point n) (n - split_point n) leaf hs in
      elim (Bool-cases (ltb i (split_point n))) [
        | inl inside ↦ elim (Option-cases left) [
          | inl f ↦ absurd (ground arith)
          | inr (l, f) ↦ (
            ground arith,
            ground arith,
            inl (l, ltb→lt i (split_point n) inside, f, ground arith),
          )
        ]
        | inr outside ↦ elim (Option-cases right) [
          | inl f ↦ absurd (ground arith)
          | inr (r, f) ↦ (
            ground arith,
            ground arith,
            inr (r, ltb-false i (split_point n) outside, f, ground arith),
          )
        ]
      ]

  from_root-nil :
      (i n : ℕ) (leaf : Option Bytes) (root : Bytes)
      → from_root sum i n leaf [] ≡ some root
      → (i ≡ 0) × (n ≡ 1) × (leaf ≡ some root)
  unfolding from_root
  from_root-nil i n leaf root h = ground arith

  from_root-size :
      (hs : List Bytes) (i n : ℕ) (leaf root : Bytes)
      → length leaf ≡ hash_size
      → from_root sum i n (some leaf) hs ≡ some root
      → length root ≡ hash_size
  from_root-size [] i n leaf root h e =
      let (a, b, same) = from_root-nil i n (some leaf) root e in
      rw (sym (some-injective leaf root same)) h
  from_root-size (x ∷ hs) i n leaf root h e = elim (from_root-inv i n (some leaf) x hs root e).2 [
    | inl (l, inside, up, same) ↦ rw same (sized _)
    | inr (r, outside, up, same) ↦ rw same (sized _)
  ]

  -- An item at a position whose leaf hash is a given one.
  abbrev Found : List Bytes → ℕ → Bytes → Type 0
  Found items i hash =
      (leaf : Bytes) × (get_elem? items i ≡ some leaf) × (hash ≡ leaf_hash sum leaf)

  from_root-Found :
      (fuel : ℕ) (items : List Bytes) (i : ℕ) (leaf : Bytes) (hs : List Bytes)
      → length leaf ≡ hash_size
      → length items ≤ fuel
      → length items < two63
      → from_root sum i (length items) (some leaf) hs ≡ some (hash_on sum fuel items)
      → Found items i leaf ⊎ Collision sum
  unfolding hash_on
  from_root-Found zero [] i leaf [] len h small e =
      absurd (omega (arith, (from_root-nil i 0 (some leaf) _ e).1))
  from_root-Found zero [] i leaf (x ∷ hs) len h small e =
      absurd (omega (arith, (from_root-inv i 0 (some leaf) x hs _ e).0))
  from_root-Found zero (y ∷ ys) i leaf hs len h small e = absurd (omega arith)
  from_root-Found (suc fuel) [] i leaf [] len h small e =
      absurd (omega (arith, (from_root-nil i 0 (some leaf) _ e).1))
  from_root-Found (suc fuel) [] i leaf (x ∷ hs) len h small e =
      absurd (omega (arith, (from_root-inv i 0 (some leaf) x hs _ e).0))
  from_root-Found (suc fuel) (y ∷ []) i leaf [] len h small e =
      let (first, one, same) = from_root-nil i 1 (some leaf) _ e in
      inl (y, rw first refl, some-injective leaf _ same)
  from_root-Found (suc fuel) (y ∷ []) i leaf (x ∷ hs) len h small e =
      absurd (omega (arith, (from_root-inv i 1 (some leaf) x hs _ e).1))
  from_root-Found (suc fuel) (y ∷ z ∷ zs) i leaf [] len h small e =
      absurd (omega (arith, (from_root-nil i (length (y ∷ z ∷ zs)) (some leaf) _ e).1))
  from_root-Found (suc fuel) (y ∷ z ∷ zs) i leaf (x ∷ hs) len h small e =
      let items = y ∷ z ∷ zs in
      let n = length items in
      let k = split_point n in
      let (below, above, p, power) = split_point-bounds n (omega arith) small in
      let hl = hash_on sum fuel (take k items) in
      let hr = hash_on sum fuel (drop k items) in
      let taken : length (take k items) ≡ k = omega (arith, length-take k items) in
      let dropped : length (drop k items) ≡ n - k = length-drop k items in
      let (inside, two, cases) = from_root-inv i n (some leaf) x hs _ e in
      elim cases [
        | inl (l, on_left, up, same) ↦
            elim (same_or_Collision (1 ∷ (hl ++ hr)) (1 ∷ (l ++ x)) same) [
              | inr c ↦ inr c
              | inl eq ↦
                  let sizes : length hl ≡ length l =
                    hash_on-size fuel (take k items) ∙ sym (from_root-size hs i k leaf l len up) in
                  let (heads, tails) = append-injective hl hr l x sizes cc in
                  elim (from_root-Found fuel (take k items) i leaf hs len (omega arith)
                    (omega arith) (rw (taken, heads) up)) [
                      | inl (b, at, f) ↦ inl (b, sym (get_elem?-take k items i on_left) ∙ at, f)
                      | inr c ↦ inr c
                    ]
            ]
        | inr (r, on_right, up, same) ↦
            elim (same_or_Collision (1 ∷ (hl ++ hr)) (1 ∷ (x ++ r)) same) [
              | inr c ↦ inr c
              | inl eq ↦
                  let eq' : hl ++ hr ≡ x ++ r = cc in
                  let size_r : length r ≡ hash_size =
                    from_root-size hs (i - k) (n - k) leaf r len up in
                  let sizes : length hl ≡ length x = omega (
                    arith,
                    size_r,
                    hash_on-size fuel (drop k items),
                    length-append hl hr,
                    length-append x r,
                    ap length eq',
                  ) in
                  let (heads, tails) = append-injective hl hr x r sizes eq' in
                  let here : k + (i - k) ≡ i = omega arith in
                  elim (from_root-Found fuel (drop k items) (i - k) leaf hs len (omega arith)
                    (omega arith) (rw (dropped, tails) up)) [
                      | inl (b, at, f) ↦
                          inl (b, rw here at (sym (get_elem?-drop k items (i - k))) ∙ at, f)
                      | inr c ↦ inr c
                    ]
            ]
      ]

  slice-some :
      (o : Option Bytes) (b : Bytes)
      → length b ≡ hash_size
      → bytes_eq (slice o) b ≡ true
      → o ≡ some b
  slice-some none b len h =
      let e : [] ≡ b = (bytes_eq_iff [] b).0 h in absurd (omega (arith, rw (sym e) at len))
  slice-some (some a) b len h = ap some ((bytes_eq_iff a b).0 h)

  proof_verify-inv :
      (p : Proof) (i n : ℕ) (root leaf : Bytes)
      → p.total ≡ pos n
      → p.index ≡ pos i
      → proof_verify sum p (some root) leaf ≡ ok tt
      → (bytes_eq (slice p.leaf_hash) (leaf_hash sum leaf) ≡ true)
        × (bytes_eq (slice (from_root sum i n p.leaf_hash (reverse p.aunts))) root ≡ true)
  unfolding proof_verify
  proof_verify-inv p i n root leaf total index h =
      let h' = rw (total, index) at h in
      elim (Bool-cases (bytes_eq (slice p.leaf_hash) (leaf_hash sum leaf))) [
        | inr e ↦ absurd (ground arith)
        | inl e ↦
            elim (Bool-cases
              (bytes_eq (slice (from_root sum i n p.leaf_hash (reverse p.aunts))) root)) [
                | inr f ↦ absurd (ground arith)
                | inl f ↦ (e, f)
              ]
      ]

  -- A proof for the right number of items that verifies, for a leaf, against the hash of fewer than
  -- 2 ^ 63 items shows that the leaf is the item at its index, or else it gives two byte strings with
  -- one hash. A hash has 32 bytes.
  pub proof_verify_sound :
      (items : List Bytes) (p : Proof) (leaf : Bytes) (i : ℕ)
      → length items < two63
      → p.total ≡ pos (length items)
      → p.index ≡ pos i
      → proof_verify sum p (some (hash_from_byte_slices sum items)) leaf ≡ ok tt
      → (get_elem? items i ≡ some leaf) ⊎ Collision sum
  unfolding hash_from_byte_slices
  proof_verify_sound items p leaf i small total index h =
      let n = length items in
      let root = hash_on sum n items in
      let (leaves, roots) = proof_verify-inv p i n root leaf total index h in
      let at_leaf = slice-some p.leaf_hash (leaf_hash sum leaf) (sized _) leaves in
      let at_root =
        slice-some (from_root sum i n p.leaf_hash (reverse p.aunts)) root (hash_on-size n items)
          roots in
      elim (from_root-Found n items i (leaf_hash sum leaf) (reverse p.aunts) (sized _) (omega arith)
        small (rw at_leaf at at_root)) [
          | inr c ↦ inr c
          | inl (b, at, same) ↦ elim (same_or_Collision (0 ∷ leaf) (0 ∷ b) same) [
            | inr c ↦ inr c
            | inl eq ↦ let e : leaf ≡ b = cc in inl (at ∙ ap some (sym e))
          ]
        ]

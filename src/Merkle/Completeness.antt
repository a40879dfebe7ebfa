-- ===== src/Merkle/Completeness.antt =====
-- The proofs that `ProofsFromByteSlices` makes verify against the hash of `HashFromByteSlices`.
use relaychainmodel.Prelude.{
  ap, Bool-cases, List, Option, Option-cases, [], arith, drop, false, get_elem?,
  get_elem?-append_left, get_elem?-append_right, get_elem?-drop, get_elem?-lt, get_elem?-map,
  get_elem?-take, inl, inr, length, length-append, length-drop, length-map, length-take, ltb,
  ltb-false, ltb→lt, map, none, refl, some, some-injective, suc, sym, take, zero, ℕ, ◌++◌, ◌+◌, ◌-◌,
  ◌<◌, ◌∙◌, ◌∷◌, ◌≡◌, ◌≤◌,
}
use relaychainmodel.Prelude.Int.{ltb_ℤ, pos}
use relaychainmodel.Prelude.Bytes.{Bytes, bytes_eq_refl}
use relaychainmodel.Prelude.Outcome.{ok}
use relaychainmodel.Prelude.Int64.{two63}
use mathlib.Core.List.{reverse, reverse-append, append-nil}
use relaychainmodel.Merkle.Split.{split_point-bounds}
use relaychainmodel.Merkle.{
  Proof, ProofNode, split_point, leaf_hash, inner_hash, hash_on, hash_from_byte_slices, trails_on,
  flatten_aunts, first_hash, proof_at, proofs_from, proofs_from_byte_slices, from_root,
  proof_verify,
}

flatten_aunts-append :
    (xs ys : List ProofNode) → flatten_aunts (xs ++ ys) ≡ flatten_aunts xs ++ flatten_aunts ys
unfolding flatten_aunts
flatten_aunts-append [] ys = refl
flatten_aunts-append (x ∷ xs) ys =
    let h = flatten_aunts-append xs ys in
    elim (Option-cases x.left) [
      | inr (l, e) ↦ rw (e, h)
      | inl e ↦ elim (Option-cases x.right) [ inr (r, f) ↦ rw (e, f, h) | inl f ↦ rw (e, f, h) ]
    ]

-- The aunts of a trail from the root down.
abbrev down : List ProofNode → List Bytes
down t = reverse (flatten_aunts t)

abbrev bare : Bytes → ProofNode
bare h = record { hash = h; left = none; right = none }

-- The roots of two halves, after they are joined.
abbrev left_of : Bytes → Bytes → ProofNode
left_of l r = record { hash = l; left = none; right = some r }

abbrev right_of : Bytes → Bytes → ProofNode
right_of l r = record { hash = r; left = some l; right = none }

left_aunt : (l r : Bytes) → flatten_aunts (left_of l r ∷ []) ≡ r ∷ []
unfolding flatten_aunts
left_aunt l r = refl

right_aunt : (l r : Bytes) → flatten_aunts (right_of l r ∷ []) ≡ l ∷ []
unfolding flatten_aunts
right_aunt l r = refl

down-append :
    (t : List ProofNode) (n : ProofNode) (a : Bytes)
    → flatten_aunts (n ∷ []) ≡ a ∷ []
    → down (t ++ (n ∷ [])) ≡ a ∷ down t
down-append t n a h =
    rw (flatten_aunts-append t (n ∷ []), h, reverse-append (flatten_aunts t) (a ∷ []))

module _ (sum : Bytes → Bytes) where
  -- A trail below a root leads from the leaf at a position to the hash of the items.
  abbrev Leads : List Bytes → Bytes → ℕ → List ProofNode → Type 0
  Leads items root i t =
      (leaf : Bytes) × (get_elem? items i ≡ some leaf)
      × (first_hash sum t (bare root) ≡ leaf_hash sum leaf)
      × (from_root sum i (length items) (some (leaf_hash sum leaf)) (down t) ≡ some root)

  first_hash-append :
      (t : List ProofNode) (n root other : ProofNode)
      → n.hash ≡ other.hash
      → first_hash sum (t ++ (n ∷ [])) root ≡ first_hash sum t other
  first_hash-append [] n root other h = h
  first_hash-append (x ∷ xs) n root other h = refl

  from_root-left :
      (i n : ℕ) (leaf : Option Bytes) (h : Bytes) (hs : List Bytes) (l : Bytes)
      → i < split_point n
      → split_point n < n
      → from_root sum i (split_point n) leaf hs ≡ some l
      → from_root sum i n leaf (h ∷ hs) ≡ some (inner_hash sum l h)
  unfolding from_root
  from_root-left i n leaf h hs l inside below up = ground arith

  from_root-right :
      (i n : ℕ) (leaf : Option Bytes) (h : Bytes) (hs : List Bytes) (r : Bytes)
      → split_point n ≤ i
      → i < n
      → 2 ≤ n
      → from_root sum (i - split_point n) (n - split_point n) leaf hs ≡ some r
      → from_root sum i n leaf (h ∷ hs) ≡ some (inner_hash sum h r)
  unfolding from_root
  from_root-right i n leaf h hs r outside below two up = ground arith

  from_root-one : (leaf : Bytes) → from_root sum 0 1 (some leaf) (down []) ≡ some leaf
  unfolding from_root flatten_aunts
  from_root-one leaf = refl

  -- One level up, on the left.
  Leads-left :
      (items : List Bytes) (l r : Bytes) (i : ℕ) (t : List ProofNode)
      → length (take (split_point (length items)) items) ≡ split_point (length items)
      → split_point (length items) < length items
      → Leads (take (split_point (length items)) items) l i t
      → Leads items (inner_hash sum l r) i (t ++ (left_of l r ∷ []))
  Leads-left items l r i t size below (leaf, at, first, up) =
      let k = split_point (length items) in
      let inside : i < k = omega (arith, get_elem?-lt _ i at) in
      let up' : from_root sum i k (some (leaf_hash sum leaf)) (down t) ≡ some l = rw size at up in
      (
        leaf,
        sym (get_elem?-take k items i inside) ∙ at,
        first_hash-append t (left_of l r) _ (bare l) refl ∙ first,
        rw (down-append t (left_of l r) r (left_aunt l r))
            (from_root-left i _ _ r _ l inside below up'),
      )

  -- One level up, on the right.
  Leads-right :
      (items : List Bytes) (l r : Bytes) (i : ℕ) (t : List ProofNode)
      → length (drop (split_point (length items)) items) ≡ length items - split_point (length items)
      → 0 < split_point (length items)
      → Leads (drop (split_point (length items)) items) r i t
      → Leads items (inner_hash sum l r) (split_point (length items) + i) (t ++ (right_of l r ∷ []))
  Leads-right items l r i t size above (leaf, at, first, up) =
      let k = split_point (length items) in
      let inside : i < length items - k = omega (arith, get_elem?-lt _ i at) in
      let e : k + i - k ≡ i = omega arith in
      let up' : from_root sum (k + i - k) (length items - k) (some (leaf_hash sum leaf)) (down t)
          ≡ some r =
        rw e (rw size at up) in
      (
        leaf,
        sym (get_elem?-drop k items i) ∙ at,
        first_hash-append t (right_of l r) _ (bare r) refl ∙ first,
        rw (down-append t (right_of l r) l (right_aunt l r))
            (from_root-right (k + i) _ _ l _ r (omega arith) (omega arith) (omega arith) up'),
      )

  -- A list of trails has one for each item, and they lead to the root.
  abbrev AllLead : List Bytes → Bytes → List (List ProofNode) → Type 0
  AllLead items root ts =
      (length ts ≡ length items)
      × ((i : ℕ)
          → i < length items
          → (t : List ProofNode) × (get_elem? ts i ≡ some t) × Leads items root i t)

  abbrev join :
      Bytes → Bytes → List (List ProofNode) → List (List ProofNode) → List (List ProofNode)
  join l r lefts rights =
      map (λ t. t ++ (left_of l r ∷ [])) lefts ++ map (λ t. t ++ (right_of l r ∷ [])) rights

  join-length :
      (l r : Bytes) (lefts rights : List (List ProofNode))
      → length (join l r lefts rights) ≡ length lefts + length rights
  join-length l r lefts rights = omega (
    arith,
    length-append (map (λ t. t ++ (left_of l r ∷ [])) lefts)
        (map (λ t. t ++ (right_of l r ∷ [])) rights),
    length-map lefts (λ t. t ++ (left_of l r ∷ [])),
    length-map rights (λ t. t ++ (right_of l r ∷ [])),
  )

  join-AllLead :
      (items : List Bytes) (l r : Bytes) (lefts rights : List (List ProofNode))
      → 2 ≤ length items
      → length items < two63
      → AllLead (take (split_point (length items)) items) l lefts
      → AllLead (drop (split_point (length items)) items) r rights
      → AllLead items (inner_hash sum l r) (join l r lefts rights)
  join-AllLead items l r lefts rights two small (len_l, on_left) (len_r, on_right) =
      let k = split_point (length items) in
      let (below, above, e, power) = split_point-bounds (length items) two small in
      let taken : length (take k items) ≡ k = omega (arith, length-take k items) in
      let dropped : length (drop k items) ≡ length items - k = length-drop k items in
      let gl : List ProofNode → List ProofNode = λ t. t ++ (left_of l r ∷ []) in
      let gr : List ProofNode → List ProofNode = λ t. t ++ (right_of l r ∷ []) in
      let mapped : length (map gl lefts) ≡ k = omega (arith, length-map lefts gl) in
      (
        omega (arith, join-length l r lefts rights),
        λ i h. elim (Bool-cases (ltb i k)) [
          | inl e ↦
              let inside = ltb→lt i k e in
              let (t, at, leads) = on_left i (omega arith) in
              (
                gl t,
                get_elem?-append_left (map gl lefts) (map gr rights) i (omega arith)
                    ∙ get_elem?-map gl lefts i t at,
                Leads-left items l r i t taken below leads,
              )
          | inr e ↦
              let outside = ltb-false i k e in
              let j = i - k in
              let (t, at, leads) = on_right j (omega arith) in
              let here : length (map gl lefts) + j ≡ i = omega arith in
              let here' : k + j ≡ i = omega arith in
              (
                gr t,
                rw here at (get_elem?-append_right (map gl lefts) (map gr rights) j)
                    ∙ get_elem?-map gr rights j t at,
                rw here' at (Leads-right items l r j t dropped (omega arith) leads),
              )
        ],
      )

  -- The root of the trails has the hash of the items, and all trails lead to it.
  trails_on-root :
      (fuel : ℕ) (items : List Bytes) → (trails_on sum fuel items).1 ≡ bare (hash_on sum fuel items)
  unfolding trails_on hash_on
  trails_on-root zero items = refl
  trails_on-root (suc fuel) [] = refl
  trails_on-root (suc fuel) (x ∷ []) = refl
  trails_on-root (suc fuel) (x ∷ y ∷ zs) =
      let items = x ∷ y ∷ zs in
      let k = split_point (length items) in
      rw (trails_on-root fuel (take k items), trails_on-root fuel (drop k items))

  trails_on-AllLead :
      (fuel : ℕ) (items : List Bytes)
      → length items ≤ fuel
      → length items < two63
      → AllLead items (hash_on sum fuel items) (trails_on sum fuel items).0
  unfolding trails_on hash_on
  trails_on-AllLead zero [] h small = (refl, λ i g. absurd (omega arith))
  trails_on-AllLead zero (x ∷ xs) h small = absurd (omega arith)
  trails_on-AllLead (suc fuel) [] h small = (refl, λ i g. absurd (omega arith))
  trails_on-AllLead (suc fuel) (x ∷ []) h small = (
    refl,
    λ i g. (
      [],
      let e : i ≡ 0 = omega arith in rw e refl,
      (
        x,
        let e : i ≡ 0 = omega arith in rw e refl,
        refl,
        let e : i ≡ 0 = omega arith in rw e (from_root-one (leaf_hash sum x)),
      ),
    ),
  )
  trails_on-AllLead (suc fuel) (x ∷ y ∷ zs) h small =
      let items = x ∷ y ∷ zs in
      let k = split_point (length items) in
      let (below, above, e, power) = split_point-bounds (length items) (omega arith) small in
      let a =
        trails_on-AllLead fuel (take k items) (omega (arith, length-take k items))
          (omega (arith, length-take k items)) in
      let b =
        trails_on-AllLead fuel (drop k items) (omega (arith, length-drop k items))
          (omega (arith, length-drop k items)) in
      rw (trails_on-root fuel (take k items), trails_on-root fuel (drop k items))
        (join-AllLead items _ _ _ _ (omega arith) small a b)

  proofs_from-get :
      (total k : ℕ) (root : ProofNode) (ts : List (List ProofNode)) (i : ℕ) (t : List ProofNode)
      → get_elem? ts i ≡ some t
      → get_elem? (proofs_from sum total k root ts) i ≡ some (proof_at sum total (k + i) root t)
  unfolding proofs_from
  proofs_from-get total k root [] i t h = cc
  proofs_from-get total k root (t ∷ ts) zero u h =
      let e : k + 0 ≡ k = omega arith in rw (e, some-injective t u h)
  proofs_from-get total k root (t ∷ ts) (suc i) u h =
      let e : k + suc i ≡ k + 1 + i = omega arith in
      rw e (proofs_from-get total (k + 1) root ts i u h)

  -- The root has no siblings, and so no aunts of its own.
  root_aunts :
      (t : List ProofNode) (h : Bytes) → flatten_aunts (t ++ (bare h ∷ [])) ≡ flatten_aunts t
  unfolding flatten_aunts
  root_aunts t h = flatten_aunts-append t (bare h ∷ []) ∙ append-nil (flatten_aunts t)

  Leads-verifies :
      (items : List Bytes) (root : Bytes) (i : ℕ) (t : List ProofNode)
      → (leads : Leads items root i t)
      → proof_verify sum (proof_at sum (length items) i (bare root) t) (some root) leads.0 ≡ ok tt
  unfolding proof_verify proof_at
  Leads-verifies items root i t (leaf, at, first, up) =
      let not_negative : (n : ℕ) → ltb_ℤ (pos n) (pos 0) ≡ false = λ n. ground arith in
      rw (
        not_negative (length items),
        not_negative i,
        root_aunts t root,
        first,
        up,
        bytes_eq_refl (leaf_hash sum leaf),
        bytes_eq_refl root,
      )

  -- The proofs come with the root's hash.
  pub proofs_from_byte_slices-root :
      (items : List Bytes) → (proofs_from_byte_slices sum items).0 ≡ hash_from_byte_slices sum items
  unfolding proofs_from_byte_slices hash_from_byte_slices
  proofs_from_byte_slices-root items =
      ap (λ (n : ProofNode). n.hash) (trails_on-root (length items) items)

  -- For each of fewer than 2 ^ 63 items, `ProofsFromByteSlices` makes a proof with the item's index
  -- and the number of the items, and it verifies against the hash of `HashFromByteSlices`.
  pub proofs_complete :
      (items : List Bytes) (i : ℕ)
      → length items < two63
      → i < length items
      → (p : Proof) × (leaf : Bytes) × (get_elem? (proofs_from_byte_slices sum items).1 i ≡ some p)
        × (p.index ≡ pos i)
        × (p.total ≡ pos (length items))
        × (get_elem? items i ≡ some leaf)
        × (proof_verify sum p (some (hash_from_byte_slices sum items)) leaf ≡ ok tt)
  unfolding proofs_from_byte_slices hash_from_byte_slices proof_at
  proofs_complete items i small h =
      let n = length items in
      let (sizes, leads) = trails_on-AllLead n items (omega arith) small in
      let (t, at, lead) = leads i h in
      let root = bare (hash_on sum n items) in
      (
        proof_at sum n i root t,
        lead.0,
        let e : 0 + i ≡ i = omega arith in
            rw (trails_on-root n items) (rw e at (proofs_from-get n 0 root _ i t at)),
        refl,
        refl,
        lead.1,
        Leads-verifies items _ i t lead,
      )

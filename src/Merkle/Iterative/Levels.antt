-- ===== src/Merkle/Iterative/Levels.antt =====
-- The pass over a level of hashes, as a function of the level: pairs are joined, and a last hash
-- without a partner stays.
use relaychainmodel.Prelude.{
  List, [], arith, false, true, ap, drop, drop-cons, length, ltb, lt→ltb, refl, set, some, suc, sym,
  take, take-append-drop, zero, ℕ, ◌++◌, ◌+◌, ◌*◌, ◌/◌, ◌<◌, ◌∙◌, ◌∷◌, ◌≡◌, ◌≤◌,
}
use mathlib.Core.List.{append_assoc, append-nil}
use relaychainmodel.Prelude.Bytes.{Bytes}
use relaychainmodel.Merkle.{inner_hash}
use relaychainmodel.Merkle.Iterative.{level_on, next_hash}

module _ {ℓ} {A : Type ℓ} where
  drop-set : (n : ℕ) (xs : List A) (i : ℕ) (v : A) → i < n → drop n (set xs i v) ≡ drop n xs
  drop-set zero xs i v h = absurd (omega arith)
  drop-set (suc n) [] i v h = refl
  drop-set (suc n) (x ∷ xs) zero v h = refl
  drop-set (suc n) (x ∷ xs) (suc i) v h = drop-set n xs i v (omega arith)

  take-set :
      (xs : List A) (i : ℕ) (v : A)
      → i < length xs
      → take (suc i) (set xs i v) ≡ take i xs ++ (v ∷ [])
  take-set [] i v h = absurd (omega arith)
  take-set (x ∷ xs) zero v h = refl
  take-set (x ∷ xs) (suc i) v h = ap (λ r. x ∷ r) (take-set xs i v (omega arith))

module _ (sum : Bytes → Bytes) where
  abbrev pub pair_up : List Bytes → List Bytes
  pair_up [] = []
  pair_up (x ∷ []) = x ∷ []
  pair_up (x ∷ y ∷ zs) = inner_hash sum x y ∷ pair_up zs

  pub length-pair_up : (hs : List Bytes) → length (pair_up hs) ≡ (length hs + 1) / 2
  length-pair_up [] = refl
  length-pair_up (x ∷ []) = refl
  length-pair_up (x ∷ y ∷ zs) = let h = length-pair_up zs in omega arith

  pub pair_up-append :
      (k : ℕ) (xs ys : List Bytes)
      → length xs ≡ 2 * k
      → pair_up (xs ++ ys) ≡ pair_up xs ++ pair_up ys
  pair_up-append k [] ys h = refl
  pair_up-append k (x ∷ []) ys h = absurd (omega arith)
  pair_up-append zero (x ∷ y ∷ zs) ys h = absurd (omega arith)
  pair_up-append (suc k) (x ∷ y ∷ zs) ys h =
      ap (λ r. inner_hash sum x y ∷ r) (pair_up-append k zs ys (omega arith))

  -- What a pass does from `rp` and `wp` on, when `w` is written and `rest` is to be read.
  abbrev Passed : ℕ → ℕ → ℕ → ℕ → List Bytes → List Bytes → List Bytes → Type 0
  Passed fuel size rp wp items w rest =
      (items' : List Bytes) × (level_on sum fuel size rp wp items
        ≡ some (items', wp + length (pair_up rest)))
      × (take (wp + length (pair_up rest)) items' ≡ w ++ pair_up rest)

  pass_step :
      (fuel size rp wp rp' : ℕ) (items w rest rest' : List Bytes) (h : Bytes)
      → rp < size
      → next_hash sum size rp items ≡ some (h, rp')
      → pair_up rest ≡ h ∷ pair_up rest'
      → Passed fuel size rp' (suc wp) (set items wp h) (w ++ (h ∷ [])) rest'
      → Passed (suc fuel) size rp wp items w rest
  unfolding level_on
  pass_step fuel size rp wp rp' items w rest rest' h lt next paired (items', ran, written) =
      let one : wp + 1 ≡ suc wp = omega arith in
      let n : wp + length (pair_up rest) ≡ suc wp + length (pair_up rest') =
        rw paired (omega arith) in
      (
        items',
        rw (lt→ltb rp size lt, next, one, ran, n),
        rw (n, written, paired, append_assoc w (h ∷ []) (pair_up rest')),
      )

  -- A step writes its hash after the written ones and leaves what is to be read.
  written_next :
      (items w : List Bytes) (wp : ℕ) (h : Bytes)
      → wp < length items
      → take wp items ≡ w
      → take (suc wp) (set items wp h) ≡ w ++ (h ∷ [])
  written_next items w wp h lt e = rw (take-set items wp h lt, e)

  pass :
      (fuel size rp wp : ℕ) (items w rest t : List Bytes)
      → wp ≤ rp
      → drop rp items ≡ rest ++ t
      → rp + length rest ≡ size
      → length rest < fuel
      → take wp items ≡ w
      → Passed fuel size rp wp items w rest
  unfolding level_on next_hash
  pass zero size rp wp items w rest t le e s f tw = absurd (omega arith)
  pass (suc fuel) size rp wp items w [] t le e s f tw =
      let stop : ltb rp size ≡ false = ground arith in
      let n : wp + 0 ≡ wp = omega arith in (items, rw (stop, n), rw (n, tw, append-nil w))
  pass (suc fuel) size rp wp items w (x ∷ []) t le e s f tw =
      let (here, after, within) = drop-cons rp items x t e in
      let last : ltb (rp + 1) size ≡ false = ground arith in
      let one : rp + 1 ≡ suc rp = omega arith in
      pass_step fuel size rp wp (suc rp) items w (x ∷ []) [] x (omega arith) (rw (last, here, one))
        refl
        (pass fuel size (suc rp) (suc wp) (set items wp x) (w ++ (x ∷ [])) [] t (omega arith)
          (drop-set (suc rp) items wp x (omega arith) ∙ after) (omega arith) (omega arith)
          (written_next items w wp x (omega arith) tw))
  pass (suc fuel) size rp wp items w (x ∷ y ∷ zs) t le e s f tw =
      let (here, after, within) = drop-cons rp items x (y ∷ (zs ++ t)) e in
      let (there, after', within') = drop-cons (suc rp) items y (zs ++ t) after in
      let more : ltb (rp + 1) size ≡ true = ground arith in
      let one : rp + 1 ≡ suc rp = omega arith in
      let two : rp + 2 ≡ suc (suc rp) = omega arith in
      let h = inner_hash sum x y in
      pass_step fuel size rp wp (suc (suc rp)) items w (x ∷ y ∷ zs) zs h (omega arith)
        (rw (more, here, one, there, two)) refl
        (pass fuel size (suc (suc rp)) (suc wp) (set items wp h) (w ++ (h ∷ [])) zs t (omega arith)
          (drop-set (suc (suc rp)) items wp h (omega arith) ∙ after') (omega arith) (omega arith)
          (written_next items w wp h (omega arith) tw))

  -- A pass over the first hashes of a slice leaves the level above them at its start.
  pub level_on-pair_up :
      (size : ℕ) (items hs : List Bytes)
      → length hs ≡ size
      → take size items ≡ hs
      → (items' : List Bytes) × (level_on sum (suc size) size 0 0 items
          ≡ some (items', length (pair_up hs)))
        × (take (length (pair_up hs)) items' ≡ pair_up hs)
  level_on-pair_up size items hs n e =
      let start = let s = take-append-drop size items in sym (rw e at s) in
      let (items', ran, written) =
        pass (suc size) size 0 0 items [] hs (drop size items) (omega arith) start (omega arith)
          (omega arith) refl in
      let z : 0 + length (pair_up hs) ≡ length (pair_up hs) = omega arith in
      (items', rw z at ran, rw z at written)

-- ===== src/Types/ValidatorSet/Updates/Members.antt =====
-- Who is in a list of validators: the power and the number of those with an address, which sorting
-- keeps, and the strict order by address.
use relaychainmodel.Prelude.{
  ap, length, suc, ◌∙◌, Bool, Bool-cases, List, [], arith, false, if◌then◌else◌, inl, inr, refl,
  true, ℕ, ◌+◌, ◌∷◌, ◌≡◌, ◌≤◌,
}
use relaychainmodel.Prelude.Bytes.{Bytes, bytes_eq, bytes_eq_iff, bytes_eq_refl}
use relaychainmodel.Types.ValidatorSet.{Validator, bytes_lt, power}
use relaychainmodel.Types.ValidatorSet.Updates.{by_address, insert_by, sort_by}

-- `bytes_lt` is a strict total order.
pub bytes_lt_irrefl : (a : Bytes) → bytes_lt a a ≡ false
unfolding bytes_lt
bytes_lt_irrefl [] = refl
bytes_lt_irrefl (x ∷ a) = ground (arith, bytes_lt_irrefl a)

pub bytes_lt_trans :
    (a b c : Bytes) → bytes_lt a b ≡ true → bytes_lt b c ≡ true → bytes_lt a c ≡ true
unfolding bytes_lt
bytes_lt_trans [] [] c h k = cc
bytes_lt_trans (x ∷ a) [] c h k = cc
bytes_lt_trans [] (y ∷ b) [] h k = cc
bytes_lt_trans [] (y ∷ b) (z ∷ c) h k = refl
bytes_lt_trans (x ∷ a) (y ∷ b) [] h k = cc
bytes_lt_trans (x ∷ a) (y ∷ b) (z ∷ c) h k = ground (arith, bytes_lt_trans a b c)

pub bytes_lt-total :
    (a b : Bytes) → bytes_lt a b ≡ false → bytes_eq a b ≡ false → bytes_lt b a ≡ true
unfolding bytes_lt bytes_eq
bytes_lt-total [] [] h e = cc
bytes_lt-total [] (y ∷ b) h e = cc
bytes_lt-total (x ∷ a) [] h e = refl
bytes_lt-total (x ∷ a) (y ∷ b) h e = ground (arith, bytes_lt-total a b)

pub bytes_eq_comm : (a b : Bytes) → bytes_eq a b ≡ bytes_eq b a
unfolding bytes_eq
bytes_eq_comm [] [] = refl
bytes_eq_comm [] (y ∷ b) = refl
bytes_eq_comm (x ∷ a) [] = refl
bytes_eq_comm (x ∷ a) (y ∷ b) = ground (arith, bytes_eq_comm a b)

pub bytes_lt-ne : (a b : Bytes) → bytes_lt a b ≡ true → bytes_eq a b ≡ false
bytes_lt-ne a b h = ground (arith, bytes_eq_iff a b, bytes_lt_irrefl b)

-- The number of the validators with an address, and their power.
unfoldable pub count : Bytes → List Validator → ℕ
count a [] = 0
count a (v ∷ vs) = (if bytes_eq v.address a then 1 else 0) + count a vs

unfoldable pub held : Bytes → List Validator → ℕ
held a [] = 0
held a (v ∷ vs) = (if bytes_eq v.address a then v.voting_power else 0) + held a vs

-- No two validators have one address.
abbrev pub IsUnique : List Validator → Type 0
IsUnique vs = (a : Bytes) → count a vs ≤ 1

pub held-none : (a : Bytes) (vs : List Validator) → count a vs ≡ 0 → held a vs ≡ 0
unfolding count held
held-none a [] h = refl
held-none a (v ∷ vs) h = ground (arith, held-none a vs)

module _ (less : Validator → Validator → Bool) where
  insert_by-same :
      (a : Bytes) (v : Validator) (vs : List Validator)
      → (count a (insert_by less v vs) ≡ count a (v ∷ vs))
        × (held a (insert_by less v vs) ≡ held a (v ∷ vs))
        × (power (insert_by less v vs) ≡ power (v ∷ vs))
  unfolding insert_by count held power
  insert_by-same a v [] = (refl, refl, refl)
  insert_by-same a v (w ∷ vs) = elim (Bool-cases (less v w)) [
    | inl e ↦ rw e (refl, refl, refl)
    | inr e ↦ let (c, h, p) = insert_by-same a v vs in rw e (omega arith, omega arith, omega arith)
  ]

  -- Sorting keeps the number, the power of each address, and the total.
  pub sort_by-same :
      (a : Bytes) (vs : List Validator)
      → (count a (sort_by less vs) ≡ count a vs)
        × (held a (sort_by less vs) ≡ held a vs)
        × (power (sort_by less vs) ≡ power vs)
  unfolding sort_by count held power
  sort_by-same a [] = (refl, refl, refl)
  sort_by-same a (v ∷ vs) =
      let (c, h, p) = sort_by-same a vs in
      let (c', h', p') = insert_by-same a v (sort_by less vs) in
      (omega arith, omega arith, omega arith)

module _ {A : Type 0} (less : A → A → Bool) where
  insert_by-length : (a : A) (bs : List A) → length (insert_by less a bs) ≡ suc (length bs)
  unfolding insert_by
  insert_by-length a [] = refl
  insert_by-length a (b ∷ bs) = elim (Bool-cases (less a b)) [
    | inl e ↦ rw e refl
    | inr e ↦ rw e (ap suc (insert_by-length a bs))
  ]

  pub sort_by-length : (bs : List A) → length (sort_by less bs) ≡ length bs
  unfolding sort_by
  sort_by-length [] = refl
  sort_by-length (b ∷ bs) = insert_by-length b (sort_by less bs) ∙ ap suc (sort_by-length bs)

-- All addresses come after an address.
abbrev pub Above : Bytes → List Validator → Type 0
Above a [] = Unit {0}
Above a (v ∷ vs) = (bytes_lt a v.address ≡ true) × Above a vs

-- The addresses grow from each validator to the next.
abbrev pub IsSorted : List Validator → Type 0
IsSorted [] = Unit {0}
IsSorted (v ∷ vs) = Above v.address vs × IsSorted vs

pub Above-trans :
    (a b : Bytes) (vs : List Validator) → bytes_lt a b ≡ true → Above b vs → Above a vs
Above-trans a b [] h k = tt
Above-trans a b (v ∷ vs) h (k, ks) = (bytes_lt_trans a b v.address h k, Above-trans a b vs h ks)

pub Above-count : (a : Bytes) (vs : List Validator) → Above a vs → count a vs ≡ 0
unfolding count
Above-count a [] h = refl
Above-count a (v ∷ vs) (h, hs) =
    ground (arith, bytes_lt-ne a v.address h, bytes_eq_comm a v.address, Above-count a vs hs)

insert_by-Above :
    (a : Bytes) (v : Validator) (vs : List Validator)
    → bytes_lt a v.address ≡ true
    → Above a vs
    → Above a (insert_by by_address v vs)
unfolding insert_by
insert_by-Above a v [] h k = (h, tt)
insert_by-Above a v (w ∷ vs) h (k, ks) = elim (Bool-cases (by_address v w)) [
  | inl e ↦ rw e (h, (k, ks))
  | inr e ↦ rw e (k, insert_by-Above a v vs h ks)
]

insert_by-IsSorted :
    (v : Validator) (vs : List Validator)
    → count v.address vs ≡ 0
    → IsSorted vs
    → IsSorted (insert_by by_address v vs)
unfolding insert_by count
insert_by-IsSorted v [] new h = (tt, tt)
insert_by-IsSorted v (w ∷ vs) new (h, hs) = elim (Bool-cases (by_address v w)) [
  | inl e ↦ rw e ((e, Above-trans v.address w.address vs e h), (h, hs))
  | inr e ↦
      let ne : bytes_eq v.address w.address ≡ false =
        ground (arith, bytes_eq_comm v.address w.address) in
      rw e (
        insert_by-Above w.address v vs (bytes_lt-total v.address w.address e ne) h,
        insert_by-IsSorted v vs (ground arith) hs,
      )
]

-- Validators with distinct addresses are put into the strict order.
pub sort_by-IsSorted : (vs : List Validator) → IsUnique vs → IsSorted (sort_by by_address vs)
unfolding sort_by count
sort_by-IsSorted [] u = tt
sort_by-IsSorted (v ∷ vs) u =
    let (c, h, p) = sort_by-same by_address v.address vs in
    let one = u v.address in
    insert_by-IsSorted v (sort_by by_address vs) (ground (arith, bytes_eq_refl v.address))
      (sort_by-IsSorted vs (λ a. let one_a = u a in ground arith))

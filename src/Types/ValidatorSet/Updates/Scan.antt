-- ===== src/Types/ValidatorSet/Updates/Scan.antt =====
-- What processChanges returns: updates and removals in the strict order by address, which together
-- are the changes, each of its own address.
use relaychainmodel.Prelude.{
  Bool-cases, List, [], arith, false, if◌then◌else◌, inl, inr, refl, true, ℕ, ◌+◌, ◌∷◌, ◌≡◌, ◌≤◌,
  ◌⊎◌, ◌==◌, ◌∙◌,
}
use relaychainmodel.Prelude.Int.{negsuc, pos, pos_part, ℤ}
use relaychainmodel.Prelude.Bytes.{Bytes, bytes_eq, bytes_eq_iff}
use relaychainmodel.Prelude.Outcome.{Outcome-cases, failed, ok, panicked, returned}
use relaychainmodel.Types.ValidatorSet.{Validator, bytes_lt}
use relaychainmodel.Types.ValidatorSet.Updates.{
  Change, change_by_address, insert_by, process_changes, put_change, scan_changes, sort_by,
}
use relaychainmodel.Types.ValidatorSet.Updates.Members.{
  Above, Above-count, Above-trans, IsSorted, bytes_lt_irrefl, bytes_lt-total, bytes_lt_trans, count,
  held,
}

-- The number of the changes of an address, and the power that they ask for.
unfoldable pub mentions : Bytes → List Change → ℕ
mentions a [] = 0
mentions a (c ∷ cs) = (if bytes_eq c.address a then 1 else 0) + mentions a cs

unfoldable pub asked : Bytes → List Change → ℕ
asked a [] = 0
asked a (c ∷ cs) = (if bytes_eq c.address a then pos_part c.voting_power else 0) + asked a cs

insert_by-changes :
    (a : Bytes) (c : Change) (cs : List Change)
    → (mentions a (insert_by change_by_address c cs) ≡ mentions a (c ∷ cs))
      × (asked a (insert_by change_by_address c cs) ≡ asked a (c ∷ cs))
unfolding insert_by mentions asked
insert_by-changes a c [] = (refl, refl)
insert_by-changes a c (d ∷ cs) = elim (Bool-cases (change_by_address c d)) [
  | inl e ↦ rw e (refl, refl)
  | inr e ↦ let (m, p) = insert_by-changes a c cs in rw e (omega arith, omega arith)
]

sort_by-changes :
    (a : Bytes) (cs : List Change)
    → (mentions a (sort_by change_by_address cs) ≡ mentions a cs)
      × (asked a (sort_by change_by_address cs) ≡ asked a cs)
unfolding sort_by mentions asked
sort_by-changes a [] = (refl, refl)
sort_by-changes a (c ∷ cs) =
    let (m, p) = sort_by-changes a cs in
    let (m', p') = insert_by-changes a c (sort_by change_by_address cs) in
    (omega arith, omega arith)

-- No change comes before an address.
abbrev NotBefore : Bytes → List Change → Type 0
NotBefore a [] = Unit {0}
NotBefore a (c ∷ cs) = (bytes_lt c.address a ≡ false) × NotBefore a cs

abbrev InOrder : List Change → Type 0
InOrder [] = Unit {0}
InOrder (c ∷ cs) = NotBefore c.address cs × InOrder cs

NotBefore-trans :
    (a b : Bytes) (cs : List Change) → bytes_lt a b ≡ true → NotBefore b cs → NotBefore a cs
NotBefore-trans a b [] h k = tt
NotBefore-trans a b (c ∷ cs) h (k, ks) =
    (ground (arith, bytes_lt_trans c.address a b), NotBefore-trans a b cs h ks)

insert_by-NotBefore :
    (a : Bytes) (c : Change) (cs : List Change)
    → bytes_lt c.address a ≡ false
    → NotBefore a cs
    → NotBefore a (insert_by change_by_address c cs)
unfolding insert_by
insert_by-NotBefore a c [] h k = (h, tt)
insert_by-NotBefore a c (d ∷ cs) h (k, ks) = elim (Bool-cases (change_by_address c d)) [
  | inl e ↦ rw e (h, (k, ks))
  | inr e ↦ rw e (k, insert_by-NotBefore a c cs h ks)
]

insert_by-InOrder :
    (c : Change) (cs : List Change) → InOrder cs → InOrder (insert_by change_by_address c cs)
unfolding insert_by
insert_by-InOrder c [] h = (tt, tt)
insert_by-InOrder c (d ∷ cs) (h, hs) = elim (Bool-cases (change_by_address c d)) [
  | inl e ↦
      let asym : bytes_lt d.address c.address ≡ false =
        ground (arith, bytes_lt_trans d.address c.address d.address, bytes_lt_irrefl d.address) in
      rw e ((asym, NotBefore-trans c.address d.address cs e h), (h, hs))
  | inr e ↦ rw e (insert_by-NotBefore d.address c cs e h, insert_by-InOrder c cs hs)
]

sort_by-InOrder : (cs : List Change) → InOrder (sort_by change_by_address cs)
unfolding sort_by
sort_by-InOrder [] = tt
sort_by-InOrder (c ∷ cs) = insert_by-InOrder c (sort_by change_by_address cs) (sort_by-InOrder cs)

sign-cases : (x : ℤ) → ((p : ℕ) × (x ≡ pos p)) ⊎ ((p : ℕ) × (x ≡ negsuc p))
sign-cases (pos p) = inl (p, refl)
sign-cases (negsuc p) = inr (p, refl)

-- A scan that returns has accepted its first change.
scan-cons :
    (prev : Bytes) (c : Change) (cs : List Change) (found : List Validator × List Validator)
    → scan_changes prev (c ∷ cs) ≡ ok found
    → (p : ℕ) × (rest : List Validator × List Validator) × (c.voting_power ≡ pos p)
      × (bytes_eq c.address prev ≡ false)
      × (scan_changes c.address cs ≡ ok rest)
      × (put_change c p rest ≡ found)
unfolding scan_changes
scan-cons prev c cs found e = elim (Bool-cases (bytes_eq c.address prev)) [
  | inl f ↦ absurd (ground arith)
  | inr f ↦ elim (sign-cases c.voting_power) [
    | inr (p, g) ↦ absurd (ground arith)
    | inl (p, g) ↦ elim (Outcome-cases (scan_changes c.address cs)) [
      | failed x i ↦ absurd (ground arith)
      | panicked i ↦ absurd (ground arith)
      | returned rest i ↦ (p, rest, g, f, i, ground arith)
    ]
  ]
]

-- What a scan after an address found.
pub record Scanned (prev : Bytes) (cs : List Change) (us ds : List Validator) : Type 0 where
  pub updates_above : Above prev us
  pub updates_sorted : IsSorted us
  pub removals_above : Above prev ds
  pub removals_sorted : IsSorted ds
  pub all : (a : Bytes) → count a us + count a ds ≡ mentions a cs
  pub powers : (a : Bytes) → held a us ≡ asked a cs
  pub once : (a : Bytes) → mentions a cs ≤ 1

mentions-once :
    (c : Change) (cs : List Change)
    → mentions c.address cs ≡ 0
    → ((a : Bytes) → mentions a cs ≤ 1)
    → (a : Bytes) → mentions a (c ∷ cs) ≤ 1
unfolding mentions
mentions-once c cs none once a = elim (Bool-cases (bytes_eq c.address a)) [
  | inr e ↦ rw e (omega (arith, once a))
  | inl e ↦
      let zero_a : mentions a cs ≡ 0 = rw (← (bytes_eq_iff c.address a).0 e) none in
      rw e (omega arith)
]

cons-Scanned :
    (prev : Bytes) (c : Change) (p : ℕ) (cs : List Change) (us ds : List Validator)
    → bytes_lt prev c.address ≡ true
    → c.voting_power ≡ pos p
    → Scanned c.address cs us ds
    → let found = put_change c p (us, ds) in Scanned prev (c ∷ cs) found.0 found.1
unfolding mentions asked count held
cons-Scanned prev c p cs us ds below power s =
    let no_us = Above-count c.address us s.updates_above in
    let no_ds = Above-count c.address ds s.removals_above in
    let none : mentions c.address cs ≡ 0 = omega (arith, s.all c.address) in
    let above_us = Above-trans prev c.address us below s.updates_above in
    let above_ds = Above-trans prev c.address ds below s.removals_above in
    elim (Bool-cases (p == 0)) [
      | inl e ↦ rw e (record {
        updates_above = above_us;
        updates_sorted = s.updates_sorted;
        removals_above = (below, above_ds);
        removals_sorted = (s.removals_above, s.removals_sorted);
        all = λ a. omega (arith, s.all a);
        powers = λ a. ground (arith, s.powers a);
        once = mentions-once c cs none s.once;
      })
      | inr e ↦ rw e (record {
        updates_above = (below, above_us);
        updates_sorted = (s.updates_above, s.updates_sorted);
        removals_above = above_ds;
        removals_sorted = s.removals_sorted;
        all = λ a. omega (arith, s.all a);
        powers = λ a. ground (arith, s.powers a);
        once = mentions-once c cs none s.once;
      })
    ]

scan-Scanned :
    (prev : Bytes) (cs : List Change) (found : List Validator × List Validator)
    → NotBefore prev cs
    → InOrder cs
    → scan_changes prev cs ≡ ok found
    → Scanned prev cs found.0 found.1
unfolding scan_changes mentions asked count held
scan-Scanned prev [] found n o e =
    let same : ◌≡◌ {A = List Validator × List Validator} ([], []) found = cc in
    rw (← same) (record {
      updates_above = tt;
      updates_sorted = tt;
      removals_above = tt;
      removals_sorted = tt;
      all = λ a. refl;
      powers = λ a. refl;
      once = λ a. omega arith;
    })
scan-Scanned prev (c ∷ cs) found (n, ns) (o, os) e =
    let (p, rest, power, other, rest_ok, put) = scan-cons prev c cs found e in
    rw (← put) (
      cons-Scanned prev c p cs rest.0 rest.1 (bytes_lt-total c.address prev n other) power
        (scan-Scanned c.address cs rest o os rest_ok))

NotBefore-empty : (cs : List Change) → NotBefore [] cs
unfolding bytes_lt
NotBefore-empty [] = tt
NotBefore-empty (c ∷ cs) = (never c.address, NotBefore-empty cs)
  where
    never : (a : Bytes) → bytes_lt a [] ≡ false
    never [] = refl
    never (x ∷ a) = refl

-- The updates and removals that processChanges returns.
pub process_changes-Scanned :
    (changes : List Change) (found : List Validator × List Validator)
    → process_changes changes ≡ ok found
    → IsSorted found.0
      × IsSorted found.1
      × ((a : Bytes)
          → (count a found.0 + count a found.1 ≡ mentions a changes)
            × (held a found.0 ≡ asked a changes)
            × (mentions a changes ≤ 1))
unfolding process_changes
process_changes-Scanned changes found e =
    let sorted = sort_by change_by_address changes in
    let s = scan-Scanned [] sorted found (NotBefore-empty sorted) (sort_by-InOrder changes) e in
    (
      s.updates_sorted,
      s.removals_sorted,
      λ a.
          let (m, p) = sort_by-changes a changes in
          (s.all a ∙ m, s.powers a ∙ p, omega (arith, s.once a)),
    )

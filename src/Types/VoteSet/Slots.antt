-- ===== src/Types/VoteSet/Slots.antt =====
-- Lists of vote slots: which validators have a vote, and the power that they hold.
use relaychainmodel.Prelude.{
  Bool, List, Option, [], ap, arith, fun_ext, get_elem?, get_or, if◌then◌else◌, length, none, refl,
  replicate, set, some, suc, true, zero, ℕ, ◌+◌, ◌<◌, ◌==◌, ◌∷◌, ◌≡◌,
}
use relaychainmodel.Prelude.Int64.{add_int64, two63}
use relaychainmodel.Types.Vote.{Vote}
use relaychainmodel.Types.ValidatorSet.{Validator, power}
use relaychainmodel.Types.ValidatorSet.Power.{
  power_of, with_index, power_of-with_index, power_of-le,
}
use relaychainmodel.Types.VoteSet.{is_some, vote_at, copy_votes}

-- Whether the validator at an index has a vote.
abbrev pub has : List (Option Vote) → ℕ → Bool
has votes i = is_some (vote_at votes i)

pub get_or-set {ℓ} :
    {A : Type ℓ} (xs : List A) (i j : ℕ) (v d : A)
    → i < length xs
    → get_or (set xs i v) j d ≡ (if j == i then v else get_or xs j d)
get_or-set [] i j v d h = absurd (omega arith)
get_or-set (x ∷ xs) zero zero v d h = refl
get_or-set (x ∷ xs) zero (suc j) v d h = ground arith
get_or-set (x ∷ xs) (suc i) zero v d h = ground arith
get_or-set (x ∷ xs) (suc i) (suc j) v d h = ground (arith, get_or-set xs i j v d)

pub get_or-replicate {ℓ} : {A : Type ℓ} (n j : ℕ) (d : A) → get_or (replicate n d) j d ≡ d
get_or-replicate zero j d = refl
get_or-replicate (suc n) zero d = refl
get_or-replicate (suc n) (suc j) d = get_or-replicate n j d

-- A new vote adds its validator's power.
pub power-set :
    (vs : List Validator) (votes : List (Option Vote)) (i : ℕ) (vote : Vote) (v : Validator)
    → i < length votes
    → get_elem? vs i ≡ some v
    → vote_at votes i ≡ none
    → power_of (has (set votes i (some vote))) vs ≡ power_of (has votes) vs + v.voting_power
power-set vs votes i vote v h at_i new =
    let same : has (set votes i (some vote)) ≡ with_index i (has votes) =
      fun_ext (λ j. ground (arith, get_or-set votes i j (some vote) none h)) in
    rw same (power_of-with_index (has votes) i vs v at_i (rw new))

-- A vote that takes another's place leaves the power as it is.
pub power-replace :
    (vs : List Validator) (votes : List (Option Vote)) (i : ℕ) (old vote : Vote)
    → i < length votes
    → vote_at votes i ≡ some old
    → power_of (has (set votes i (some vote))) vs ≡ power_of (has votes) vs
power-replace vs votes i old vote h there =
    let same : has (set votes i (some vote)) ≡ has votes =
      fun_ext (λ j. ground (arith, get_or-set votes i j (some vote) none h)) in
    rw same

pub length-copy_votes :
    (bs votes : List (Option Vote))
    → length bs ≡ length votes
    → length (copy_votes bs votes) ≡ length votes
unfolding copy_votes
length-copy_votes [] votes h = refl
length-copy_votes (b ∷ bs) [] h = omega arith
length-copy_votes (none ∷ bs) (v ∷ votes) h = ap suc (length-copy_votes bs votes (omega arith))
length-copy_votes (some b ∷ bs) (v ∷ votes) h = ap suc (length-copy_votes bs votes (omega arith))

pub vote_at-copy_votes :
    (bs votes : List (Option Vote)) (i : ℕ)
    → length bs ≡ length votes
    → vote_at (copy_votes bs votes) i
      ≡ (if is_some (vote_at bs i) then vote_at bs i else vote_at votes i)
unfolding copy_votes
vote_at-copy_votes [] votes i h = refl
vote_at-copy_votes (b ∷ bs) [] i h = absurd (omega arith)
vote_at-copy_votes (none ∷ bs) (v ∷ votes) zero h = refl
vote_at-copy_votes (some b ∷ bs) (v ∷ votes) zero h = refl
vote_at-copy_votes (none ∷ bs) (v ∷ votes) (suc i) h = vote_at-copy_votes bs votes i (omega arith)
vote_at-copy_votes (some b ∷ bs) (v ∷ votes) (suc i) h = vote_at-copy_votes bs votes i (omega arith)

-- Copying votes of validators that already had one leaves the power as it is.
pub power-copy_votes :
    (vs : List Validator) (bs votes : List (Option Vote))
    → length bs ≡ length votes
    → ((i : ℕ) → has bs i ≡ true → has votes i ≡ true)
    → power_of (has (copy_votes bs votes)) vs ≡ power_of (has votes) vs
power-copy_votes vs bs votes h covered =
    let same : has (copy_votes bs votes) ≡ has votes =
      fun_ext (λ i. ground (arith, vote_at-copy_votes bs votes i h, covered i)) in
    rw same

-- The sum of new votes cannot pass what int64 holds.
pub add_int64-power :
    (vs : List Validator) (p : ℕ → Bool) (q : ℕ → Bool) (v : Validator)
    → power vs < two63
    → power_of q vs ≡ power_of p vs + v.voting_power
    → add_int64 (power_of p vs) v.voting_power ≡ power_of q vs
add_int64-power vs p q v capped e = omega (arith, power_of-le q vs)

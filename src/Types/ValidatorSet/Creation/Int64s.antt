-- ===== src/Types/ValidatorSet/Creation/Int64s.antt =====
-- The last part of `updateWithChangeSet` of types/validator_set.go keeps the priorities int64s.
use relaychainmodel.Prelude.{
  Bool, Bool-cases, List, Option, Option-cases, [], ap, arith, inl, inr, length, none, refl, some,
  some-injective, suc, sym, zero, ℕ, ◌+◌, ◌<◌, ◌==◌, ◌∙◌, ◌∷◌, ◌≡◌,
}
use relaychainmodel.Prelude.Bytes.{bytes_eq}
use relaychainmodel.Prelude.Int.{pos, ℤ, ◌+ℤ◌, negsuc}
use relaychainmodel.Prelude.Int64.{mul_int64, neg_int64, wrap_int64}
use relaychainmodel.Prelude.Outcome.{bind-ok, ok}
use relaychainmodel.SafeMath.{IsInt64}
use relaychainmodel.Types.ValidatorSet.{
  Validator, ValidatorSet, add_powers, bytes_lt, get_by_address, get_by_address-some, size,
  total_voting_power,
}
use relaychainmodel.Types.ValidatorSet.Priorities.{
  div_floor, rescale_priorities, shift_by_avg_proposer_priority,
}
use relaychainmodel.Types.ValidatorSet.Rotation.Ranks.{
  AllInt64, map-Kept, same-length, wrap_int64-IsInt64,
}
use relaychainmodel.Types.ValidatorSet.Rotation.Steps.{at-IsInt64}
use relaychainmodel.Types.ValidatorSet.Rotation.Centring.{
  rescale_priorities-Turned, shift_by_avg-Turned,
}
use relaychainmodel.Types.ValidatorSet.Updates.{
  apply_change_set, apply_removals, apply_updates, by_address, by_voting_power,
  compute_new_priorities, insert_by, merge_on, new_priority, or_panics, sort_by,
  update_total_voting_power,
}
use relaychainmodel.Types.ValidatorSet.Updates.Members.{sort_by-length}

neg_int64-IsInt64 : (x : ℤ) → IsInt64 x → IsInt64 (neg_int64 x)
neg_int64-IsInt64 (pos n) h = ground arith
neg_int64-IsInt64 (negsuc n) h = ground arith

-- The priority for a validator that was found or not.
abbrev found_priority : ℤ → Option (ℕ × Validator) → ℤ
found_priority total o = elim o [
  | none ↦ neg_int64 (wrap_int64 (total +ℤ div_floor total 8))
  | some (i, v) ↦ v.proposer_priority
]

found_priority-IsInt64 :
    (total : ℤ) (o : Option (ℕ × Validator))
    → ((i : ℕ) (v : Validator) → o ≡ some (i, v) → IsInt64 v.proposer_priority)
    → IsInt64 (found_priority total o)
found_priority-IsInt64 total none h =
    let x = total +ℤ div_floor total 8 in neg_int64-IsInt64 (wrap_int64 x) (wrap_int64-IsInt64 x)
found_priority-IsInt64 total (some (i, v)) h = h i v refl

new_priority-IsInt64 :
    (s : ValidatorSet) (total : ℤ) (u : Validator)
    → AllInt64 s.validators
    → IsInt64 (new_priority s total u)
unfolding new_priority
new_priority-IsInt64 s total u h =
    found_priority-IsInt64 total (get_by_address s u.address)
      (λ i v e. at-IsInt64 s.validators i v h (get_by_address-some s u.address i v e).0)

-- The steps of updateWithChangeSet keep the priorities int64s.
insert_by-AllInt64 :
    (less : Validator → Validator → Bool) (v : Validator) (vs : List Validator)
    → IsInt64 v.proposer_priority
    → AllInt64 vs
    → AllInt64 (insert_by less v vs)
unfolding insert_by
insert_by-AllInt64 less v [] h hs = (h, tt)
insert_by-AllInt64 less v (w ∷ vs) h (hw, hs) = elim (Bool-cases (less v w)) [
  | inl e ↦ rw e (h, (hw, hs))
  | inr e ↦ rw e (hw, insert_by-AllInt64 less v vs h hs)
]

sort_by-AllInt64 :
    (less : Validator → Validator → Bool) (vs : List Validator)
    → AllInt64 vs
    → AllInt64 (sort_by less vs)
unfolding sort_by
sort_by-AllInt64 less [] h = tt
sort_by-AllInt64 less (v ∷ vs) (h, hs) =
    insert_by-AllInt64 less v (sort_by less vs) h (sort_by-AllInt64 less vs hs)

merge_on-AllInt64 :
    (fuel : ℕ) (vs us : List Validator) → AllInt64 vs → AllInt64 us → AllInt64 (merge_on fuel vs us)
unfolding merge_on
merge_on-AllInt64 fuel [] us h k = k
merge_on-AllInt64 fuel (v ∷ vs) [] h k = h
merge_on-AllInt64 zero (v ∷ vs) (u ∷ us) h k = tt
merge_on-AllInt64 (suc fuel) (v ∷ vs) (u ∷ us) (hv, h) (ku, k) =
    elim (Bool-cases (bytes_lt v.address u.address)) [
      | inl e ↦ rw e (hv, merge_on-AllInt64 fuel vs (u ∷ us) h (ku, k))
      | inr e ↦ elim (Bool-cases (bytes_eq v.address u.address)) [
        | inl f ↦ rw (e, f) (ku, merge_on-AllInt64 fuel vs us h k)
        | inr f ↦ rw (e, f) (ku, merge_on-AllInt64 fuel (v ∷ vs) us (hv, h) k)
      ]
    ]

apply_updates-AllInt64 :
    (vs us : List Validator) → AllInt64 vs → AllInt64 us → AllInt64 (apply_updates vs us)
unfolding apply_updates
apply_updates-AllInt64 vs us h k =
    merge_on-AllInt64 (length vs + length us) (sort_by by_address vs) us
      (sort_by-AllInt64 by_address vs h) k

apply_removals-AllInt64 :
    (vs ds ws : List Validator) → AllInt64 vs → apply_removals vs ds ≡ some ws → AllInt64 ws
unfolding apply_removals
apply_removals-AllInt64 vs [] ws h e = rw (some-injective vs ws e) at h
apply_removals-AllInt64 [] (d ∷ ds) ws h e = absurd cc
apply_removals-AllInt64 (v ∷ vs) (d ∷ ds) ws (hv, h) e =
    elim (Bool-cases (bytes_eq v.address d.address)) [
      | inl f ↦ apply_removals-AllInt64 vs ds ws h (rw f at e)
      | inr f ↦ elim (Option-cases (apply_removals vs (d ∷ ds))) [
        | inl g ↦ absurd (ground arith)
        | inr (xs, g) ↦
            let made : v ∷ xs ≡ ws = ground arith in
            rw (← made) (hv, apply_removals-AllInt64 vs (d ∷ ds) xs h g)
      ]
    ]

or_panics-ok : {A : Type 0} (o : Option A) (a : A) → or_panics o ≡ ok a → o ≡ some a
or_panics-ok (some x) a h = cc
or_panics-ok none a h = absurd cc

rescale_priorities-size :
    (s : ValidatorSet) (d : ℤ) (s' : ValidatorSet) → rescale_priorities d s ≡ some s' → 0 < size s
unfolding rescale_priorities
rescale_priorities-size s d s' h = elim (Bool-cases (size s == 0)) [
  | inl e ↦ absurd (let h' = rw e at h in cc)
  | inr e ↦ ground arith
]

-- A set with a total that was computed or not.
abbrev with_total : ValidatorSet → Option ℕ → Option ValidatorSet
with_total s o = elim o [ none ↦ none | some t ↦ some (record s { total_voting_power = t }) ]

with_total-validators :
    (s s' : ValidatorSet) (o : Option ℕ) → with_total s o ≡ some s' → s'.validators ≡ s.validators
with_total-validators s s' none h = absurd cc
with_total-validators s s' (some t) h =
    ap (λ (r : ValidatorSet). r.validators)
      (sym (some-injective (record s { total_voting_power = t }) s' h))

update_total-validators :
    (s s' : ValidatorSet) → update_total_voting_power s ≡ some s' → s'.validators ≡ s.validators
unfolding update_total_voting_power
update_total-validators s s' h = with_total-validators s s' (add_powers 0 s.validators) h

-- What the last part of updateWithChangeSet leaves: int64s as priorities, and a validator.
abbrev pub Ranked : ValidatorSet → Type 0
Ranked s = AllInt64 s.validators × (0 < size s)

pub apply_change_set-Ranked :
    (us ds : List Validator) (total : ℤ) (s s' : ValidatorSet)
    → AllInt64 s.validators
    → apply_change_set us ds total s ≡ ok s'
    → Ranked s'
unfolding apply_change_set compute_new_priorities
apply_change_set-Ranked us ds total s s' ranked h =
    let new = compute_new_priorities us s total in
    let merged = apply_updates s.validators new in
    let (vs, removed, rest) = bind-ok (or_panics (apply_removals merged ds)) _ s' h in
    let fresh =
      (map-Kept (new_priority s total) us (λ u. new_priority-IsInt64 s total u ranked)).ranked in
    let left =
      apply_removals-AllInt64 merged ds vs (apply_updates-AllInt64 s.validators new ranked fresh)
        (or_panics-ok (apply_removals merged ds) vs removed) in
    let (s₁, summed, rest₁) =
      bind-ok (or_panics (update_total_voting_power (record s { validators = vs }))) _ s' rest in
    let same =
      update_total-validators (record s { validators = vs }) s₁
        (or_panics-ok (update_total_voting_power (record s { validators = vs })) s₁ summed) in
    let ranked₁ : AllInt64 s₁.validators = rw same left in
    let (t, known, rest₂) = bind-ok (or_panics (total_voting_power s₁)) _ s' rest₁ in
    let d = mul_int64 (pos 2) (pos t) in
    let (s₂, rescaled, rest₃) = bind-ok (or_panics (rescale_priorities d s₁)) _ s' rest₂ in
    let made₂ = or_panics-ok (rescale_priorities d s₁) s₂ rescaled in
    let size₁ = rescale_priorities-size s₁ d s₂ made₂ in
    let k₂ = rescale_priorities-Turned d s₁ s₂ ranked₁ made₂ in
    let size₂ : 0 < size s₂ = rw (same-length s₁.validators s₂.validators k₂.kept.same) size₁ in
    let (s₃, shifted, rest₄) = bind-ok (or_panics (shift_by_avg_proposer_priority s₂)) _ s' rest₃ in
    let made₃ = or_panics-ok (shift_by_avg_proposer_priority s₂) s₃ shifted in
    let (r₃, made₃', t₃) = shift_by_avg-Turned s₂ k₂.kept.ranked size₂ in
    let e₃ : r₃ ≡ s₃ = some-injective r₃ s₃ (sym made₃' ∙ made₃) in
    let k₃ = rw e₃ at t₃ in
    let size₃ : 0 < size s₃ = rw (same-length s₂.validators s₃.validators k₃.kept.same) size₂ in
    let last : record s₃ { validators = sort_by by_voting_power s₃.validators } ≡ s' = cc in
    rw (← last) (
      sort_by-AllInt64 by_voting_power s₃.validators k₃.kept.ranked,
      rw (sort_by-length by_voting_power s₃.validators) size₃,
    )

-- ===== src/Types/ValidatorSet/Updates/Apply.antt =====
-- What applyUpdates and applyRemovals do to the power of each address.
use relaychainmodel.Prelude.{
  Bool-cases, List, Option-cases, [], arith, inl, inr, length, refl, some, suc, true, zero, ℕ, ◌+◌,
  ◌<◌, ◌∷◌, ◌≡◌, ◌≤◌,
}
use relaychainmodel.Prelude.Bytes.{Bytes, bytes_eq, bytes_eq_iff}
use relaychainmodel.Types.ValidatorSet.{Validator, bytes_lt}
use relaychainmodel.Types.ValidatorSet.Updates.{
  apply_removals, apply_updates, by_address, merge_on, sort_by,
}
use relaychainmodel.Types.ValidatorSet.Updates.Members.{
  Above, Above-count, Above-trans, IsSorted, IsUnique, bytes_lt-total, count, held, held-none,
  sort_by-IsSorted, sort_by-length, sort_by-same,
}

-- An address has what the updates say of it, and what it had if they do not name it.
abbrev pub Overrides : Bytes → List Validator → List Validator → List Validator → Type 0
Overrides a vs us ws =
    (count a us ≡ 0 → (count a ws ≡ count a vs) × (held a ws ≡ held a vs))
    × (0 < count a us → (count a ws ≡ count a us) × (held a ws ≡ held a us))

module _ (a : Bytes) where
  keep-Overrides :
      (v : Validator) (vs us ws : List Validator)
      → Above v.address us
      → Overrides a vs us ws
      → Overrides a (v ∷ vs) us (v ∷ ws)
  unfolding count held
  keep-Overrides v vs us ws above (untouched, touched) =
      let none_at_v = Above-count v.address us above in
      (λ h. ground (arith, untouched h), λ h. ground (arith, touched h, bytes_eq_iff v.address a))

  add-Overrides :
      (u : Validator) (vs us ws : List Validator)
      → Above u.address vs
      → Above u.address us
      → Overrides a vs us ws
      → Overrides a vs (u ∷ us) (u ∷ ws)
  unfolding count held
  add-Overrides u vs us ws above_vs above_us (untouched, touched) =
      let none_vs = Above-count u.address vs above_vs in
      let none_us = Above-count u.address us above_us in
      (
        λ h. ground (arith, untouched (ground arith)),
        λ h. elim (Bool-cases (bytes_eq u.address a)) [
          | inl e ↦
              let same = (bytes_eq_iff u.address a).0 e in
              let no_us : count a us ≡ 0 = rw (← same) none_us in
              let no_vs : count a vs ≡ 0 = rw (← same) none_vs in
              let (c, p) = untouched no_us in
              ground (arith, held-none a us no_us, held-none a vs no_vs)
          | inr e ↦ ground (arith, touched (ground arith))
        ],
      )

  replace-Overrides :
      (v u : Validator) (vs us ws : List Validator)
      → bytes_eq v.address u.address ≡ true
      → Above v.address vs
      → Above u.address us
      → Overrides a vs us ws
      → Overrides a (v ∷ vs) (u ∷ us) (u ∷ ws)
  unfolding count held
  replace-Overrides v u vs us ws same above_vs above_us over =
      let e = (bytes_eq_iff v.address u.address).0 same in
      let (untouched, touched) = add-Overrides u vs us ws (rw (← e) above_vs) above_us over in
      (λ h. ground (arith, untouched h), λ h. touched h)

  pub merge_on-Overrides :
      (fuel : ℕ) (vs us : List Validator)
      → length vs + length us ≤ fuel
      → IsSorted vs
      → IsSorted us
      → Overrides a vs us (merge_on fuel vs us)
  unfolding merge_on count held
  merge_on-Overrides fuel [] us h s t = (λ e. (e, held-none a us e), λ e. (refl, refl))
  merge_on-Overrides fuel (v ∷ vs) [] h s t = (λ e. (refl, refl), λ e. absurd (omega arith))
  merge_on-Overrides zero (v ∷ vs) (u ∷ us) h s t = absurd (omega arith)
  merge_on-Overrides (suc fuel) (v ∷ vs) (u ∷ us) h (sv, s) (tu, t) =
      elim (Bool-cases (bytes_lt v.address u.address)) [
        | inl e ↦ rw e (
            keep-Overrides v vs (u ∷ us) (merge_on fuel vs (u ∷ us))
              (e, Above-trans v.address u.address us e tu)
              (merge_on-Overrides fuel vs (u ∷ us) (omega arith) s (tu, t)))
        | inr e ↦ elim (Bool-cases (bytes_eq v.address u.address)) [
          | inl f ↦
              rw (e, f)
                (replace-Overrides v u vs us (merge_on fuel vs us) f sv tu
                  (merge_on-Overrides fuel vs us (omega arith) s t))
          | inr f ↦
              let below = bytes_lt-total v.address u.address e f in
              rw (e, f)
                (add-Overrides u (v ∷ vs) us (merge_on fuel (v ∷ vs) us)
                  (below, Above-trans u.address v.address vs below sv) tu
                  (merge_on-Overrides fuel (v ∷ vs) us (omega arith) (sv, s) t))
        ]
      ]

  -- After the updates, an address has what they say of it, or what it had.
  pub apply_updates-Overrides :
      (vs us : List Validator) → IsUnique vs → IsSorted us → Overrides a vs us (apply_updates vs us)
  unfolding apply_updates
  apply_updates-Overrides vs us u t =
      let (c, h, p) = sort_by-same by_address a vs in
      let (untouched, touched) =
        merge_on-Overrides (length vs + length us) (sort_by by_address vs) us
          (omega (arith, sort_by-length by_address vs)) (sort_by-IsSorted vs u) t in
      (λ e. ground (arith, untouched e), touched)

  -- The removals take away one validator each.
  pub apply_removals-count :
      (vs ds ws : List Validator)
      → apply_removals vs ds ≡ some ws
      → (count a ws + count a ds ≡ count a vs) × (count a ds ≡ 0 → held a ws ≡ held a vs)
  unfolding apply_removals count held
  apply_removals-count vs [] ws e = ground arith
  apply_removals-count [] (d ∷ ds) ws e = cc
  apply_removals-count (v ∷ vs) (d ∷ ds) ws e = elim (Bool-cases (bytes_eq v.address d.address)) [
    | inl f ↦
        let (c, h) = apply_removals-count vs ds ws (rw f at e) in
        let same = (bytes_eq_iff v.address d.address).0 f in
        rw same (omega arith, λ z. ground (arith, h (ground arith)))
    | inr f ↦ elim (Option-cases (apply_removals vs (d ∷ ds))) [
      | inl g ↦ absurd (ground arith)
      | inr (xs, g) ↦
          let (c, h) = apply_removals-count vs (d ∷ ds) xs g in
          let made : v ∷ xs ≡ ws = ground arith in
          rw (← made) (omega arith, λ z. ground (arith, h z))
    ]
  ]

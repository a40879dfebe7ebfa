-- ===== src/Types/ValidatorSet/Rotation.antt =====
-- IncrementProposerPriority of types/validator_set.go on a set in order. Ranks is about what it
-- keeps, Chosen about the choice of a proposer, Centring and Steps about its steps.
pub mod Ranks
mod Chosen
pub mod Steps
pub mod Centring
mod Tests
use relaychainmodel.Prelude.{
  Option, ap, arith, false, none, some, suc, ℕ, ◌*◌, ◌-◌, ◌<◌, ◌==◌, ◌∙◌, ◌≡◌,
}
use relaychainmodel.Prelude.Int.{pos, leb_ℤ}
use relaychainmodel.Prelude.Int64.{mul_int64}
use relaychainmodel.SafeMath.{mul_int64-pos}
use relaychainmodel.Types.ValidatorSet.{
  total_voting_power-eq, ValidatorSet, power, size, total_voting_power,
}
use relaychainmodel.Types.ValidatorSet.Priorities.{
  increment_proposer_priority, increment_times, rescale_priorities, shift_by_avg_proposer_priority,
}
use relaychainmodel.Types.ValidatorSet.Rotation.Ranks.{unranked}
use relaychainmodel.Types.ValidatorSet.Rotation.Steps.{
  IsProposed, Movable, Turned-Movable, Turned-trans, increment_times-Turned,
}
use relaychainmodel.Types.ValidatorSet.Rotation.Centring.{
  rescale_priorities-Turned, rescale_priorities-some, shift_by_avg-Turned,
}

-- The steps of IncrementProposerPriority from the shift and from the rescaling on.
abbrev shift_then : ℕ → ValidatorSet → Option ValidatorSet
shift_then n s = elim (shift_by_avg_proposer_priority s) [
  | none ↦ none
  | some s ↦ increment_times n s none
]

abbrev rescale_then : ℕ → ValidatorSet → ℕ → Option ValidatorSet
rescale_then n s total = elim (rescale_priorities (mul_int64 (pos 2) (pos total)) s) [
  | none ↦ none
  | some s ↦ shift_then n s
]

increment_proposer_priority-eq :
    (n total : ℕ) (s s₁ s₂ : ValidatorSet)
    → 0 < size s
    → total_voting_power s ≡ some total
    → rescale_priorities (mul_int64 (pos 2) (pos total)) s ≡ some s₁
    → shift_by_avg_proposer_priority s₁ ≡ some s₂
    → increment_proposer_priority (pos (suc n)) s ≡ increment_times (suc n) s₂ none
unfolding increment_proposer_priority
increment_proposer_priority-eq n total s s₁ s₂ some_validators known rescaled shifted =
    let z : (size s == 0) ≡ false = ground arith in
    let k = suc n in
    let u : leb_ℤ (pos k) (pos 0) ≡ false = ground arith in
    rw (z, u)
      (ap {B = Option ValidatorSet}
          (λ (o : Option ℕ). elim o [ none ↦ none | some total ↦ rescale_then k s total ]) known
        ∙ (ap {B = Option ValidatorSet}
              (λ (o : Option ValidatorSet). elim o [ none ↦ none | some s ↦ shift_then k s ])
              rescaled
            ∙ ap {B = Option ValidatorSet}
                (λ (o : Option ValidatorSet). elim o [
                  | none ↦ none
                  | some s ↦ increment_times k s none
                ])
                shifted))

-- IncrementProposerPriority, a number of times from 1 on, does not panic on a set that is in order
-- and has a validator, distinct addresses and int64s as priorities. It changes nothing of the
-- validators but their priorities, keeps the set so, and leaves a validator of the set as the
-- proposer.
pub increment_proposer_priority-Movable :
    (s : ValidatorSet) (n : ℕ)
    → Movable s
    → (s' : ValidatorSet) × (increment_proposer_priority (pos (suc n)) s ≡ some s')
      × (unranked s'.validators ≡ unranked s.validators)
      × Movable s'
      × IsProposed s'
increment_proposer_priority-Movable s n m =
    let total = power s.validators in
    let capped = m.valid.capped in
    let window : mul_int64 (pos 2) (pos total) ≡ pos (2 * total) =
      mul_int64-pos 2 total (omega arith) in
    let (s₁, made) = rescale_priorities-some (2 * total) s (omega arith) m.some_validators in
    let rescaled : rescale_priorities (mul_int64 (pos 2) (pos total)) s ≡ some s₁ =
      rw window made in
    let t₁ = rescale_priorities-Turned (pos (2 * total)) s s₁ m.ranked made in
    let m₁ = Turned-Movable s s₁ t₁ m in
    let (s₂, shifted, t₂) = shift_by_avg-Turned s₁ m₁.ranked m₁.some_validators in
    let m₂ = Turned-Movable s₁ s₂ t₂ m₁ in
    let (s₃, ran, t₃, proposed) = increment_times-Turned n s₂ none m₂ in
    let turned = Turned-trans s s₁ s₃ t₁ (Turned-trans s₁ s₂ s₃ t₂ t₃) in
    (
      s₃,
      increment_proposer_priority-eq n total s s₁ s₂ m.some_validators
            (total_voting_power-eq s m.valid) rescaled shifted
          ∙ ran,
      turned.kept.same,
      Turned-Movable s s₃ turned m,
      proposed,
    )

-- ===== src/Types/ValidatorSet/Rotation/Tests.antt =====
-- A rotation of three validators, and the theorem at it.
use relaychainmodel.Prelude.{[], arith, inr, none, refl, some, ◌∷◌, ◌≡◌}
use relaychainmodel.Prelude.Int.{negsuc, pos}
use relaychainmodel.Prelude.Bytes.{bytes_eq, bytes_eq_iff}
use relaychainmodel.Prelude.Int64.{mul_int64}
use relaychainmodel.Types.Fixtures.{validator}
use relaychainmodel.Types.ValidatorSet.{ValidatorSet, power}
use relaychainmodel.Types.ValidatorSet.Priorities.{increment_proposer_priority, with_priority}
use relaychainmodel.Types.ValidatorSet.Rotation.{increment_proposer_priority-Movable}
use relaychainmodel.Types.ValidatorSet.Rotation.Ranks.{unranked}
use relaychainmodel.Types.ValidatorSet.Rotation.Steps.{IsProposed, Movable}
use relaychainmodel.Types.ValidatorSet.Updates.Members.{count}

abbrev three : ValidatorSet
three = record {
  validators = validator 1 10 ∷ validator 2 20 ∷ validator 3 30 ∷ [];
  proposer = none;
  total_voting_power = 60;
}

three-Movable : Movable three
unfolding power count bytes_eq
three-Movable = record {
  valid = record { cached = inr refl; capped = omega arith };
  unique = λ a.
      ground (arith, bytes_eq_iff (1 ∷ []) a, bytes_eq_iff (2 ∷ []) a, bytes_eq_iff (3 ∷ []) a);
  ranked =
      ((omega arith, omega arith), ((omega arith, omega arith), ((omega arith, omega arith), tt)));
  some_validators = omega arith;
}

-- After two rounds the second validator proposes.
two_rounds :
    increment_proposer_priority (pos 2) three
    ≡ some (record {
      validators =
          with_priority (validator 1 10) (pos 20)
          ∷ with_priority (validator 2 20) (negsuc 19)
          ∷ with_priority (validator 3 30) (pos 0)
          ∷ [];
      proposer = some (with_priority (validator 2 20) (negsuc 19));
      total_voting_power = 60;
    })
unfolding increment_proposer_priority mul_int64
two_rounds = refl

increment_proposer_priority-Movable_example :
    (s : ValidatorSet) × (increment_proposer_priority (pos 2) three ≡ some s)
    × (unranked s.validators ≡ unranked three.validators)
    × Movable s
    × IsProposed s
increment_proposer_priority-Movable_example =
    increment_proposer_priority-Movable three 1 three-Movable

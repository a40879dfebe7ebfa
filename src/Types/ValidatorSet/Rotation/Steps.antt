-- ===== src/Types/ValidatorSet/Rotation/Steps.antt =====
-- The steps of a rotation of types/validator_set.go: choosing a proposer, some times over.
use relaychainmodel.Prelude.{
  List, Option, [], ap, arith, get_elem?, get_elem?-lt, get_elem?-set_self, inl, inr, map, none,
  refl, set, some, suc, sym, zero, ℕ, ◌<◌, ◌∙◌, ◌∷◌, ◌≡◌, ◌≤◌,
}
use relaychainmodel.Prelude.Int.{pos, ℤ}
use relaychainmodel.SafeMath.{IsInt64, safe_add_clip, safe_sub_clip}
use relaychainmodel.Types.ValidatorSet.{
  IsValid, total_voting_power-eq, Validator, ValidatorSet, max_total_voting_power, power, size,
  total_voting_power,
}
use relaychainmodel.Types.ValidatorSet.Priorities.{
  increment_once, increment_times, val_with_most_priority, with_priority,
}
use relaychainmodel.Types.ValidatorSet.Updates.Members.{IsUnique}
use relaychainmodel.Types.ValidatorSet.Rotation.Ranks.{
  AllInt64, Kept, clips-IsInt64, same-IsUnique, same-length, same-power, unranked,
}
use relaychainmodel.Types.ValidatorSet.Rotation.Chosen.{val_with_most_priority-Stands}

-- What a rotation keeps of a set: all but priorities and the proposer.
pub record Turned (s s' : ValidatorSet) : Type 0 where
  pub kept : Kept s.validators s'.validators
  pub cache : s'.total_voting_power ≡ s.total_voting_power

-- A set whose priorities can be moved: in order, with distinct addresses and int64s as priorities.
pub record Movable (s : ValidatorSet) : Type 0 where
  pub valid : IsValid s
  pub unique : IsUnique s.validators
  pub ranked : AllInt64 s.validators
  pub some_validators : 0 < size s

pub Turned-Movable : (s s' : ValidatorSet) → Turned s s' → Movable s → Movable s'
Turned-Movable s s' t m =
    let p = same-power s.validators s'.validators t.kept.same in
    let n = same-length s.validators s'.validators t.kept.same in
    record {
      valid = record {
        cached = elim m.valid.cached [
          | inl e ↦ inl (t.cache ∙ e)
          | inr e ↦ inr (t.cache ∙ (e ∙ sym p))
        ];
        capped = rw p m.valid.capped;
      };
      unique = same-IsUnique s.validators s'.validators t.kept.same m.unique;
      ranked = t.kept.ranked;
      some_validators = rw n m.some_validators;
    }

pub Turned-trans : (s s' s'' : ValidatorSet) → Turned s s' → Turned s' s'' → Turned s s''
Turned-trans s s' s'' t u = record {
  kept = record { same = u.kept.same ∙ t.kept.same; ranked = u.kept.ranked };
  cache = u.cache ∙ t.cache;
}

unranked-set :
    (vs : List Validator) (i : ℕ) (v : Validator) (p : ℤ)
    → get_elem? vs i ≡ some v
    → unranked (set vs i (with_priority v p)) ≡ unranked vs
unranked-set [] i v p h = refl
unranked-set (w ∷ vs) zero v p h =
    let e : w ≡ v = cc in ap (λ r. with_priority r (pos 0) ∷ unranked vs) (sym e)
unranked-set (w ∷ vs) (suc i) v p h =
    ap (λ r. with_priority w (pos 0) ∷ r) (unranked-set vs i v p h)

set-AllInt64 :
    (vs : List Validator) (i : ℕ) (v : Validator)
    → AllInt64 vs
    → IsInt64 v.proposer_priority
    → AllInt64 (set vs i v)
set-AllInt64 [] i v hs h = tt
set-AllInt64 (w ∷ vs) zero v (hw, hs) h = (h, hs)
set-AllInt64 (w ∷ vs) (suc i) v (hw, hs) h = (hw, set-AllInt64 vs i v hs h)

pub at-IsInt64 :
    (vs : List Validator) (i : ℕ) (v : Validator)
    → AllInt64 vs
    → get_elem? vs i ≡ some v
    → IsInt64 v.proposer_priority
at-IsInt64 [] i v hs h = absurd cc
at-IsInt64 (w ∷ vs) zero v (hw, hs) h = let e : w ≡ v = cc in rw (sym e) hw
at-IsInt64 (w ∷ vs) (suc i) v (hw, hs) h = at-IsInt64 vs i v hs h

raise : Validator → Validator
raise v = with_priority v (safe_add_clip v.proposer_priority (pos v.voting_power))

raised-Kept :
    (vs : List Validator) → power vs ≤ max_total_voting_power → AllInt64 vs → Kept vs (map raise vs)
unfolding power raise
raised-Kept [] le h = record { same = refl; ranked = tt }
raised-Kept (v ∷ vs) le (h, hs) =
    let k = raised-Kept vs (omega arith) hs in
    let p : IsInt64 (pos v.voting_power) = (omega arith, omega arith) in
    record {
      same = ap (λ r. with_priority v (pos 0) ∷ r) k.same;
      ranked = ((clips-IsInt64 v.proposer_priority (pos v.voting_power) h p).0, k.ranked);
    }

abbrev lowered : Validator → ℕ → Validator
lowered w total = with_priority w (safe_sub_clip w.proposer_priority (pos total))

abbrev turn : ValidatorSet → ℕ → Validator → ValidatorSet
turn s i v = record s { validators = set (map raise s.validators) i v }

increment_once-eq :
    (s : ValidatorSet) (i : ℕ) (w : Validator) (total : ℕ)
    → val_with_most_priority (map raise s.validators) ≡ some (i, w)
    → total_voting_power s ≡ some total
    → increment_once s ≡ some (turn s i (lowered w total), lowered w total)
unfolding increment_once raise
increment_once-eq s i w total chosen known =
    ap {B = Option (ValidatorSet × Validator)}
      (λ (o : Option (ℕ × Validator)). elim o [
        | none ↦ none
        | some (i, w) ↦ elim (total_voting_power s) [
          | none ↦ none
          | some total ↦ some (turn s i (lowered w total), lowered w total)
        ]
      ])
      chosen
    ∙ ap {B = Option (ValidatorSet × Validator)}
        (λ (o : Option ℕ). elim o [
          | none ↦ none
          | some total ↦ some (turn s i (lowered w total), lowered w total)
        ])
        known

-- One step of the rotation, and the validator that it chose.
increment_once-Turned :
    (s : ValidatorSet)
    → Movable s
    → (s' : ValidatorSet) × (v : Validator) × (increment_once s ≡ some (s', v))
      × Turned s s'
      × (i : ℕ) × (get_elem? s'.validators i ≡ some v)
increment_once-Turned s m =
    let vs = s.validators in
    let raised = raised-Kept vs m.valid.capped m.ranked in
    let n = same-length vs (map raise vs) raised.same in
    let ((i, w), chosen, at) =
      val_with_most_priority-Stands (map raise vs)
        (same-IsUnique vs (map raise vs) raised.same m.unique) (rw n m.some_validators) in
    let total = power vs in
    let v = lowered w total in
    let p : IsInt64 (pos total) = (omega arith, omega (arith, m.valid.capped)) in
    let low =
      (clips-IsInt64 w.proposer_priority (pos total)
        (at-IsInt64 (map raise vs) i w raised.ranked at) p).1 in
    (
      turn s i v,
      v,
      increment_once-eq s i w total chosen (total_voting_power-eq s m.valid),
      record {
        kept = record {
          same = unranked-set (map raise vs) i w v.proposer_priority at ∙ raised.same;
          ranked = set-AllInt64 (map raise vs) i v raised.ranked low;
        };
        cache = refl;
      },
      i,
      get_elem?-set_self (map raise vs) i v (get_elem?-lt (map raise vs) i at),
    )

-- The proposer is a validator of the set.
abbrev pub IsProposed : ValidatorSet → Type 0
IsProposed s =
    (v : Validator) × (i : ℕ) × (s.proposer ≡ some v) × (get_elem? s.validators i ≡ some v)

increment_times-next :
    (n : ℕ) (s s' : ValidatorSet) (p : Option Validator) (v : Validator)
    → increment_once s ≡ some (s', v)
    → increment_times (suc n) s p ≡ increment_times n s' (some v)
unfolding increment_times
increment_times-next n s s' p v h =
    ap {B = Option ValidatorSet}
      (λ (o : Option (ValidatorSet × Validator)). elim o [
        | none ↦ none
        | some (s', v) ↦ increment_times n s' (some v)
      ])
      h

pub increment_times-Turned :
    (n : ℕ) (s : ValidatorSet) (p : Option Validator)
    → Movable s
    → (s' : ValidatorSet) × (increment_times (suc n) s p ≡ some s') × Turned s s' × IsProposed s'
unfolding increment_times
increment_times-Turned zero s p m =
    let (s', v, once, turned, i, at) = increment_once-Turned s m in
    (
      record s' { proposer = some v },
      increment_times-next 0 s s' p v once,
      record { kept = turned.kept; cache = turned.cache },
      (v, i, refl, at),
    )
increment_times-Turned (suc n) s p m =
    let (s', v, once, turned, i, at) = increment_once-Turned s m in
    let (s'', more, turned', proposed) =
      increment_times-Turned n s' (some v) (Turned-Movable s s' turned m) in
    (
      s'',
      increment_times-next (suc n) s s' p v once ∙ more,
      Turned-trans s s' s'' turned turned',
      proposed,
    )

-- ===== src/Consensus/HeightVoteSet/Growth.antt =====
-- What the operations on the votes of a height keep: every set of votes is one that calls can lead
-- to, and it only grows.
use relaychainmodel.Prelude.{
  Bool-cases, [], arith, if◌then◌else◌, inl, inr, refl, some, some-injective, ◌∙◌, ◌∷◌, ◌≡◌,
}
use relaychainmodel.Prelude.Int.{eq_ℤ, eq_ℤ_iff, ℤ}
use relaychainmodel.Types.Vote.{Crypto, prevote_type, precommit_type}
use relaychainmodel.Types.VoteSet.{VoteSet, Config}
use relaychainmodel.Types.VoteSet.Safety.{Calls, Reach, here, next, from}
use relaychainmodel.Consensus.HeightVoteSet.{
  HeightVoteSet, RoundVoteSet, RoundVotes, lookup_round, insert_round, config_of,
}

pub lookup_round-insert_round :
    (r q : ℤ) (rvs : RoundVoteSet) (votes : RoundVotes)
    → lookup_round q (insert_round r rvs votes)
      ≡ (if eq_ℤ r q then some rvs else lookup_round q votes)
unfolding lookup_round insert_round
lookup_round-insert_round r q rvs [] = refl
lookup_round-insert_round r q rvs (entry ∷ entries) = ground (
  arith,
  eq_ℤ_iff r q,
  eq_ℤ_iff entry.0 r,
  eq_ℤ_iff entry.0 q,
  lookup_round-insert_round r q rvs entries,
)

Calls-trans : {k : Crypto} {s t u : VoteSet} → Calls k s t → Calls k t u → Calls k s u
Calls-trans r here = r
Calls-trans r (next r' c) = next (Calls-trans r r') c

pub Reach-Calls :
    {k : Crypto} {cfg : Config} {s t : VoteSet} → Reach k cfg s → Calls k s t → Reach k cfg t
Reach-Calls (from made r) c = from made (Calls-trans r c)

-- Each set of votes comes from NewVoteSet for its round and type.
pub record AllReach (k : Crypto) (h : HeightVoteSet) : Type 0 where
  pub sets :
      (r : ℤ) (rvs : RoundVoteSet)
      → lookup_round r h.round_vote_sets ≡ some rvs
      → Reach k (config_of h r prevote_type) rvs.prevotes
        × Reach k (config_of h r precommit_type) rvs.precommits

-- The later votes of a height: no set is lost, and each only takes calls.
pub record Grows (k : Crypto) (h h' : HeightVoteSet) : Type 0 where
  pub chain_id : h'.chain_id ≡ h.chain_id
  pub height : h'.height ≡ h.height
  pub val_set : h'.val_set ≡ h.val_set
  pub sets :
      (r : ℤ) (rvs : RoundVoteSet)
      → lookup_round r h.round_vote_sets ≡ some rvs
      → (rvs' : RoundVoteSet) × (lookup_round r h'.round_vote_sets ≡ some rvs')
        × Calls k rvs.prevotes rvs'.prevotes
        × Calls k rvs.precommits rvs'.precommits

pub Grows-refl : (k : Crypto) (h : HeightVoteSet) → Grows k h h
Grows-refl k h = record {
  chain_id = refl;
  height = refl;
  val_set = refl;
  sets = λ r rvs e. (rvs, e, here, here);
}

pub Grows-trans :
    {k : Crypto} {h h' h'' : HeightVoteSet} → Grows k h h' → Grows k h' h'' → Grows k h h''
Grows-trans g g' = record {
  chain_id = g'.chain_id ∙ g.chain_id;
  height = g'.height ∙ g.height;
  val_set = g'.val_set ∙ g.val_set;
  sets = λ r rvs e.
      let (rvs', e', p, q) = g.sets r rvs e in
      let (rvs'', e'', p', q') = g'.sets r rvs' e' in
      (rvs'', e'', Calls-trans p p', Calls-trans q q');
}

-- A change to one round's sets, by calls or from nothing.
abbrev pub with_round : HeightVoteSet → ℤ → RoundVoteSet → HeightVoteSet
with_round h r rvs = record h { round_vote_sets = insert_round r rvs h.round_vote_sets }

module _ (k : Crypto) (h : HeightVoteSet) (inv : AllReach k h) (r : ℤ) (rvs : RoundVoteSet) where
  pub with_round-AllReach :
      Reach k (config_of h r prevote_type) rvs.prevotes
      → Reach k (config_of h r precommit_type) rvs.precommits
      → AllReach k (with_round h r rvs)
  with_round-AllReach p q = record {
    sets = λ r' rvs' e.
        let e' = rw (lookup_round-insert_round r r' rvs h.round_vote_sets) at e in
        elim (Bool-cases (eq_ℤ r r')) [
          | inr other ↦ inv.sets r' rvs' (rw other at e')
          | inl same ↦
              let here_now : some rvs ≡ some rvs' = rw same at e' in
              rw (← some-injective rvs rvs' here_now, ← (eq_ℤ_iff r r').0 same) (p, q)
        ];
  }

  pub with_round-Grows :
      ((old : RoundVoteSet)
        → lookup_round r h.round_vote_sets ≡ some old
        → Calls k old.prevotes rvs.prevotes × Calls k old.precommits rvs.precommits)
      → Grows k h (with_round h r rvs)
  with_round-Grows grow = record {
    chain_id = refl;
    height = refl;
    val_set = refl;
    sets = λ r' old e. elim (Bool-cases (eq_ℤ r r')) [
      | inr other ↦
          (old, rw (lookup_round-insert_round r r' rvs h.round_vote_sets, other) e, here, here)
      | inl same ↦
          let (p, q) = grow old (rw (← (eq_ℤ_iff r r').0 same) at e) in
          (rvs, rw (lookup_round-insert_round r r' rvs h.round_vote_sets, same) refl, p, q)
    ];
  }

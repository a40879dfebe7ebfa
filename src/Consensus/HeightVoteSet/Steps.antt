-- ===== src/Consensus/HeightVoteSet/Steps.antt =====
-- The operations on the votes of a height keep what Growth says.
use relaychainmodel.Prelude.{
  Bool, Bool-cases, List, Option, Option-cases, [], arith, inl, inr, length, ltb, none, not, refl,
  some, some-injective, suc, sym, zero, ℕ, ◌&&◌, ◌++◌, ◌==◌, ◌∙◌, ◌∷◌, ◌≡◌,
}
use relaychainmodel.Prelude.Int.{eq_ℤ, ltb_ℤ, pos, pos_part, ℤ, ◌+ℤ◌, ◌-ℤ◌}
use relaychainmodel.Prelude.Bytes.{Bytes}
use relaychainmodel.Prelude.Outcome.{Outcome-cases, failed, ok, panicked, returned}
use relaychainmodel.Prelude.Map.{Map, insert}
use relaychainmodel.SafeMath.{safe_sub_int32}
use relaychainmodel.Types.Vote.{Vote, Crypto, prevote_type, precommit_type, vote_sign_bytes}
use relaychainmodel.Types.ValidatorSet.{ValidatorSet, IsValid}
use relaychainmodel.Types.VoteSet.{VoteSet, new_vote_set, add_vote}
use relaychainmodel.Types.VoteSet.Safety.{Calls, Reach, Reach-Inv, add, here, next, from}
use relaychainmodel.Consensus.HeightVoteSet.{
  HeightVoteSet, RoundVoteSet, HvsError, is_vote_type_valid, catchup_rounds, lookup_round, of_type,
  with_type, add_round, add_rounds, set_round, config_of, get_vote_set, add_to_round,
  add_height_vote, new_height_vote_set,
}
use relaychainmodel.Consensus.HeightVoteSet.Growth.{
  AllReach, Grows, Grows-refl, Grows-trans, Reach-Calls, with_round, with_round-AllReach,
  with_round-Grows,
}

-- What a step keeps.
abbrev pub Keeps : Crypto → HeightVoteSet → HeightVoteSet → Type 0
Keeps k h h' = AllReach k h' × Grows k h h'

Keeps-trans :
    {k : Crypto} {h h' h'' : HeightVoteSet} → Keeps k h h' → Keeps k h' h'' → Keeps k h h''
Keeps-trans a b = (b.0, Grows-trans a.1 b.1)

add_round-eq :
    (h h' : HeightVoteSet) (r : ℤ)
    → add_round h r ≡ some h'
    → (p q : VoteSet) × (lookup_round r h.round_vote_sets ≡ none)
      × (new_vote_set (config_of h r prevote_type) ≡ ok p)
      × (new_vote_set (config_of h r precommit_type) ≡ ok q)
      × (with_round h r (record { prevotes = p; precommits = q }) ≡ h')
unfolding add_round
add_round-eq h h' r e = elim (Option-cases (lookup_round r h.round_vote_sets)) [
  | inr (rvs, found) ↦ absurd (ground arith)
  | inl missing ↦ elim (Outcome-cases (new_vote_set (config_of h r prevote_type))) [
    | failed x f ↦ absurd (ground arith)
    | panicked f ↦ absurd (ground arith)
    | returned p f ↦ elim (Outcome-cases (new_vote_set (config_of h r precommit_type))) [
      | failed x g ↦ absurd (ground arith)
      | panicked g ↦ absurd (ground arith)
      | returned q g ↦ (p, q, missing, f, g, ground arith)
    ]
  ]
]

module _ (k : Crypto) where
  add_round-Keeps :
      (h h' : HeightVoteSet) (r : ℤ) → AllReach k h → add_round h r ≡ some h' → Keeps k h h'
  add_round-Keeps h h' r inv e =
      let (p, q, missing, made_p, made_q, same) = add_round-eq h h' r e in
      let rvs : RoundVoteSet = record { prevotes = p; precommits = q } in
      rw (← same) (
        with_round-AllReach k h inv r rvs (from made_p here) (from made_q here),
        with_round-Grows k h inv r rvs (λ old f. absurd (ground arith)),
      )

  -- A new one starts with no votes.
  new_height_vote_set-Keeps :
      (chain_id : Bytes) (height : ℤ) (vals : ValidatorSet) (h : HeightVoteSet)
      → new_height_vote_set chain_id height vals ≡ some h
      → AllReach k h × (h.chain_id ≡ chain_id) × (h.val_set ≡ vals) × (h.height ≡ height)
  unfolding new_height_vote_set lookup_round
  new_height_vote_set-Keeps chain_id height vals h e =
      let empty : HeightVoteSet = record {
        chain_id = chain_id;
        height = height;
        val_set = vals;
        round = pos 0;
        round_vote_sets = [];
        peer_catchup_rounds = [];
      } in
      let (reach, grows) = add_round-Keeps empty h (pos 0) (record { sets = λ r rvs f. cc }) e in
      (reach, grows.chain_id, grows.val_set, grows.height)

  pub new_height_vote_set-AllReach :
      (chain_id : Bytes) (height : ℤ) (vals : ValidatorSet) (h : HeightVoteSet)
      → new_height_vote_set chain_id height vals ≡ some h
      → AllReach k h
  new_height_vote_set-AllReach chain_id height vals h e =
      (new_height_vote_set-Keeps chain_id height vals h e).0

  -- A new one is for what it was made for.
  pub new_height_vote_set-fields :
      (chain_id : Bytes) (height : ℤ) (vals : ValidatorSet) (h : HeightVoteSet)
      → new_height_vote_set chain_id height vals ≡ some h
      → (h.chain_id ≡ chain_id) × (h.val_set ≡ vals) × (h.height ≡ height)
  new_height_vote_set-fields chain_id height vals h e =
      let (reach, same_id, same_vals, same_height) =
        new_height_vote_set-Keeps chain_id height vals h e in
      (same_id, same_vals, same_height)

  add_rounds-Keeps :
      (n : ℕ) (h h' : HeightVoteSet) (r : ℤ)
      → AllReach k h
      → add_rounds n r h ≡ some h'
      → Keeps k h h'
  unfolding add_rounds
  add_rounds-Keeps zero h h' r inv e = rw (← some-injective h h' e) (inv, Grows-refl k h)
  add_rounds-Keeps (suc n) h h' r inv e = elim (Option-cases (lookup_round r h.round_vote_sets)) [
    | inr (rvs, found) ↦ add_rounds-Keeps n h h' (r +ℤ pos 1) inv (ground arith)
    | inl missing ↦ elim (Option-cases (add_round h r)) [
      | inl f ↦ absurd (ground arith)
      | inr (h₁, f) ↦
          let first = add_round-Keeps h h₁ r inv f in
          Keeps-trans first (add_rounds-Keeps n h₁ h' (r +ℤ pos 1) first.0 (ground arith))
    ]
  ]

  pub set_round-Keeps :
      (h h' : HeightVoteSet) (r : ℤ) → AllReach k h → set_round h r ≡ some h' → Keeps k h h'
  unfolding set_round
  set_round-Keeps h h' r inv e = elim (Option-cases (safe_sub_int32 h.round (pos 1))) [
    | inl f ↦ absurd (ground arith)
    | inr (q, f) ↦ elim (Bool-cases (not (eq_ℤ h.round (pos 0)) && ltb_ℤ r q)) [
      | inl back ↦ absurd (ground arith)
      | inr forth ↦ elim (Option-cases (add_rounds (pos_part (r +ℤ pos 1 -ℤ q)) q h)) [
        | inl g ↦ absurd (ground arith)
        | inr (h₁, g) ↦
            let (reach, grows) = add_rounds-Keeps (pos_part (r +ℤ pos 1 -ℤ q)) h h₁ q inv g in
            let same : record h₁ { round = r } ≡ h' = ground arith in
            rw (← same) (moved h₁ reach, Grows-trans grows (moved_Grows h₁))
      ]
    ]
  ]
    where
      moved : (h₁ : HeightVoteSet) → AllReach k h₁ → AllReach k (record h₁ { round = r })
      moved h₁ reach = record { sets = reach.sets }

      moved_Grows : (h₁ : HeightVoteSet) → Grows k h₁ (record h₁ { round = r })
      moved_Grows h₁ = record {
        chain_id = refl;
        height = refl;
        val_set = refl;
        sets = λ r rvs e. (rvs, e, here, here);
      }

  -- One call of AddVote on one of a round's sets.
  with_type-Calls :
      (rvs : RoundVoteSet) (type : ℕ) (s : VoteSet)
      → Calls k (of_type rvs type) s
      → Calls k rvs.prevotes (with_type rvs type s).prevotes
        × Calls k rvs.precommits (with_type rvs type s).precommits
  with_type-Calls rvs type s c = elim (Bool-cases (type == prevote_type)) [
    | inl e ↦ rw e (rw e at c, here)
    | inr e ↦ rw e (here, rw e at c)
  ]

  module _ (h : HeightVoteSet) (valid : IsValid h.val_set) (vote : Vote) (message : Bytes)
      (signs : vote_sign_bytes k h.chain_id vote ≡ ok message) where
    type-Reach :
        (rvs : RoundVoteSet) (r : ℤ) (type : ℕ)
        → AllReach k h
        → lookup_round r h.round_vote_sets ≡ some rvs
        → (t : ℕ) × Reach k (config_of h r t) (of_type rvs type)
    type-Reach rvs r type inv found =
        let (p, q) = inv.sets r rvs found in
        elim (Bool-cases (type == prevote_type)) [
          | inl e ↦ (prevote_type, rw e p)
          | inr e ↦ (precommit_type, rw e q)
        ]

    pub add_to_round-Keeps :
        (h' : HeightVoteSet) (added : Bool) (x : Option HvsError)
        → AllReach k h
        → add_to_round k h vote ≡ some (h', added, x)
        → Keeps k h h'
    unfolding add_to_round
    add_to_round-Keeps h' added x inv e =
        elim (Option-cases (lookup_round vote.round h.round_vote_sets)) [
          | inl f ↦ absurd (ground arith)
          | inr (rvs, f) ↦ elim (Outcome-cases (add_vote k (of_type rvs vote.type) (some vote))) [
            | panicked g ↦ absurd (ground arith)
            | failed y g ↦ let same : h ≡ h' = ground arith in rw (← same) (inv, Grows-refl k h)
            | returned (s, fresh, y) g ↦
                let (t, reach) = type-Reach rvs vote.round vote.type inv f in
                let configured = (Reach-Inv k (config_of h vote.round t) valid reach).configured in
                let call : Calls k (of_type rvs vote.type) s =
                  next here (add vote message fresh y (rw configured signs) g) in
                let (p, q) = with_type-Calls rvs vote.type s call in
                let (rp, rq) = inv.sets vote.round rvs f in
                let rvs' = with_type rvs vote.type s in
                let same : with_round h vote.round rvs' ≡ h' = ground arith in
                rw (← same) (
                  with_round-AllReach k h inv vote.round rvs' (Reach-Calls rp p) (Reach-Calls rq q),
                  with_round-Grows k h inv vote.round rvs' (λ old g'.
                      let e' : rvs ≡ old = some-injective rvs old (sym f ∙ g') in rw (← e') (p, q)),
                )
          ]
        ]

    -- The note of a catch-up round changes no votes.
    noted-Keeps :
        (h₁ : HeightVoteSet) (peers : Map (List ℤ))
        → AllReach k h₁
        → Grows k h h₁
        → Keeps k h (record h₁ { peer_catchup_rounds = peers })
    noted-Keeps h₁ peers reach grows = (
      record { sets = reach.sets },
      record {
        chain_id = grows.chain_id;
        height = grows.height;
        val_set = grows.val_set;
        sets = grows.sets;
      },
    )

  pub add_height_vote-Keeps :
      (h h' : HeightVoteSet) (vote : Vote) (peer message : Bytes) (added : Bool)
      (x : Option HvsError)
      → IsValid h.val_set
      → vote_sign_bytes k h.chain_id vote ≡ ok message
      → AllReach k h
      → add_height_vote k h vote peer ≡ some (h', added, x)
      → Keeps k h h'
  unfolding add_height_vote
  add_height_vote-Keeps h h' vote peer message added x valid signs inv e =
      elim (Bool-cases (is_vote_type_valid vote.type)) [
        | inr f ↦ unchanged (ground arith)
        | inl f ↦ elim (Option-cases (get_vote_set h vote.round vote.type)) [
          | inr (s, g) ↦ add_to_round-Keeps h valid vote message signs h' added x inv (ground arith)
          | inl g ↦ elim (Bool-cases (ltb (length (catchup_rounds h peer)) 2)) [
            | inr full ↦ unchanged (ground arith)
            | inl room ↦ elim (Option-cases (add_round h vote.round)) [
              | inl a ↦ absurd (ground arith)
              | inr (h₁, a) ↦
                  let (reach, grows) = add_round-Keeps h h₁ vote.round inv a in
                  let peers =
                    insert peer (catchup_rounds h peer ++ (vote.round ∷ []))
                      h₁.peer_catchup_rounds in
                  let h₂ = record h₁ { peer_catchup_rounds = peers } in
                  let noted = noted-Keeps h valid vote message signs h₁ peers reach grows in
                  Keeps-trans noted (
                    add_to_round-Keeps h₂ (rw grows.val_set valid) vote message
                      (rw grows.chain_id signs) h' added x noted.0 (ground arith))
            ]
          ]
        ]
      ]
    where
      unchanged : h ≡ h' → Keeps k h h'
      unchanged same = rw (← same) (inv, Grows-refl k h)

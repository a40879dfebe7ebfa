-- ===== src/Types/VoteSet/Calls.antt =====
-- AddVote, from a set that satisfies the invariant to another.
use relaychainmodel.Prelude.{
  Bool, Bool-cases, Option, Option-cases, arith, false, get_elem?, inl, inr, length, none, not,
  refl, some, true, ℕ, ◌==◌, ◌||◌, ◌≡◌, ◌≢◌,
}
use relaychainmodel.Prelude.Int.{eq_ℤ, eq_ℤ_iff, ltb_ℤ, pos, pos_part}
use relaychainmodel.Prelude.Bytes.{Bytes, bytes_eq, bytes_eq_iff}
use relaychainmodel.Prelude.Outcome.{
  Outcome, Outcome-cases, err, failed, ok, panicked, panics, returned,
}
use relaychainmodel.Types.Vote.{
  Vote, VoteError, invalid_index, invalid_address, unexpected_step, non_deterministic_signature,
  conflicting_votes, Crypto, verify, vote_sign_bytes,
}
use relaychainmodel.Types.ValidatorSet.{Validator, IsValid, get_by_index, get_by_index-some}
use relaychainmodel.Types.VoteSet.{Config, VoteSet, key, get_vote, add_known, add_vote}
use relaychainmodel.Types.VoteSet.Invariant.{Genuine, Inv}
use relaychainmodel.Types.VoteSet.AddVote.{KeepsMajority, add_verified_vote-Inv}

module _ (k : Crypto) (cfg : Config) (s : VoteSet) (vote : Vote) where
  -- How a call of AddVote may end: it returns a set that satisfies the invariant, with no error or
  -- with that of a conflicting vote, or it returns another error and changes nothing.
  abbrev pub AddEnds : Outcome VoteError (VoteSet × Bool × Option VoteError) → Type 0
  AddEnds (ok (s', added, e)) = Inv k cfg s' × KeepsMajority s s' vote.block_id
  AddEnds (err e) = Unit
  AddEnds panics = ⊥

  ends :
      {o o' : Outcome VoteError (VoteSet × Bool × Option VoteError)}
      → o ≡ o'
      → AddEnds o'
      → AddEnds o
  ends e h = rw e h

verify-total :
    (k : Crypto) (chain_id pub_key message : Bytes) (v : Vote)
    → vote_sign_bytes k chain_id v ≡ ok message
    → verify k chain_id pub_key v ≢ panics
unfolding verify
verify-total k chain_id pub_key message v h p = ground arith

module _ (k : Crypto) (cfg : Config) (valid : IsValid cfg.val_set) (s : VoteSet) (inv : Inv k cfg s)
    (vote : Vote) (message : Bytes) (signs : vote_sign_bytes k cfg.chain_id vote ≡ ok message) where
  verified-Ends :
      (i : ℕ) (g : Genuine k cfg i vote)
      → get_vote k s i (key k vote.block_id) ≡ none
      → AddEnds k cfg s vote (add_known k s vote g.validator i (key k vote.block_id))
  unfolding add_known
  verified-Ends i g unknown =
      let (s', added, conflicting, ran, inv', majority, fresh) =
        add_verified_vote-Inv k cfg valid s inv i vote g unknown in
      let verifies : verify k s.config.chain_id g.validator.pub_key vote ≡ ok tt =
        rw inv.configured g.verified in
      elim (Option-cases conflicting) [
        | inr (old, c) ↦
            ends k cfg s vote {o' = ok (s', added, some (conflicting_votes old vote))}
              (ground arith) (inv', majority)
        | inl c ↦ ends k cfg s vote {o' = ok (s', added, none)} (ground arith) (inv', majority)
      ]

  add_known-Ends :
      (i : ℕ) (val : Validator)
      → vote.validator_index ≡ pos i
      → get_elem? cfg.val_set.validators i ≡ some val
      → vote.height ≡ cfg.height
      → vote.round ≡ cfg.round
      → vote.type ≡ cfg.signed_msg_type
      → vote.validator_address ≡ val.address
      → AddEnds k cfg s vote (add_known k s vote val i (key k vote.block_id))
  unfolding add_known
  add_known-Ends i val at_i in_set h r t a =
      elim (Option-cases (get_vote k s i (key k vote.block_id))) [
        | inr (existing, known) ↦ elim (Bool-cases (bytes_eq existing.signature vote.signature)) [
          | inl duplicate ↦
              ends k cfg s vote {o' = ok (s, false, none)} (ground arith) (inv, inl refl)
          | inr differs ↦ ends k cfg s vote {o' = err non_deterministic_signature} (ground arith) tt
        ]
        | inl unknown ↦ elim (Outcome-cases (verify k cfg.chain_id val.pub_key vote)) [
          | failed e v ↦ ends k cfg s vote {o' = err e} (let c = inv.configured in ground arith) tt
          | panicked v ↦ absurd (verify-total k cfg.chain_id val.pub_key message vote signs v)
          | returned tt v ↦
              verified-Ends i
                (record {
                  validator = val;
                  index = at_i;
                  height = h;
                  round = r;
                  type = t;
                  in_set = in_set;
                  address = a;
                  verified = v;
                })
                unknown
        ]
      ]

  -- AddVote never panics while the sign bytes of the vote can be computed. Whatever it returns, the
  -- set satisfies the invariant, and a recorded majority is kept.
  pub add_vote-Ends : AddEnds k cfg s vote (add_vote k s (some vote))
  unfolding add_vote
  add_vote-Ends =
      let c = inv.configured in
      let i = pos_part vote.validator_index in
      elim (Bool-cases (ltb_ℤ vote.validator_index (pos 0))) [
        | inl negative ↦ ends k cfg s vote {o' = err invalid_index} (ground arith) tt
        | inr index ↦ elim (Bool-cases (length vote.validator_address == 0)) [
          | inl nobody ↦ ends k cfg s vote {o' = err invalid_address} (ground arith) tt
          | inr somebody ↦
              elim (Bool-cases (
                not (eq_ℤ vote.height s.config.height)
                || not (eq_ℤ vote.round s.config.round)
                || not (vote.type == s.config.signed_msg_type))) [
                  | inl step ↦ ends k cfg s vote {o' = err unexpected_step} (ground arith) tt
                  | inr same_step ↦
                      elim (Option-cases (get_by_index s.config.val_set vote.validator_index)) [
                        | inl absent_val ↦
                            ends k cfg s vote {o' = err invalid_index} (ground arith) tt
                        | inr (val, found) ↦
                            elim (Bool-cases (bytes_eq vote.validator_address val.address)) [
                              | inr differs ↦
                                  ends k cfg s vote {o' = err invalid_address} (ground arith) tt
                              | inl same ↦
                                  ends k cfg s vote
                                    {o' = add_known k s vote val i (key k vote.block_id)}
                                    (ground arith) (known i val index same_step found same)
                            ]
                      ]
                ]
        ]
      ]
    where
      known :
          (i : ℕ) (val : Validator)
          → ltb_ℤ vote.validator_index (pos 0) ≡ false
          → (not (eq_ℤ vote.height s.config.height)
              || not (eq_ℤ vote.round s.config.round)
              || not (vote.type == s.config.signed_msg_type))
            ≡ false
          → get_by_index s.config.val_set vote.validator_index ≡ some val
          → bytes_eq vote.validator_address val.address ≡ true
          → AddEnds k cfg s vote
              (add_known k s vote val (pos_part vote.validator_index) (key k vote.block_id))
      known i val index step found same =
          let c = inv.configured in
          let (n, e, lt, at_n) = get_by_index-some s.config.val_set vote.validator_index found in
          let in_set : get_elem? cfg.val_set.validators (pos_part vote.validator_index) ≡ some val =
            ground arith in
          add_known-Ends (pos_part vote.validator_index) val (ground arith) in_set
            (ground (arith, eq_ℤ_iff vote.height s.config.height))
            (ground (arith, eq_ℤ_iff vote.round s.config.round)) (ground arith)
            ((bytes_eq_iff vote.validator_address val.address).0 same)

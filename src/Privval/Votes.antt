-- ===== src/Privval/Votes.antt =====
-- signVote, call by call: the state holds exactly what was handed out.
use relaychainmodel.Prelude.{
  Bool, Bool-cases, Option-cases, ap, arith, false, inl, inr, refl, some, sym, true, ℕ, ◌∙◌, ◌≡◌,
  ◌≢◌,
}
use relaychainmodel.Prelude.Int.{ℤ}
use relaychainmodel.Prelude.Bytes.{Bytes, bytes_eq, bytes_eq_iff}
use relaychainmodel.Prelude.Outcome.{Outcome-cases, failed, ok, panicked, returned}
use relaychainmodel.Types.Vote.{Vote, CanonicalVote, Crypto, canonicalize_vote, vote_sign_bytes}
use relaychainmodel.Privval.{
  LastSignState, step_propose, vote_to_step, check_hrs, save_signed, reuse_vote, sign_new_vote,
  sign_vote,
}
use relaychainmodel.Privval.Canonical.{Codec, same_vote, same_vote-eq}
use relaychainmodel.Privval.Signing.{
  IsLawful, IsWritten, Answered, check_hrs-true, check_hrs-false, save_signed-ok,
}

vote_to_step-vote : (type p : ℕ) → vote_to_step type ≡ ok p → p ≢ step_propose
unfolding vote_to_step
vote_to_step-vote type p h = ground arith

module _ (c : Crypto) (d : Codec) (lawful : IsLawful c d) where
  vote_sign_bytes-inv :
      (chain_id : Bytes) (v : Vote) (m : Bytes)
      → vote_sign_bytes c chain_id v ≡ ok m
      → (cv : CanonicalVote) × (canonicalize_vote chain_id v ≡ ok cv) × (c.marshal_vote cv ≡ some m)
  unfolding vote_sign_bytes
  vote_sign_bytes-inv chain_id v m h = elim (Outcome-cases (canonicalize_vote chain_id v)) [
    | returned cv e ↦ (cv, e, ground arith)
    | failed e' e ↦ absurd (ground arith)
    | panicked e ↦ absurd (ground arith)
  ]

  canonicalize_vote-timestamp :
      (chain_id : Bytes) (v : Vote) (cv : CanonicalVote) (t : ℤ) (g : Bytes)
      → canonicalize_vote chain_id v ≡ ok cv
      → canonicalize_vote chain_id (record v { timestamp = t; signature = g })
        ≡ ok (record cv { timestamp = t })
  unfolding canonicalize_vote
  canonicalize_vote-timestamp chain_id v cv t g h = ground arith

  sign_bytes_signature :
      (chain_id : Bytes) (v : Vote) (g : Bytes)
      → vote_sign_bytes c chain_id (record v { signature = g }) ≡ vote_sign_bytes c chain_id v
  unfolding vote_sign_bytes canonicalize_vote
  sign_bytes_signature chain_id v g = refl

  -- A vote that takes the last timestamp has the last sign bytes.
  resigned :
      (chain_id : Bytes) (v : Vote) (cv lv : CanonicalVote) (b g : Bytes)
      → canonicalize_vote chain_id v ≡ ok cv
      → record cv { timestamp = lv.timestamp } ≡ lv
      → c.marshal_vote lv ≡ some b
      → vote_sign_bytes c chain_id (record v { timestamp = lv.timestamp; signature = g }) ≡ ok b
  unfolding vote_sign_bytes
  resigned chain_id v cv lv b g canon e last =
      rw (canonicalize_vote-timestamp chain_id v cv lv.timestamp g canon, e, last)

  reuse_vote-inv :
      (chain_id : Bytes) (s : LastSignState) (v : Vote) (m b g : Bytes) (s' : LastSignState)
      (v' : Vote)
      → IsWritten c d s
      → s.step ≢ step_propose
      → vote_sign_bytes c chain_id v ≡ ok m
      → s.sign_bytes ≡ some b
      → s.signature ≡ some g
      → reuse_vote c d s m v ≡ ok (s', v')
      → (s' ≡ s)
        × (vote_sign_bytes c chain_id v' ≡ ok b)
        × (v'.signature ≡ g)
        × (v'.height ≡ v.height)
        × (v'.round ≡ v.round)
        × (v'.type ≡ v.type)
  unfolding reuse_vote
  reuse_vote-inv chain_id s v m b g s' v' w step signs hb hg h =
      let (cv, canon, encoded) = vote_sign_bytes-inv chain_id v m signs in
      let (lv, last) = w.vote b hb step in
      let u = lawful.vote_round_trip lv b last in
      let u' = lawful.vote_round_trip cv m encoded in
      elim (Bool-cases (bytes_eq m b)) [
        | inl same ↦
            let e = (bytes_eq_iff m b).0 same in
            let hv : v' ≡ record v { signature = g } = ground arith in
            let hs : s' ≡ s = ground arith in
            (
              hs,
              rw hv (sign_bytes_signature chain_id v g ∙ signs ∙ ap ok e),
              rw hv,
              rw hv,
              rw hv,
              rw hv,
            )
        | inr differs ↦ elim (Bool-cases (same_vote cv lv)) [
          | inr conflict ↦ absurd (ground arith)
          | inl same ↦
              let e = same_vote-eq cv lv same in
              let hv : v' ≡ record v { timestamp = lv.timestamp; signature = g } = ground arith in
              let hs : s' ≡ s = ground arith in
              (hs, rw hv (resigned chain_id v cv lv b g canon e last), rw hv, rw hv, rw hv, rw hv)
        ]
      ]

  sign_new_vote-inv :
      (chain_id : Bytes) (written : Bool) (s : LastSignState) (p : ℕ) (m : Bytes) (v : Vote)
      (s' : LastSignState) (v' : Vote)
      → sign_new_vote c d written s p m v ≡ ok (s', v')
      → (g : Bytes) × (save_signed written s v.height v.round p m g ≡ ok s')
        × (v' ≡ record v { signature = g })
  unfolding sign_new_vote
  sign_new_vote-inv chain_id written s p m v s' v' h = elim (Option-cases (d.sign m)) [
    | inl fails ↦ absurd (ground arith)
    | inr (g, signs) ↦ elim (Outcome-cases (save_signed written s v.height v.round p m g)) [
      | returned t e ↦ (g, ground arith, ground arith)
      | failed e' e ↦ absurd (ground arith)
      | panicked e ↦ absurd (ground arith)
    ]
  ]

  -- The vote that `signVote` hands out, for its step.
  AnsweredVote : Bytes → LastSignState → LastSignState → Vote → ℕ → Type 0
  AnsweredVote chain_id s s' v p =
      Answered c d s s' v.height v.round p (vote_sign_bytes c chain_id v) v.signature

  reused :
      (chain_id : Bytes) (s : LastSignState) (v : Vote) (m : Bytes) (p : ℕ) (s' : LastSignState)
      (v' : Vote)
      → IsWritten c d s
      → p ≢ step_propose
      → vote_sign_bytes c chain_id v ≡ ok m
      → check_hrs s v.height v.round p ≡ ok true
      → reuse_vote c d s m v ≡ ok (s', v')
      → AnsweredVote chain_id s s' v' p
        × (v'.height ≡ v.height)
        × (v'.round ≡ v.round)
        × (v'.type ≡ v.type)
  unfolding AnsweredVote
  reused chain_id s v m p s' v' w not_propose signs hrs h =
      let (sh, sr, sp, b, g, hb, hg) = check_hrs-true s v.height v.round p hrs in
      let (same, bytes, sig, vh, vr, vt) =
        reuse_vote-inv chain_id s v m b g s' v' w (λ e. not_propose (sym sp ∙ e)) signs hb hg h in
      (
        record {
          at_height = rw same (sh ∙ sym vh);
          at_round = rw same (sr ∙ sym vr);
          at_step = rw same sp;
          bytes = b;
          holds_bytes = rw same hb;
          signs_bytes = bytes;
          holds_signature = rw (same, sig) hg;
          order = inl same;
          written = rw same w;
        },
        vh,
        vr,
        vt,
      )

  signed_new :
      (chain_id : Bytes) (written : Bool) (s : LastSignState) (v : Vote) (m : Bytes) (p : ℕ)
      (s' : LastSignState) (v' : Vote)
      → p ≢ step_propose
      → vote_sign_bytes c chain_id v ≡ ok m
      → check_hrs s v.height v.round p ≡ ok false
      → sign_new_vote c d written s p m v ≡ ok (s', v')
      → AnsweredVote chain_id s s' v' p
        × (v'.height ≡ v.height)
        × (v'.round ≡ v.round)
        × (v'.type ≡ v.type)
  unfolding AnsweredVote
  signed_new chain_id written s v m p s' v' not_propose signs hrs h =
      let (g, saved, hv) = sign_new_vote-inv chain_id written s p m v s' v' h in
      let (sh, sr, sp, sb, sg) = save_signed-ok written s v.height v.round p m g s' saved in
      let (cv, canon, encoded) = vote_sign_bytes-inv chain_id v m signs in
      (
        record {
          at_height = rw hv sh;
          at_round = rw hv sr;
          at_step = sp;
          bytes = m;
          holds_bytes = sb;
          signs_bytes = rw hv (sign_bytes_signature chain_id v g ∙ signs);
          holds_signature = rw hv sg;
          order = inr (rw hv (check_hrs-false s v.height v.round p hrs));
          written = record {
            proposal = λ b hb step. absurd (not_propose (sym sp ∙ step));
            vote = λ b hb step. (cv, ground arith);
          };
        },
        rw hv,
        rw hv,
        rw hv,
      )

  -- What `signVote` hands out is what the state holds, also when it is an earlier answer.
  pub sign_vote-Answered :
      (chain_id : Bytes) (written : Bool) (s : LastSignState) (v : Vote) (s' : LastSignState)
      (v' : Vote)
      → IsWritten c d s
      → sign_vote c d written chain_id s v ≡ ok (s', v')
      → (p : ℕ) × (vote_to_step v'.type ≡ ok p)
        × Answered c d s s' v'.height v'.round p (vote_sign_bytes c chain_id v') v'.signature
  unfolding sign_vote AnsweredVote
  sign_vote-Answered chain_id written s v s' v' w h = elim (Outcome-cases (vote_to_step v.type)) [
    | failed e' e ↦ absurd (ground arith)
    | panicked e ↦ absurd (ground arith)
    | returned p is_step ↦ elim (Outcome-cases (check_hrs s v.height v.round p)) [
      | failed e' e ↦ absurd (ground arith)
      | panicked e ↦ absurd (ground arith)
      | returned same hrs ↦ elim (Outcome-cases (vote_sign_bytes c chain_id v)) [
        | failed e' e ↦ absurd (ground arith)
        | panicked e ↦ absurd (ground arith)
        | returned m signs ↦
            let not_propose = vote_to_step-vote v.type p is_step in
            let finish =
              λ (a : AnsweredVote chain_id s s' v' p
                  × (v'.height ≡ v.height)
                  × (v'.round ≡ v.round)
                  × (v'.type ≡ v.type)).
                let r : (q : ℕ) × (vote_to_step v'.type ≡ ok q)
                    × Answered c d s s' v'.height v'.round q (vote_sign_bytes c chain_id v')
                        v'.signature =
                  (p, rw a.3 is_step, a.0) in
                r in
            elim (Bool-cases same) [
              | inl again ↦ finish (
                  reused chain_id s v m p s' v' w not_propose signs (rw again at hrs)
                    (ground arith))
              | inr anew ↦ finish (
                  signed_new chain_id written s v m p s' v' not_propose signs (rw anew at hrs)
                    (ground arith))
            ]
      ]
    ]
  ]

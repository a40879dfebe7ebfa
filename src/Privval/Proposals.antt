-- ===== src/Privval/Proposals.antt =====
-- signProposal, call by call: the state holds exactly what was handed out.
use relaychainmodel.Prelude.{
  Bool, Bool-cases, Option-cases, ap, arith, false, inl, inr, refl, some, sym, true, ℕ, ◌∙◌, ◌≡◌,
}
use relaychainmodel.Prelude.Int.{ℤ}
use relaychainmodel.Prelude.Bytes.{Bytes, bytes_eq, bytes_eq_iff}
use relaychainmodel.Prelude.Outcome.{Outcome-cases, failed, ok, panicked, returned}
use relaychainmodel.Types.Vote.{Crypto}
use relaychainmodel.Privval.{
  LastSignState, step_propose, check_hrs, save_signed, reuse_proposal, sign_new_proposal,
  sign_proposal,
}
use relaychainmodel.Privval.Canonical.{
  Proposal, CanonicalProposal, Codec, canonicalize_proposal, proposal_sign_bytes, same_proposal,
  same_proposal-eq,
}
use relaychainmodel.Privval.Signing.{
  IsLawful, IsWritten, Answered, check_hrs-true, check_hrs-false, save_signed-ok,
}

module _ (c : Crypto) (d : Codec) (lawful : IsLawful c d) where
  proposal_sign_bytes-inv :
      (chain_id : Bytes) (v : Proposal) (m : Bytes)
      → proposal_sign_bytes d chain_id v ≡ ok m
      → (cv : CanonicalProposal) × (canonicalize_proposal chain_id v ≡ ok cv)
        × (d.marshal_proposal cv ≡ some m)
  unfolding proposal_sign_bytes
  proposal_sign_bytes-inv chain_id v m h = elim (Outcome-cases (canonicalize_proposal chain_id v)) [
    | returned cv e ↦ (cv, e, ground arith)
    | failed e' e ↦ absurd (ground arith)
    | panicked e ↦ absurd (ground arith)
  ]

  canonicalize_proposal-timestamp :
      (chain_id : Bytes) (v : Proposal) (cv : CanonicalProposal) (t : ℤ) (g : Bytes)
      → canonicalize_proposal chain_id v ≡ ok cv
      → canonicalize_proposal chain_id (record v { timestamp = t; signature = g })
        ≡ ok (record cv { timestamp = t })
  unfolding canonicalize_proposal
  canonicalize_proposal-timestamp chain_id v cv t g h = ground arith

  sign_bytes_signature :
      (chain_id : Bytes) (v : Proposal) (g : Bytes)
      → proposal_sign_bytes d chain_id (record v { signature = g })
        ≡ proposal_sign_bytes d chain_id v
  unfolding proposal_sign_bytes canonicalize_proposal
  sign_bytes_signature chain_id v g = refl

  -- A proposal that takes the last timestamp has the last sign bytes.
  resigned :
      (chain_id : Bytes) (v : Proposal) (cv lv : CanonicalProposal) (b g : Bytes)
      → canonicalize_proposal chain_id v ≡ ok cv
      → record cv { timestamp = lv.timestamp } ≡ lv
      → d.marshal_proposal lv ≡ some b
      → proposal_sign_bytes d chain_id (record v { timestamp = lv.timestamp; signature = g }) ≡ ok b
  unfolding proposal_sign_bytes
  resigned chain_id v cv lv b g canon e last =
      rw (canonicalize_proposal-timestamp chain_id v cv lv.timestamp g canon, e, last)

  reuse_proposal-inv :
      (chain_id : Bytes) (s : LastSignState) (v : Proposal) (m b g : Bytes) (s' : LastSignState)
      (v' : Proposal)
      → IsWritten c d s
      → s.step ≡ step_propose
      → proposal_sign_bytes d chain_id v ≡ ok m
      → s.sign_bytes ≡ some b
      → s.signature ≡ some g
      → reuse_proposal c d s m v ≡ ok (s', v')
      → (s' ≡ s)
        × (proposal_sign_bytes d chain_id v' ≡ ok b)
        × (v'.signature ≡ g)
        × (v'.height ≡ v.height)
        × (v'.round ≡ v.round)
  unfolding reuse_proposal
  reuse_proposal-inv chain_id s v m b g s' v' w step signs hb hg h =
      let (cv, canon, encoded) = proposal_sign_bytes-inv chain_id v m signs in
      let (lv, last) = w.proposal b hb step in
      let u = lawful.proposal_round_trip lv b last in
      let u' = lawful.proposal_round_trip cv m encoded in
      elim (Bool-cases (bytes_eq m b)) [
        | inl same ↦
            let e = (bytes_eq_iff m b).0 same in
            let hv : v' ≡ record v { signature = g } = ground arith in
            let hs : s' ≡ s = ground arith in
            (hs, rw hv (sign_bytes_signature chain_id v g ∙ signs ∙ ap ok e), rw hv, rw hv, rw hv)
        | inr differs ↦ elim (Bool-cases (same_proposal cv lv)) [
          | inr conflict ↦ absurd (ground arith)
          | inl same ↦
              let e = same_proposal-eq cv lv same in
              let hv : v' ≡ record v { timestamp = lv.timestamp; signature = g } = ground arith in
              let hs : s' ≡ s = ground arith in
              (hs, rw hv (resigned chain_id v cv lv b g canon e last), rw hv, rw hv, rw hv)
        ]
      ]

  sign_new_proposal-inv :
      (chain_id : Bytes) (written : Bool) (s : LastSignState) (p : ℕ) (m : Bytes) (v : Proposal)
      (s' : LastSignState) (v' : Proposal)
      → sign_new_proposal c d written s p m v ≡ ok (s', v')
      → (g : Bytes) × (save_signed written s v.height v.round p m g ≡ ok s')
        × (v' ≡ record v { signature = g })
  unfolding sign_new_proposal
  sign_new_proposal-inv chain_id written s p m v s' v' h = elim (Option-cases (d.sign m)) [
    | inl fails ↦ absurd (ground arith)
    | inr (g, signs) ↦ elim (Outcome-cases (save_signed written s v.height v.round p m g)) [
      | returned t e ↦ (g, ground arith, ground arith)
      | failed e' e ↦ absurd (ground arith)
      | panicked e ↦ absurd (ground arith)
    ]
  ]

  -- The proposal that `signProposal` hands out.
  AnsweredProposal : Bytes → LastSignState → LastSignState → Proposal → ℕ → Type 0
  AnsweredProposal chain_id s s' v p =
      Answered c d s s' v.height v.round p (proposal_sign_bytes d chain_id v) v.signature

  reused :
      (chain_id : Bytes) (s : LastSignState) (v : Proposal) (m : Bytes) (p : ℕ) (s' : LastSignState)
      (v' : Proposal)
      → IsWritten c d s
      → p ≡ step_propose
      → proposal_sign_bytes d chain_id v ≡ ok m
      → check_hrs s v.height v.round p ≡ ok true
      → reuse_proposal c d s m v ≡ ok (s', v')
      → AnsweredProposal chain_id s s' v' p × (v'.height ≡ v.height) × (v'.round ≡ v.round)
  unfolding AnsweredProposal
  reused chain_id s v m p s' v' w propose signs hrs h =
      let (sh, sr, sp, b, g, hb, hg) = check_hrs-true s v.height v.round p hrs in
      let (same, bytes, sig, vh, vr) =
        reuse_proposal-inv chain_id s v m b g s' v' w (sp ∙ propose) signs hb hg h in
      (
        record {
          at_height = rw same (sh ∙ sym vh);
          at_round = rw same (sr ∙ sym vr);
          at_step = rw same sp;
          bytes = b;
          holds_bytes = rw same hb;
          signs_bytes = bytes;
          holds_signature = rw (same, sig) hg;
          order = inl same;
          written = rw same w;
        },
        vh,
        vr,
      )

  signed_new :
      (chain_id : Bytes) (written : Bool) (s : LastSignState) (v : Proposal) (m : Bytes) (p : ℕ)
      (s' : LastSignState) (v' : Proposal)
      → p ≡ step_propose
      → proposal_sign_bytes d chain_id v ≡ ok m
      → check_hrs s v.height v.round p ≡ ok false
      → sign_new_proposal c d written s p m v ≡ ok (s', v')
      → AnsweredProposal chain_id s s' v' p × (v'.height ≡ v.height) × (v'.round ≡ v.round)
  unfolding AnsweredProposal
  signed_new chain_id written s v m p s' v' propose signs hrs h =
      let (g, saved, hv) = sign_new_proposal-inv chain_id written s p m v s' v' h in
      let (sh, sr, sp, sb, sg) = save_signed-ok written s v.height v.round p m g s' saved in
      let (cv, canon, encoded) = proposal_sign_bytes-inv chain_id v m signs in
      (
        record {
          at_height = rw hv sh;
          at_round = rw hv sr;
          at_step = sp;
          bytes = m;
          holds_bytes = sb;
          signs_bytes = rw hv (sign_bytes_signature chain_id v g ∙ signs);
          holds_signature = rw hv sg;
          order = inr (rw hv (check_hrs-false s v.height v.round p hrs));
          written = record {
            proposal = λ b hb step. (cv, ground arith);
            vote = λ b hb step. absurd (step (sp ∙ propose));
          };
        },
        rw hv,
        rw hv,
      )

  -- What `signProposal` hands out is what the state holds, also when it is an earlier answer.
  pub sign_proposal-Answered :
      (chain_id : Bytes) (written : Bool) (s : LastSignState) (v : Proposal) (s' : LastSignState)
      (v' : Proposal)
      → IsWritten c d s
      → sign_proposal c d written chain_id s v ≡ ok (s', v')
      → Answered c d s s' v'.height v'.round step_propose
          (proposal_sign_bytes d chain_id v')
          v'.signature
  unfolding sign_proposal AnsweredProposal
  sign_proposal-Answered chain_id written s v s' v' w h =
      elim (Outcome-cases (check_hrs s v.height v.round step_propose)) [
        | failed e' e ↦ absurd (ground arith)
        | panicked e ↦ absurd (ground arith)
        | returned same hrs ↦ elim (Outcome-cases (proposal_sign_bytes d chain_id v)) [
          | failed e' e ↦ absurd (ground arith)
          | panicked e ↦ absurd (ground arith)
          | returned m signs ↦ elim (Bool-cases same) [
            | inl again ↦
                (reused chain_id s v m step_propose s' v' w refl signs (rw again at hrs)
                  (ground arith)).0
            | inr anew ↦
                (signed_new chain_id written s v m step_propose s' v' refl signs (rw anew at hrs)
                  (ground arith)).0
          ]
        ]
      ]

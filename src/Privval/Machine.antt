-- ===== src/Privval/Machine.antt =====
-- A signer over time: requests, failed writes, stops and restarts from the file.
use relaychainmodel.Prelude.{
  Bool, List, Option, Option-cases, [], arith, inl, inr, none, refl, some, sym, ℕ, ◌<◌, ◌∙◌, ◌∷◌,
  ◌≡◌, ◌⊎◌,
}
use relaychainmodel.Prelude.Int.{ℤ, ◌<ℤ◌}
use relaychainmodel.Prelude.Bytes.{Bytes}
use relaychainmodel.Prelude.Outcome.{Outcome, err, ok, panics}
use relaychainmodel.Types.Vote.{Vote, VoteError, Crypto, vote_sign_bytes}
use relaychainmodel.Privval.{
  LastSignState, PvError, new_state, step_propose, vote_to_step, sign_vote, sign_proposal,
}
use relaychainmodel.Privval.Canonical.{Proposal, Codec, proposal_sign_bytes}
use relaychainmodel.Privval.Signing.{IsLawful, Before, IsWritten, Answered}
use relaychainmodel.Privval.Votes.{sign_vote-Answered}
use relaychainmodel.Privval.Proposals.{sign_proposal-Answered}

-- The running process, if it has not stopped, and the file.
pub record Signer : Type 0 where
  pub memory : Option LastSignState
  pub disk : LastSignState

-- A new key, saved.
abbrev pub new_signer : Bytes → Signer
new_signer path = record { memory = some (new_state path); disk = new_state path }

-- A signature that was handed out: over which bytes, and at which height, round and step.
pub record Released : Type 0 where
  pub height : ℤ
  pub round : ℤ
  pub step : Outcome PvError ℕ
  pub sign_bytes : Outcome VoteError Bytes
  pub signature : Bytes

-- A request says whether the write to the file that it may need succeeds.
pub data Event : Type 0 where
  ask_vote : Bool → Bytes → Vote → Event
  ask_proposal : Bool → Bytes → Proposal → Event
  restart : Event

module _ (c : Crypto) (d : Codec) where
  release_vote : Bytes → Vote → Released
  release_vote chain_id v = record {
    height = v.height;
    round = v.round;
    step = vote_to_step v.type;
    sign_bytes = vote_sign_bytes c chain_id v;
    signature = v.signature;
  }

  release_proposal : Bytes → Proposal → Released
  release_proposal chain_id p = record {
    height = p.height;
    round = p.round;
    step = ok step_propose;
    sign_bytes = proposal_sign_bytes d chain_id p;
    signature = p.signature;
  }

  -- A call that returns has written its state; one that panics stops the process and leaves the file.
  unfoldable pub after_call :
      {A : Type 0}
      → Signer
      → Outcome PvError (LastSignState × A)
      → (A → Released)
      → Signer × Option Released
  after_call n (ok (s, a)) release = (record { memory = some s; disk = s }, some (release a))
  after_call n (err e) release = (n, none)
  after_call n panics release = (record n { memory = none }, none)

  unfoldable pub step : Signer → Event → Signer × Option Released
  unfolding after_call release_vote release_proposal
  step n (ask_vote written chain_id v) = elim n.memory [
    | none ↦ (n, none)
    | some s ↦ after_call n (sign_vote c d written chain_id s v) (release_vote chain_id)
  ]
  step n (ask_proposal written chain_id p) = elim n.memory [
    | none ↦ (n, none)
    | some s ↦ after_call n (sign_proposal c d written chain_id s p) (release_proposal chain_id)
  ]
  step n restart = (record n { memory = some n.disk }, none)

  -- What was handed out, the latest first.
  abbrev pub log : Option Released → List Released → List Released
  log none rs = rs
  log (some r) rs = r ∷ rs

  unfoldable pub run : Signer → List Released → List Event → Signer × List Released
  unfolding step
  run n rs [] = (n, rs)
  run n rs (e ∷ es) = let (n', r) = step n e in run n' (log r rs) es

-- One height, round and step, two releases: the same bytes and the same signature.
abbrev pub Agrees : Released → Released → Type 0
Agrees a b =
    a.height ≡ b.height
    → a.round ≡ b.round
    → a.step ≡ b.step
    → (a.sign_bytes ≡ b.sign_bytes) × (a.signature ≡ b.signature)

abbrev pub Every : (Released → Type 0) → List Released → Type 0
Every P [] = Unit
Every P (r ∷ rs) = P r × Every P rs

abbrev pub Consistent : List Released → Type 0
Consistent [] = Unit
Consistent (r ∷ rs) = Every (Agrees r) rs × Consistent rs

-- A release at step `p` comes before the state, or the state holds it.
abbrev Earlier : LastSignState → Released → ℕ → Type 0
Earlier s r p =
    (r.height <ℤ s.height)
    ⊎ ((r.height ≡ s.height) × ((r.round <ℤ s.round) ⊎ ((r.round ≡ s.round) × (p < s.step))))

abbrev Held : LastSignState → Released → ℕ → Type 0
Held s r p =
    (r.height ≡ s.height)
    × (r.round ≡ s.round)
    × (p ≡ s.step)
    × (b : Bytes) × (s.sign_bytes ≡ some b)
    × (r.sign_bytes ≡ ok b)
    × (s.signature ≡ some r.signature)

abbrev Covered : LastSignState → Released → Type 0
Covered s r = (p : ℕ) × (r.step ≡ ok p) × (Earlier s r p ⊎ Held s r p)

-- What comes before the state, or is held by it, comes before what the state comes before.
Earlier-later :
    (s s' : LastSignState) (x : Released) (p q : ℕ) (h r : ℤ)
    → s'.height ≡ h
    → s'.round ≡ r
    → s'.step ≡ p
    → Before s h r p
    → Earlier s x q ⊎ Held s x q
    → Earlier s' x q
Earlier-later s s' x p q h r eh er ep later (inl before) = ground arith
Earlier-later s s' x p q h r eh er ep later (inr held) = ground arith

module _ (c : Crypto) (d : Codec) (lawful : IsLawful c d) where
  record Inv (n : Signer) (rs : List Released) : Type 0 where
    memory : (s : LastSignState) → n.memory ≡ some s → s ≡ n.disk
    written : IsWritten c d n.disk
    covered : Every (Covered n.disk) rs
    consistent : Consistent rs

  -- The state moved on, so what it covered it still covers.
  Covered-later :
      (s s' : LastSignState) (h r : ℤ) (p : ℕ) (m : Outcome VoteError Bytes) (g : Bytes)
      (x : Released)
      → Answered c d s s' h r p m g
      → Covered s x
      → Covered s' x
  Covered-later s s' h r p m g x a (q, e, before) = elim a.order [
    | inl same ↦ rw same (q, e, before)
    | inr later ↦
        (q, e, inl (Earlier-later s s' x p q h r a.at_height a.at_round a.at_step later before))
  ]

  -- No release comes before the state at its own height, round and step.
  not_Earlier_self :
      (s : LastSignState) (x : Released) (q : ℕ)
      → s.height ≡ x.height
      → s.round ≡ x.round
      → s.step ≡ q
      → ¬ (Earlier s x q)
  not_Earlier_self s x q eh er es before = ground arith

  Held-Agrees :
      (s : LastSignState) (a x : Released) (q : ℕ)
      → Held s x q
      → (b : Bytes) → s.sign_bytes ≡ some b
      → a.sign_bytes ≡ ok b
      → s.signature ≡ some a.signature
      → (a.sign_bytes ≡ x.sign_bytes) × (a.signature ≡ x.signature)
  Held-Agrees s a x q (eh, er, ep, b', sb, xb, sg) b hb ab hg = (ground arith, ground arith)

  -- What was released before agrees with the answer.
  Covered-Agrees :
      (s s' : LastSignState) (p : ℕ) (a x : Released)
      → a.step ≡ ok p
      → Answered c d s s' a.height a.round p a.sign_bytes a.signature
      → Covered s x
      → Agrees a x
  Covered-Agrees s s' p a x step ans (q, e, before) eh er es =
      let same_step : p ≡ q = ground arith in
      let sh = ans.at_height ∙ eh in
      let sr = ans.at_round ∙ er in
      let sp = ans.at_step ∙ same_step in
      elim ans.order [
        | inr later ↦ absurd (
            not_Earlier_self s' x q sh sr sp (
              Earlier-later s s' x p q a.height a.round ans.at_height ans.at_round ans.at_step later
                before))
        | inl same ↦ elim before [
          | inl strictly ↦ absurd (not_Earlier_self s' x q sh sr sp (rw same strictly))
          | inr held ↦
              Held-Agrees s a x q held ans.bytes (rw same at ans.holds_bytes) ans.signs_bytes
                (rw same at ans.holds_signature)
        ]
      ]

  Every-map :
      {P Q : Released → Type 0} (rs : List Released)
      → ((r : Released) → P r → Q r)
      → Every P rs
      → Every Q rs
  Every-map [] f h = tt
  Every-map (r ∷ rs) f h = (f r h.0, Every-map rs f h.1)

  -- One answer keeps the invariant, whichever request it answers.
  answer-Inv :
      (n : Signer) (rs : List Released) (s s' : LastSignState) (p : ℕ) (a : Released)
      → Inv n rs
      → n.memory ≡ some s
      → a.step ≡ ok p
      → Answered c d s s' a.height a.round p a.sign_bytes a.signature
      → Inv (record { memory = some s'; disk = s' }) (a ∷ rs)
  answer-Inv n rs s s' p a inv loaded step ans =
      let covers = rw (← inv.memory s loaded) at inv.covered in
      record {
        memory = λ t h. ground arith;
        written = ans.written;
        covered = (
          (
            p,
            step,
            inr (
              sym ans.at_height,
              sym ans.at_round,
              sym ans.at_step,
              ans.bytes,
              ans.holds_bytes,
              ans.signs_bytes,
              ans.holds_signature,
            ),
          ),
          Every-map rs (λ x. Covered-later s s' a.height a.round p a.sign_bytes a.signature x ans)
              covers,
        );
        consistent =
            (Every-map rs (λ x. Covered-Agrees s s' p a x step ans) covers, inv.consistent);
      }

  after_call-Inv :
      {A : Type 0} (n : Signer) (rs : List Released) (s : LastSignState)
      (o : Outcome PvError (LastSignState × A)) (release : A → Released)
      → Inv n rs
      → n.memory ≡ some s
      → ((s' : LastSignState) (a : A)
          → o ≡ ok (s', a)
          → (p : ℕ) × ((release a).step ≡ ok p)
            × Answered c d s s'
                (release a).height
                (release a).round
                p
                (release a).sign_bytes
                (release a).signature)
      → let (n', r) = after_call c d n o release in Inv n' (log c d r rs)
  unfolding after_call
  after_call-Inv n rs s (ok (s', a)) release inv loaded answers =
      let (p, step, ans) = answers s' a refl in
      answer-Inv n rs s s' p (release a) inv loaded step ans
  after_call-Inv n rs s (err e) release inv loaded answers = inv
  after_call-Inv n rs s panics release inv loaded answers = record {
    memory = λ t h. cc;
    written = inv.written;
    covered = inv.covered;
    consistent = inv.consistent;
  }

  loaded-IsWritten :
      (n : Signer) (rs : List Released) (s : LastSignState)
      → Inv n rs
      → n.memory ≡ some s
      → IsWritten c d s
  loaded-IsWritten n rs s inv h = rw (inv.memory s h) inv.written

  step-Inv :
      (n : Signer) (rs : List Released) (e : Event)
      → Inv n rs
      → let (n', r) = step c d n e in Inv n' (log c d r rs)
  unfolding step
  step-Inv n rs (ask_vote written chain_id v) inv = elim (Option-cases n.memory) [
    | inl stopped ↦ rw (stopped, step) inv
    | inr (s, loaded) ↦
        rw (loaded, step)
          (after_call-Inv n rs s (sign_vote c d written chain_id s v) (release_vote c d chain_id)
            inv loaded
            (λ s' v'.
              sign_vote-Answered c d lawful chain_id written s v s' v'
                (loaded-IsWritten n rs s inv loaded)))
  ]
  step-Inv n rs (ask_proposal written chain_id p) inv = elim (Option-cases n.memory) [
    | inl stopped ↦ rw (stopped, step) inv
    | inr (s, loaded) ↦
        rw (loaded, step)
          (after_call-Inv n rs s (sign_proposal c d written chain_id s p)
            (release_proposal c d chain_id) inv loaded
            (λ s' p' h. (
              step_propose,
              refl,
              sign_proposal-Answered c d lawful chain_id written s p s' p'
                  (loaded-IsWritten n rs s inv loaded) h,
            )))
  ]
  step-Inv n rs restart inv = record {
    memory = λ t h. ground arith;
    written = inv.written;
    covered = inv.covered;
    consistent = inv.consistent;
  }

  run-Inv :
      (n : Signer) (rs : List Released) (es : List Event)
      → Inv n rs
      → let (n', rs') = run c d n rs es in Inv n' rs'
  unfolding run
  run-Inv n rs [] inv = inv
  run-Inv n rs (e ∷ es) inv =
      let (n', r) = step c d n e in run-Inv n' (log c d r rs) es (step-Inv n rs e inv)

  new_signer-Inv : (path : Bytes) → Inv (new_signer path) []
  new_signer-Inv path = record {
    memory = λ s h. ground arith;
    written = record { proposal = λ b h. cc; vote = λ b h. cc };
    covered = tt;
    consistent = tt;
  }

  -- No double signing. From a new key on, through any requests for votes and proposals, failed
  -- writes, stops and restarts, any two signatures that were handed out for one height, round and
  -- step are the same signature over the same bytes.
  pub never_double_signs :
      (path : Bytes) (es : List Event) → Consistent (run c d (new_signer path) [] es).1
  never_double_signs path es = (run-Inv (new_signer path) [] es (new_signer-Inv path)).consistent

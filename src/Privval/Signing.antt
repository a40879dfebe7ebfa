-- ===== src/Privval/Signing.antt =====
-- What a request that is answered leaves: the state holds exactly what was handed out.
use relaychainmodel.Prelude.{Bool, arith, false, some, true, ℕ, ◌<◌, ◌≡◌, ◌≢◌, ◌⊎◌}
use relaychainmodel.Prelude.Int.{eq_ℤ_iff, ℤ, ◌<ℤ◌}
use relaychainmodel.Prelude.Bytes.{Bytes}
use relaychainmodel.Prelude.Outcome.{Outcome, ok}
use relaychainmodel.Types.Vote.{VoteError, CanonicalVote, Crypto}
use relaychainmodel.Privval.{LastSignState, step_propose, check_hrs, save_signed}
use relaychainmodel.Privval.Canonical.{CanonicalProposal, Codec}

-- Decoding an encoded message gives it back.
pub record IsLawful (c : Crypto) (d : Codec) : Type 0 where
  pub vote_round_trip :
      (v : CanonicalVote) (b : Bytes) → c.marshal_vote v ≡ some b → d.unmarshal_vote b ≡ some v
  pub proposal_round_trip :
      (p : CanonicalProposal) (b : Bytes)
      → d.marshal_proposal p ≡ some b
      → d.unmarshal_proposal b ≡ some p

-- The last height, round and step come before these.
abbrev pub Before : LastSignState → ℤ → ℤ → ℕ → Type 0
Before s h r p =
    (s.height <ℤ h) ⊎ ((s.height ≡ h) × ((s.round <ℤ r) ⊎ ((s.round ≡ r) × (s.step < p))))

pub check_hrs-true :
    (s : LastSignState) (h r : ℤ) (p : ℕ)
    → check_hrs s h r p ≡ ok true
    → (s.height ≡ h)
      × (s.round ≡ r)
      × (s.step ≡ p)
      × (b : Bytes) × (g : Bytes) × (s.sign_bytes ≡ some b)
      × (s.signature ≡ some g)
unfolding check_hrs
check_hrs-true s h r p e = ground (arith, eq_ℤ_iff s.height h, eq_ℤ_iff s.round r)

pub check_hrs-false :
    (s : LastSignState) (h r : ℤ) (p : ℕ) → check_hrs s h r p ≡ ok false → Before s h r p
unfolding check_hrs
check_hrs-false s h r p e = ground (arith, eq_ℤ_iff s.height h, eq_ℤ_iff s.round r)

-- The stored bytes are the encoding of a message of the stored step.
pub record IsWritten (c : Crypto) (d : Codec) (s : LastSignState) : Type 0 where
  pub proposal :
      (b : Bytes)
      → s.sign_bytes ≡ some b
      → s.step ≡ step_propose
      → (p : CanonicalProposal) × (d.marshal_proposal p ≡ some b)
  pub vote :
      (b : Bytes)
      → s.sign_bytes ≡ some b
      → s.step ≢ step_propose
      → (v : CanonicalVote) × (c.marshal_vote v ≡ some b)

-- A message with these sign bytes and this signature was handed out, and the state `s'` holds them.
pub record Answered (c : Crypto) (d : Codec) (s s' : LastSignState) (h r : ℤ) (p : ℕ)
    (message : Outcome VoteError Bytes) (sig : Bytes) : Type 0 where
  pub at_height : s'.height ≡ h
  pub at_round : s'.round ≡ r
  pub at_step : s'.step ≡ p
  pub bytes : Bytes
  pub holds_bytes : s'.sign_bytes ≡ some bytes
  pub signs_bytes : message ≡ ok bytes
  pub holds_signature : s'.signature ≡ some sig
  pub order : (s' ≡ s) ⊎ Before s h r p
  pub written : IsWritten c d s'

-- The state that saveSigned writes holds what was signed.
pub save_signed-ok :
    (written : Bool) (s : LastSignState) (h r : ℤ) (p : ℕ) (m g : Bytes) (s' : LastSignState)
    → save_signed written s h r p m g ≡ ok s'
    → (s'.height ≡ h)
      × (s'.round ≡ r)
      × (s'.step ≡ p)
      × (s'.sign_bytes ≡ some m)
      × (s'.signature ≡ some g)
unfolding save_signed
save_signed-ok written s h r p m g s' e = ground arith

-- ===== src/Privval/Canonical.antt =====
-- Proposals and what is signed of them (types/proposal.go, types/canonical.go), and the comparison of
-- canonical messages up to their timestamps.
use relaychainmodel.Prelude.{
  Bool, Option, ap, arith, false, none, refl, some, true, ℕ, ◌&&◌, ◌==◌, ◌≡◌,
}
use relaychainmodel.Prelude.Int.{eq_ℤ, eq_ℤ_iff, ℤ}
use relaychainmodel.Prelude.Bytes.{Bytes, bytes_eq, bytes_eq_iff}
use relaychainmodel.Prelude.Outcome.{Outcome, ok, ◌>>=◌}
use relaychainmodel.Types.BlockId.{BlockId, equals, equals_iff}
use relaychainmodel.Types.Vote.{
  VoteError, CanonicalVote, proposal_type, canonicalize_block_id, or_panic,
}

pub record Proposal : Type 0 where
  pub height : ℤ
  pub round : ℤ
  pub pol_round : ℤ
  pub block_id : BlockId
  pub timestamp : ℤ
  pub signature : Bytes

pub record CanonicalProposal : Type 0 where
  pub type : ℕ
  pub height : ℤ
  pub round : ℤ
  pub pol_round : ℤ
  pub block_id : Option BlockId
  pub timestamp : ℤ
  pub chain_id : Bytes

-- The private key and the generated encoders and decoders; `none` is an error.
pub record Codec : Type 0 where
  pub sign : Bytes → Option Bytes
  pub marshal_proposal : CanonicalProposal → Option Bytes
  pub unmarshal_proposal : Bytes → Option CanonicalProposal
  pub unmarshal_vote : Bytes → Option CanonicalVote

-- `CanonicalizeProposal`
unfoldable pub canonicalize_proposal : Bytes → Proposal → Outcome VoteError CanonicalProposal
unfolding canonicalize_block_id
canonicalize_proposal chain_id p = canonicalize_block_id p.block_id >>= λ b. ok (record {
  type = proposal_type;
  height = p.height;
  round = p.round;
  pol_round = p.pol_round;
  block_id = b;
  timestamp = p.timestamp;
  chain_id = chain_id;
})

-- `ProposalSignBytes`
unfoldable pub proposal_sign_bytes : Codec → Bytes → Proposal → Outcome VoteError Bytes
unfolding canonicalize_proposal
proposal_sign_bytes d chain_id p =
    canonicalize_proposal chain_id p >>= λ cp. or_panic (d.marshal_proposal cp)

same_block : Option BlockId → Option BlockId → Bool
same_block none none = true
same_block none (some b) = false
same_block (some a) none = false
same_block (some a) (some b) = equals a b

-- `proto.Equal` of two canonical votes whose timestamps were made equal.
unfoldable pub same_vote : CanonicalVote → CanonicalVote → Bool
unfolding same_block
same_vote a b =
    (a.type == b.type)
    && (eq_ℤ a.height b.height
        && (eq_ℤ a.round b.round
            && (same_block a.block_id b.block_id && bytes_eq a.chain_id b.chain_id)))

-- `proto.Equal` of two canonical proposals whose timestamps were made equal.
unfoldable pub same_proposal : CanonicalProposal → CanonicalProposal → Bool
unfolding same_block
same_proposal a b =
    (a.type == b.type)
    && (eq_ℤ a.height b.height
        && (eq_ℤ a.round b.round
            && (eq_ℤ a.pol_round b.pol_round
                && (same_block a.block_id b.block_id && bytes_eq a.chain_id b.chain_id))))

same_block-eq : (a b : Option BlockId) → same_block a b ≡ true → a ≡ b
unfolding same_block
same_block-eq none none h = refl
same_block-eq none (some b) h = cc
same_block-eq (some a) none h = cc
same_block-eq (some a) (some b) h = ap some ((equals_iff a b).0 h)

pub same_vote-eq :
    (a b : CanonicalVote) → same_vote a b ≡ true → record a { timestamp = b.timestamp } ≡ b
unfolding same_vote
same_vote-eq a b h = ground (
  arith,
  same_block-eq a.block_id b.block_id,
  eq_ℤ_iff a.height b.height,
  eq_ℤ_iff a.round b.round,
  bytes_eq_iff a.chain_id b.chain_id,
)

pub same_proposal-eq :
    (a b : CanonicalProposal) → same_proposal a b ≡ true → record a { timestamp = b.timestamp } ≡ b
unfolding same_proposal
same_proposal-eq a b h = ground (
  arith,
  same_block-eq a.block_id b.block_id,
  eq_ℤ_iff a.height b.height,
  eq_ℤ_iff a.round b.round,
  eq_ℤ_iff a.pol_round b.pol_round,
  bytes_eq_iff a.chain_id b.chain_id,
)

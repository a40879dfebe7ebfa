-- ===== src/Types/VoteSet/Safety.antt =====
-- What holds of every vote set that calls can lead to.
use relaychainmodel.Prelude.{
  Bool, Option, Option-cases, arith, inl, inr, ltb, some, subst, sym, true, ℕ, ◌*◌, ◌<◌, ◌==◌, ◌∙◌,
  ◌≡◌, ◌≢◌,
}
use relaychainmodel.Prelude.Bytes.{Bytes}
use relaychainmodel.Prelude.Outcome.{ok, panics}
use relaychainmodel.Prelude.Int64.{to_int64-eq}
use relaychainmodel.Types.BlockId.{BlockId}
use relaychainmodel.Types.Vote.{Vote, VoteError, Crypto, vote_sign_bytes}
use relaychainmodel.Types.ValidatorSet.{
  IsValid, power, total_voting_power, total_voting_power-eq, two_thirds-eq,
}
use relaychainmodel.Types.ValidatorSet.Power.{power_of, power_of-le, both, power_of-both}
use relaychainmodel.Types.VoteSet.{Config, VoteSet, vote_at, key, new_vote_set, add_vote}
use relaychainmodel.Types.VoteSet.Peers.{set_peer_maj23}
use relaychainmodel.Types.VoteSet.Readers.{has_two_thirds_any, has_all}
use relaychainmodel.Types.VoteSet.Slots.{has}
use relaychainmodel.Types.VoteSet.Invariant.{Genuine, Inv}
use relaychainmodel.Types.VoteSet.Calls.{AddEnds, add_vote-Ends}
use relaychainmodel.Types.VoteSet.Claims.{new_vote_set-Inv, set_peer_maj23-Inv}

-- A call that returned: a vote whose sign bytes can be computed, or a peer's claim.
pub data Call (k : Crypto) (s : VoteSet) : VoteSet → Type 0 where
  add :
      (vote : Vote) (message : Bytes) {s' : VoteSet} (added : Bool) (e : Option VoteError)
      → vote_sign_bytes k s.config.chain_id vote ≡ ok message
      → add_vote k s (some vote) ≡ ok (s', added, e)
      → Call k s s'
  claim :
      (peer : Bytes) (b : BlockId) {s' : VoteSet} → (set_peer_maj23 k s peer b).0 ≡ s' → Call k s s'

pub data Calls (k : Crypto) (s : VoteSet) : VoteSet → Type 0 where
  here : Calls k s s
  next : {t u : VoteSet} → Calls k s t → Call k t u → Calls k s u

-- A set that was made by NewVoteSet for a configuration, and called.
pub data Reach (k : Crypto) (cfg : Config) (s : VoteSet) : Type 0 where
  from : {first : VoteSet} → new_vote_set cfg ≡ ok first → Calls k first s → Reach k cfg s

module _ (k : Crypto) (cfg : Config) (valid : IsValid cfg.val_set) where
  -- A call keeps the invariant and a recorded majority.
  Call-Inv :
      {s s' : VoteSet}
      → Inv k cfg s
      → Call k s s'
      → Inv k cfg s' × ((m : BlockId) → s.maj23 ≡ some m → s'.maj23 ≡ some m)
  Call-Inv {s} inv (add vote message {s' = s'} added e signs ran) =
      let signs' : vote_sign_bytes k cfg.chain_id vote ≡ ok message = rw inv.configured at signs in
      let (inv', kept) =
        subst (AddEnds k cfg s vote) ran (add_vote-Ends k cfg valid s inv vote message signs') in
      (inv', λ m h. elim kept [ inl same ↦ same ∙ h | inr (nothing, now) ↦ cc ])
  Call-Inv {s} inv (claim peer b e) =
      let (inv', same, votes) = set_peer_maj23-Inv k cfg s peer b inv in
      (rw (← e) inv', λ m h. rw (← e) (same ∙ h))

  Calls-Inv :
      {s s' : VoteSet}
      → Inv k cfg s
      → Calls k s s'
      → Inv k cfg s' × ((m : BlockId) → s.maj23 ≡ some m → s'.maj23 ≡ some m)
  Calls-Inv inv here = (inv, λ m h. h)
  Calls-Inv inv (next r c) =
      let (inv', kept) = Calls-Inv inv r in
      let (inv'', kept') = Call-Inv inv' c in (inv'', λ m h. kept' m (kept m h))

  pub Reach-Inv : {s : VoteSet} → Reach k cfg s → Inv k cfg s
  Reach-Inv (from {first = first} made r) = (Calls-Inv (new_vote_set-Inv k cfg first made) r).0

  -- A recorded majority is never changed or lost by later calls.
  pub majority_stable :
      {s s' : VoteSet} (m : BlockId)
      → Reach k cfg s
      → Calls k s s'
      → s.maj23 ≡ some m
      → s'.maj23 ≡ some m
  majority_stable m r c h = (Calls-Inv (Reach-Inv r) c).1 m h

  -- In every set that can be reached, AddVote does not panic on a vote whose sign bytes can be
  -- computed, whatever its index, height, address, block and signature are.
  pub add_vote_total :
      {s : VoteSet} (vote : Vote) (message : Bytes)
      → Reach k cfg s
      → vote_sign_bytes k cfg.chain_id vote ≡ ok message
      → add_vote k s (some vote) ≢ panics
  add_vote_total {s} vote message r signs p =
      subst (AddEnds k cfg s vote) p (add_vote-Ends k cfg valid s (Reach-Inv r) vote message signs)

  -- The votes of distinct validators for one block.
  abbrev VotesFor : BlockId → (ℕ → Bool) → Type 0
  VotesFor m q =
      (i : ℕ) → q i ≡ true → (v : Vote) × Genuine k cfg i v × (key k v.block_id ≡ key k m)

  -- A recorded majority is one: distinct validators with more than two thirds of the power have each
  -- signed a vote of this height, round and type for that block.
  pub majority_sound :
      {s : VoteSet} (m : BlockId)
      → Reach k cfg s
      → s.maj23 ≡ some m
      → (q : ℕ → Bool) × VotesFor m q
        × (2 * power cfg.val_set.validators < 3 * power_of q cfg.val_set.validators)
  majority_sound m r h =
      let inv = Reach-Inv r in
      let (b, found, quorum) = inv.majority m h in
      let t = inv.tracked (key k m) b found in
      (
        has b.votes,
        λ i e. elim (Option-cases (vote_at b.votes i)) [
          | inl missing ↦ absurd (ground arith)
          | inr (v, at_i) ↦ (v, t.genuine i v at_i, t.for_block i v at_i)
        ],
        omega (arith, t.sums),
      )

  -- Agreement: if two nodes' sets for one height, round and type record majorities for blocks with
  -- different keys, then validators with more than a third of the power have signed two votes.
  pub majority_agreement :
      {s s' : VoteSet} (m m' : BlockId)
      → Reach k cfg s
      → Reach k cfg s'
      → s.maj23 ≡ some m
      → s'.maj23 ≡ some m'
      → key k m ≢ key k m'
      → (q : ℕ → Bool) × ((i : ℕ)
          → q i ≡ true
          → (v v' : Vote) × Genuine k cfg i v
            × Genuine k cfg i v'
            × (key k v.block_id ≢ key k v'.block_id))
        × (power cfg.val_set.validators < 3 * power_of q cfg.val_set.validators)
  majority_agreement m m' r r' h h' differ =
      let (p, votes, more) = majority_sound m r h in
      let (q, votes', more') = majority_sound m' r' h' in
      (
        both p q,
        λ i e.
            let (v, g, for_m) = votes i (ground arith) in
            let (v', g', for_m') = votes' i (ground arith) in
            (v, v', g, g', λ same. differ (sym for_m ∙ same ∙ for_m')),
        omega (arith, power_of-both p q cfg.val_set.validators),
      )

  -- The readers of the sum are exact. HasTwoThirdsAny compares the power of the validators with a
  -- vote to two thirds of the total, and HasAll asks whether that power is the total.
  pub sum_readers_exact :
      {s : VoteSet}
      → Reach k cfg s
      → let voted = power_of (has s.votes) cfg.val_set.validators in
        let total = power cfg.val_set.validators in
        (has_two_thirds_any s ≡ some (ltb (2 * total) (3 * voted)))
        × (has_all s ≡ some (voted == total))
  unfolding has_two_thirds_any has_all
  sum_readers_exact {s} r =
      let inv = Reach-Inv r in
      let p = power cfg.val_set.validators in
      let total : total_voting_power s.config.val_set ≡ some p =
        rw inv.configured (total_voting_power-eq cfg.val_set valid) in
      let le = power_of-le (has s.votes) cfg.val_set.validators in
      let third = two_thirds-eq p valid.capped in
      let small = to_int64-eq s.sum (omega (arith, inv.sums, valid.capped)) in
      (ground (arith, total, third, small, inv.sums), ground (arith, total, inv.sums))

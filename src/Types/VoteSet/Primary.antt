-- ===== src/Types/VoteSet/Primary.antt =====
-- The primary votes: the first part of addVerifiedVote keeps the invariant and does not panic.
use relaychainmodel.Prelude.{
  Bool-cases, List, Option, Option-cases, arith, false, get_elem?-lt, if◌then◌else◌, inl, inr,
  length, length-set, none, refl, set, some, subst₂, sym, true, ℕ, ◌<◌, ◌==◌, ◌∙◌, ◌≡◌,
}
use relaychainmodel.Prelude.Bytes.{Bytes, bytes_eq, bytes_eq_iff, bytes_eq_refl}
use relaychainmodel.Prelude.Outcome.{ok}
use relaychainmodel.Prelude.Int64.{add_int64}
use relaychainmodel.Types.BlockId.{equals, equals_iff}
use relaychainmodel.Types.Vote.{Vote, Crypto}
use relaychainmodel.Types.ValidatorSet.{IsValid}
use relaychainmodel.Types.ValidatorSet.Power.{power_of}
use relaychainmodel.Types.VoteSet.{BlockVotes, Config, VoteSet, vote_at, key, get_vote, add_primary}
use relaychainmodel.Types.VoteSet.Slots.{has, get_or-set, power-set, power-replace, add_int64-power}
use relaychainmodel.Types.VoteSet.Invariant.{Genuine, IsTracked, Inv, Shows}
use relaychainmodel.Types.BlockId.{BlockId}

-- More primary votes cover the votes of a block as well.
pub IsTracked-more :
    {k : Crypto} {cfg : Config} {p q : List (Option Vote)} {block_key : Bytes} {b : BlockVotes}
    → ((j : ℕ) → has p j ≡ true → has q j ≡ true)
    → IsTracked k cfg p block_key b
    → IsTracked k cfg q block_key b
IsTracked-more more t = record {
  room = t.room;
  bits = t.bits;
  bits_room = t.bits_room;
  sums = t.sums;
  genuine = t.genuine;
  for_block = t.for_block;
  covered = λ j h. more j (t.covered j h);
}

module _ (k : Crypto) (cfg : Config) (valid : IsValid cfg.val_set) (s : VoteSet) (inv : Inv k cfg s)
    (i : ℕ) (vote : Vote) (g : Genuine k cfg i vote) where
  -- The set with the vote at its index, and a sum that fits.
  abbrev pub placed : ℕ → VoteSet
  placed sum' = record s {
    votes = set s.votes i (some vote);
    votes_bit_array = set s.votes_bit_array i true;
    sum = sum';
  }

  in_room : i < length s.votes
  in_room = omega (arith, inv.room, get_elem?-lt cfg.val_set.validators i g.in_set)

  in_bits : i < length s.votes_bit_array
  in_bits = omega (arith, inv.bits_room, inv.room, in_room)

  placed-at :
      (j : ℕ)
      → vote_at (set s.votes i (some vote)) j ≡ (if j == i then some vote else vote_at s.votes j)
  placed-at j = get_or-set s.votes i j (some vote) none in_room

  placed-has : (j : ℕ) → has s.votes j ≡ true → has (set s.votes i (some vote)) j ≡ true
  placed-has j h = ground (arith, placed-at j)

  placed-Genuine :
      (j : ℕ) (v : Vote) → vote_at (set s.votes i (some vote)) j ≡ some v → Genuine k cfg j v
  placed-Genuine j v h = elim (Bool-cases (j == i)) [
    | inl same ↦
        let e : i ≡ j = ground arith in
        let e' : vote ≡ v = ground (arith, placed-at j) in subst₂ (Genuine k cfg) e e' g
    | inr other ↦ inv.genuine j v (ground (arith, placed-at j))
  ]

  placed-Inv :
      (sum' : ℕ)
      → sum' ≡ power_of (has (set s.votes i (some vote))) cfg.val_set.validators
      → ((m : BlockId) → s.maj23 ≡ some m → has s.votes i ≡ true → key k vote.block_id ≡ key k m)
      → Inv k cfg (placed sum')
  placed-Inv sum' e for_majority = record {
    configured = inv.configured;
    room = length-set s.votes i (some vote) ∙ inv.room;
    bits_room = length-set s.votes_bit_array i true ∙ inv.bits_room;
    bits = λ j.
        ground
          (arith, placed-at j, get_or-set s.votes_bit_array i j true false in_bits, inv.bits j);
    sums = e;
    genuine = placed-Genuine;
    tracked = λ block_key b h. IsTracked-more placed-has (inv.tracked block_key b h);
    first_quorum = inv.first_quorum;
    majority = inv.majority;
    shown = λ m h b found j tracked.
        let (w, there, same) = inv.shown m h b found j tracked in
        elim (Bool-cases (j == i)) [
          | inl at_i ↦
              let e' : j ≡ i = ground arith in
              let had : has s.votes i ≡ true = rw (← e') (rw there) in
              (vote, ground (arith, placed-at j), for_majority m h had)
          | inr other ↦ (w, ground (arith, placed-at j), same)
        ];
  }

  -- What the first part of `addVerifiedVote` leaves.
  pub record Placed (s' : VoteSet) (conflicting : Option Vote) : Type 0 where
    pub inv' : Inv k cfg s'
    pub present : has s'.votes i ≡ true
    pub same_blocks : s'.votes_by_block ≡ s.votes_by_block
    pub same_majority : s'.maj23 ≡ s.maj23
    pub conflict : conflicting ≡ vote_at s.votes i
    pub shows :
        (m : BlockId)
        → s'.maj23 ≡ some m
        → key k m ≡ key k vote.block_id
        → Shows k s'.votes i (key k m)

  abbrev pub PrimaryDone : Type 0
  PrimaryDone =
      (s' : VoteSet) × (conflicting : Option Vote) × (add_primary k s i vote (key k vote.block_id)
          g.validator.voting_power
        ≡ ok (s', conflicting))
      × Placed s' conflicting

  added : vote_at s.votes i ≡ none → PrimaryDone
  unfolding add_primary
  added new =
      let sum' = add_int64 s.sum g.validator.voting_power in
      let grown =
        power-set cfg.val_set.validators s.votes i vote g.validator in_room g.in_set new in
      let exact : sum' ≡ power_of (has (set s.votes i (some vote))) cfg.val_set.validators =
        rw inv.sums (
          add_int64-power cfg.val_set.validators (has s.votes) (has (set s.votes i (some vote)))
            g.validator (omega (arith, valid.capped)) grown) in
      (
        placed sum',
        none,
        ground arith,
        record {
          inv' = placed-Inv sum' exact (λ m h had. absurd (ground arith));
          present = ground (arith, placed-at i);
          same_blocks = refl;
          same_majority = refl;
          conflict = sym new;
          shows = λ m h same. (vote, ground (arith, placed-at i), sym same);
        },
      )

  replaced :
      (old : Vote)
      → vote_at s.votes i ≡ some old
      → ((m : BlockId) → s.maj23 ≡ some m → key k vote.block_id ≡ key k m)
      → Inv k cfg (placed s.sum)
  replaced old there for_majority =
      placed-Inv s.sum
        (inv.sums ∙ sym (power-replace cfg.val_set.validators s.votes i old vote in_room there))
        (λ m h had. for_majority m h)

  kept_or_replaced :
      (old : Vote)
      → vote_at s.votes i ≡ some old
      → equals old.block_id vote.block_id ≡ false
      → PrimaryDone
  unfolding add_primary
  kept_or_replaced old there differs = elim (Option-cases s.maj23) [
    | inl no_majority ↦ (
      s,
      some old,
      ground arith,
      record {
        inv' = inv;
        present = ground arith;
        same_blocks = refl;
        same_majority = refl;
        conflict = sym there;
        shows = λ m' h. absurd (ground arith);
      },
    )
    | inr (m, majority) ↦ elim (Bool-cases (bytes_eq (key k m) (key k vote.block_id))) [
      | inl for_majority ↦ (
        placed s.sum,
        some old,
        ground arith,
        record {
          inv' = replaced old there (λ m' h.
              let one : m ≡ m' = cc in
              rw (← one) (sym ((bytes_eq_iff (key k m) (key k vote.block_id)).0 for_majority)));
          present = ground (arith, placed-at i);
          same_blocks = refl;
          same_majority = refl;
          conflict = sym there;
          shows = λ m' h same. (vote, ground (arith, placed-at i), sym same);
        },
      )
      | inr for_other ↦ (
        s,
        some old,
        ground arith,
        record {
          inv' = inv;
          present = ground arith;
          same_blocks = refl;
          same_majority = refl;
          conflict = sym there;
          shows = λ m' h same.
              let one : m ≡ m' = cc in
              let equal = (bytes_eq_iff (key k m) (key k vote.block_id)).1 (rw one same) in
              absurd (ground arith);
        },
      )
    ]
  ]

  -- A vote that `getVote` did not find differs from the primary vote of its validator.
  unknown_differs :
      (old : Vote)
      → vote_at s.votes i ≡ some old
      → get_vote k s i (key k vote.block_id) ≡ none
      → equals old.block_id vote.block_id ≡ false
  unfolding get_vote
  unknown_differs old there unknown = elim (Bool-cases (equals old.block_id vote.block_id)) [
    | inr differs ↦ differs
    | inl same ↦
        let e : old.block_id ≡ vote.block_id = (equals_iff old.block_id vote.block_id).0 same in
        let found : bytes_eq (key k old.block_id) (key k vote.block_id) ≡ true =
          rw e (bytes_eq_refl (key k vote.block_id)) in
        absurd (ground arith)
  ]

  pub add_primary-Placed : get_vote k s i (key k vote.block_id) ≡ none → PrimaryDone
  add_primary-Placed unknown = elim (Option-cases (vote_at s.votes i)) [
    | inl new ↦ added new
    | inr (old, there) ↦ kept_or_replaced old there (unknown_differs old there unknown)
  ]

-- ===== src/Types/VoteSet/Tracked.antt =====
-- The votes for a block: the end of addVerifiedVote keeps the invariant and does not panic.
use relaychainmodel.Prelude.{
  ap, Bool, Bool-cases, Option-cases, arith, false, get_elem?-lt, if◌then◌else◌, inl, inr, leb,
  length, length-set, ltb, none, refl, set, some, subst₂, sym, true, ℕ, ◌&&◌, ◌*◌, ◌+◌, ◌/◌, ◌<◌,
  ◌==◌, ◌∙◌, ◌≡◌, ◌≤◌, ◌⊎◌,
}
use relaychainmodel.Prelude.Int.{leb_ℤ, ltb_ℤ, pos, ℤ}
use relaychainmodel.Prelude.Bytes.{Bytes, bytes_eq, bytes_eq_iff, bytes_eq_refl}
use relaychainmodel.Prelude.Outcome.{ok}
use relaychainmodel.Prelude.Int64.{add_int64, to_int64, to_int64-eq}
use relaychainmodel.Prelude.Map.{Map, insert, lookup, lookup-insert}
use relaychainmodel.Types.BlockId.{BlockId}
use relaychainmodel.Types.Vote.{Vote, Crypto}
use relaychainmodel.Types.ValidatorSet.{
  IsValid, power, total_voting_power, total_voting_power-eq, two_thirds, two_thirds-eq,
}
use relaychainmodel.Types.ValidatorSet.Power.{power_of, power_of-le}
use relaychainmodel.Types.VoteSet.{
  BlockVotes, Config, VoteSet, vote_at, key, add_to_block, copy_votes, add_tracked, suc_int64,
}
use relaychainmodel.Types.VoteSet.Slots.{
  has, get_or-set, power-set, add_int64-power, vote_at-copy_votes, length-copy_votes,
  power-copy_votes,
}
use relaychainmodel.Types.VoteSet.Invariant.{Genuine, IsTracked, IsQuorum, Inv, Shows}
use relaychainmodel.Types.VoteSet.Primary.{IsTracked-more}

-- A block's votes with room for one more, from validator `i`.
pub record Open (k : Crypto) (cfg : Config) (s : VoteSet) (i : ℕ) (block_key : Bytes)
    (b : BlockVotes) : Type 0 where
  pub votes_for : IsTracked k cfg s.votes block_key b
  pub present : has s.votes i ≡ true
  pub without : vote_at b.votes i ≡ none
  pub below : s.maj23 ≡ none → ¬ (IsQuorum cfg b.sum)
  pub shows : (m : BlockId) → s.maj23 ≡ some m → key k m ≡ block_key → Shows k s.votes i (key k m)
  pub origin :
      (lookup block_key s.votes_by_block ≡ some b) ⊎ (lookup block_key s.votes_by_block ≡ none)

module _ (k : Crypto) (cfg : Config) (valid : IsValid cfg.val_set) (s : VoteSet) (inv : Inv k cfg s)
    (i : ℕ) (vote : Vote) (g : Genuine k cfg i vote) (b : BlockVotes)
    (o : Open k cfg s i (key k vote.block_id) b) where
  abbrev more : BlockVotes
  more = record b {
    bit_array = set b.bit_array i true;
    votes = set b.votes i (some vote);
    sum = add_int64 b.sum g.validator.voting_power;
  }

  add_to_block-eq : add_to_block b i vote g.validator.voting_power ≡ more
  unfolding add_to_block
  add_to_block-eq = ground (arith, o.without)

  room : i < length b.votes
  room = omega (arith, o.votes_for.room, get_elem?-lt cfg.val_set.validators i g.in_set)

  bits_room : i < length b.bit_array
  bits_room = omega (arith, o.votes_for.room, o.votes_for.bits_room, room)

  more-at : (j : ℕ) → vote_at more.votes j ≡ (if j == i then some vote else vote_at b.votes j)
  more-at j = get_or-set b.votes i j (some vote) none room

  grown :
      power_of (has more.votes) cfg.val_set.validators
      ≡ power_of (has b.votes) cfg.val_set.validators + g.validator.voting_power
  grown = power-set cfg.val_set.validators b.votes i vote g.validator room g.in_set o.without

  sum_exact : more.sum ≡ power_of (has more.votes) cfg.val_set.validators
  sum_exact = rw o.votes_for.sums (
      add_int64-power cfg.val_set.validators (has b.votes) (has more.votes) g.validator
        (omega (arith, valid.capped)) grown)

  sum_grows : b.sum ≤ more.sum
  sum_grows = omega (arith, sum_exact, o.votes_for.sums, grown)

  more-IsTracked : IsTracked k cfg s.votes (key k vote.block_id) more
  more-IsTracked = record {
    room = length-set b.votes i (some vote) ∙ o.votes_for.room;
    bits = λ j.
        ground
          (arith, more-at j, get_or-set b.bit_array i j true false bits_room, o.votes_for.bits j);
    bits_room = length-set b.bit_array i true ∙ o.votes_for.bits_room;
    sums = sum_exact;
    genuine = λ j v h. elim (Bool-cases (j == i)) [
      | inl same ↦
          let e : i ≡ j = ground arith in
          let e' : vote ≡ v = ground (arith, more-at j) in subst₂ (Genuine k cfg) e e' g
      | inr other ↦ o.votes_for.genuine j v (ground (arith, more-at j))
    ];
    for_block = λ j v h. elim (Bool-cases (j == i)) [
      | inl same ↦ let e : vote ≡ v = ground (arith, more-at j) in rw (← e)
      | inr other ↦ o.votes_for.for_block j v (ground (arith, more-at j))
    ];
    covered = λ j h. elim (Bool-cases (j == i)) [
      | inl same ↦ let e : i ≡ j = ground arith in rw e at o.present
      | inr other ↦ o.votes_for.covered j (ground (arith, more-at j))
    ];
  }

  -- The blocks after the update, one by one.
  abbrev blocks' : Map BlockVotes
  blocks' = insert (key k vote.block_id) more s.votes_by_block

  blocks'-cases :
      (j : Bytes) (d : BlockVotes)
      → lookup j blocks' ≡ some d
      → ((j ≡ key k vote.block_id) × (d ≡ more)) ⊎ (lookup j s.votes_by_block ≡ some d)
  blocks'-cases j d h =
      let e = lookup-insert (key k vote.block_id) j more s.votes_by_block in
      elim (Bool-cases (bytes_eq (key k vote.block_id) j)) [
        | inl same ↦ inl (sym ((bytes_eq_iff (key k vote.block_id) j).0 same), ground arith)
        | inr other ↦ inr (ground arith)
      ]

  blocks'-IsTracked :
      (j : Bytes) (d : BlockVotes) → lookup j blocks' ≡ some d → IsTracked k cfg s.votes j d
  blocks'-IsTracked j d h = elim (blocks'-cases j d h) [
    | inl (e, e') ↦ rw (e, e') more-IsTracked
    | inr old ↦ inv.tracked j d old
  ]

  lookup_self : lookup (key k vote.block_id) blocks' ≡ some more
  lookup_self = ground (
    arith,
    lookup-insert (key k vote.block_id) (key k vote.block_id) more s.votes_by_block,
    bytes_eq_refl (key k vote.block_id),
  )

  -- A recorded majority keeps its quorum.
  blocks'-majority :
      (m : BlockId)
      → s.maj23 ≡ some m
      → (d : BlockVotes) × (lookup (key k m) blocks' ≡ some d) × IsQuorum cfg d.sum
  blocks'-majority m h =
      let (d, found, quorum) = inv.majority m h in
      let e = lookup-insert (key k vote.block_id) (key k m) more s.votes_by_block in
      elim (Bool-cases (bytes_eq (key k vote.block_id) (key k m))) [
        | inr other ↦ (d, ground arith, quorum)
        | inl same ↦
            let e' = (bytes_eq_iff (key k vote.block_id) (key k m)).0 same in
            let found' : lookup (key k vote.block_id) s.votes_by_block ≡ some d = rw e' found in
            let same_block : b ≡ d = ground (arith, o.origin) in
            let grows : d.sum ≤ more.sum = rw (← same_block) sum_grows in
            (more, ground arith, omega arith)
      ]

  -- A vote that joins those for the block of the majority is the primary one.
  blocks'-shown :
      (m : BlockId)
      → s.maj23 ≡ some m
      → (d : BlockVotes) → lookup (key k m) blocks' ≡ some d
      → (j : ℕ) → has d.votes j ≡ true
      → Shows k s.votes j (key k m)
  blocks'-shown m h d found j tracked = elim (blocks'-cases (key k m) d found) [
    | inr old ↦ inv.shown m h d old j tracked
    | inl (e, e') ↦
        let (b', found', quorum) = inv.majority m h in
        let known : lookup (key k vote.block_id) s.votes_by_block ≡ some b' =
          ap (λ c. lookup c s.votes_by_block) (sym e) ∙ found' in
        let same : b ≡ b' = ground (arith, o.origin) in
        let tracked' : has more.votes j ≡ true =
          ap (λ (c : BlockVotes). has c.votes j) (sym e') ∙ tracked in
        elim (Bool-cases (j == i)) [
          | inl at_i ↦ let e'' : j ≡ i = ground arith in rw e'' (o.shows m h e)
          | inr other ↦ inv.shown m h b (rw same found') j (ground (arith, more-at j))
        ]
  ]

  -- The tests of the source on a sum of powers: whether it reaches the quorum.
  quorum_of : ℤ
  quorum_of = suc_int64 (two_thirds (power cfg.val_set.validators))

  quorum_of-eq : quorum_of ≡ pos (power cfg.val_set.validators * 2 / 3 + 1)
  unfolding quorum_of
  quorum_of-eq =
      rw (two_thirds-eq (power cfg.val_set.validators) valid.capped) (ground (arith, valid.capped))

  below-test :
      (sum : ℕ)
      → sum ≤ power cfg.val_set.validators
      → ltb_ℤ (to_int64 sum) quorum_of ≡ ltb sum (power cfg.val_set.validators * 2 / 3 + 1)
  below-test sum h = rw (quorum_of-eq, to_int64-eq sum (omega (arith, valid.capped))) (ground arith)

  reached-test :
      (sum : ℕ)
      → sum ≤ power cfg.val_set.validators
      → leb_ℤ quorum_of (to_int64 sum) ≡ leb (power cfg.val_set.validators * 2 / 3 + 1) sum
  reached-test sum h =
      rw (quorum_of-eq, to_int64-eq sum (omega (arith, valid.capped))) (ground arith)

  crossed : Bool
  crossed = ltb_ℤ (to_int64 b.sum) quorum_of && leb_ℤ quorum_of (to_int64 more.sum)

  -- The test of the source: the new vote, and not one before it, completes a quorum.
  crossed-lem : crossed ≡ (
      ltb b.sum (power cfg.val_set.validators * 2 / 3 + 1)
      && leb (power cfg.val_set.validators * 2 / 3 + 1) more.sum)
  unfolding crossed
  crossed-lem = rw (
    below-test b.sum
        (omega (arith, o.votes_for.sums, power_of-le (has b.votes) cfg.val_set.validators)),
    reached-test more.sum
        (omega (arith, sum_exact, power_of-le (has more.votes) cfg.val_set.validators)),
  )

  unfold_crossed : crossed ≡ (
      ltb_ℤ (to_int64 b.sum) (suc_int64 (two_thirds (power cfg.val_set.validators)))
      && leb_ℤ (suc_int64 (two_thirds (power cfg.val_set.validators))) (to_int64 more.sum))
  unfolding crossed quorum_of
  unfold_crossed = refl

  -- The set after the update, by whether a majority was recorded and whether this vote made one.
  abbrev joined : VoteSet
  joined = record s { votes_by_block = blocks' }

  abbrev decided : VoteSet
  decided = record s {
    votes_by_block = blocks';
    maj23 = some vote.block_id;
    votes = copy_votes more.votes s.votes;
  }

  joined-Inv : (s.maj23 ≡ none → ¬ (IsQuorum cfg more.sum)) → Inv k cfg joined
  joined-Inv still = record {
    configured = inv.configured;
    room = inv.room;
    bits_room = inv.bits_room;
    bits = inv.bits;
    sums = inv.sums;
    genuine = inv.genuine;
    tracked = blocks'-IsTracked;
    first_quorum = λ j d h none_yet. elim (blocks'-cases j d h) [
      | inl (e, e') ↦ rw e' (still none_yet)
      | inr old ↦ inv.first_quorum j d old none_yet
    ];
    majority = blocks'-majority;
    shown = blocks'-shown;
  }

  same_room : length more.votes ≡ length s.votes
  same_room = omega (arith, more-IsTracked.room, inv.room)

  copied-at :
      (j : ℕ)
      → vote_at (copy_votes more.votes s.votes) j
        ≡ (if has more.votes j then vote_at more.votes j else vote_at s.votes j)
  copied-at j = vote_at-copy_votes more.votes s.votes j same_room

  copied-has : (j : ℕ) → has (copy_votes more.votes s.votes) j ≡ has s.votes j
  copied-has j = ground (arith, copied-at j, more-IsTracked.covered j)

  decided-Inv : IsQuorum cfg more.sum → Inv k cfg decided
  decided-Inv quorum = record {
    configured = inv.configured;
    room = length-copy_votes more.votes s.votes same_room ∙ inv.room;
    bits_room = inv.bits_room;
    bits = λ j. inv.bits j ∙ sym (copied-has j);
    sums =
        inv.sums
        ∙ sym (
            power-copy_votes cfg.val_set.validators more.votes s.votes same_room
              more-IsTracked.covered);
    genuine = λ j v h. elim (Bool-cases (has more.votes j)) [
      | inl from_block ↦ more-IsTracked.genuine j v (ground (arith, copied-at j))
      | inr from_primary ↦ inv.genuine j v (ground (arith, copied-at j))
    ];
    tracked = λ j d h. IsTracked-more (λ x e. copied-has x ∙ e) (blocks'-IsTracked j d h);
    first_quorum = λ j d h none_yet. cc;
    majority = λ m h. let e : vote.block_id ≡ m = cc h in (more, rw (← e) lookup_self, quorum);
    shown = λ m h d found j tracked.
        let e : vote.block_id ≡ m = cc h in
        let at_key : lookup (key k m) blocks' ≡ some more = rw (← e) lookup_self in
        let same : d ≡ more = ground arith in
        let tracked' : has more.votes j ≡ true =
          ap (λ (c : BlockVotes). has c.votes j) (sym same) ∙ tracked in
        elim (Option-cases (vote_at more.votes j)) [
          | inl missing ↦ absurd (ground arith)
          | inr (w, there) ↦
              (w, ground (arith, copied-at j), rw (← e) (more-IsTracked.for_block j w there))
        ];
  }

  abbrev Done : Type 0
  Done =
      (s' : VoteSet) × (add_tracked k s i vote (key k vote.block_id) g.validator.voting_power b
        ≡ ok s')
      × Inv k cfg s'
      × ((s'.maj23 ≡ s.maj23) ⊎ ((s.maj23 ≡ none) × (s'.maj23 ≡ some vote.block_id)))

  total-eq : total_voting_power s.config.val_set ≡ some (power cfg.val_set.validators)
  total-eq = rw inv.configured (total_voting_power-eq cfg.val_set valid)

  recorded_before : (m : BlockId) → s.maj23 ≡ some m → Done
  unfolding add_tracked
  recorded_before m h = (
    joined,
    ground (arith, total-eq, add_to_block-eq),
    joined-Inv (λ e. absurd (ground arith)),
    inl refl,
  )

  crosses : s.maj23 ≡ none → crossed ≡ true → Done
  unfolding add_tracked
  crosses h yes_crossed =
      let test = crossed-lem in
      (
        decided,
        ground (arith, total-eq, add_to_block-eq, unfold_crossed),
        decided-Inv (ground arith),
        inr (h, refl),
      )

  stays_below : s.maj23 ≡ none → crossed ≡ false → Done
  unfolding add_tracked
  stays_below h not_crossed =
      let test = crossed-lem in
      (
        joined,
        ground (arith, total-eq, add_to_block-eq, unfold_crossed),
        joined-Inv (λ e q. o.below h (ground arith)),
        inl refl,
      )

  -- The end of `addVerifiedVote` returns a set that satisfies the invariant. A recorded majority
  -- stays; a new one is for this vote's block.
  pub add_tracked-Inv : Done
  add_tracked-Inv = elim (Option-cases s.maj23) [
    | inr (m, h) ↦ recorded_before m h
    | inl h ↦ elim (Bool-cases crossed) [
      | inl yes_crossed ↦ crosses h yes_crossed
      | inr not_crossed ↦ stays_below h not_crossed
    ]
  ]

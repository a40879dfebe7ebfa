-- ===== src/Types/VoteSet/Claims.antt =====
-- NewVoteSet and SetPeerMaj23: the first set, and the claims of peers, satisfy the invariant.
use relaychainmodel.Prelude.{
  Bool-cases, Option, Option-cases, [], arith, false, fun_ext, inl, inr, length-replicate, none,
  refl, replicate, some, sym, true, ℕ, ◌≡◌, ◌≤◌,
}
use relaychainmodel.Prelude.Int.{eq_ℤ, pos}
use relaychainmodel.Prelude.Bytes.{Bytes, bytes_eq, bytes_eq_iff}
use relaychainmodel.Prelude.Outcome.{ok}
use relaychainmodel.Prelude.Map.{Map, insert, lookup, lookup-insert}
use relaychainmodel.Types.BlockId.{BlockId}
use relaychainmodel.Types.Vote.{Vote, Crypto}
use relaychainmodel.Types.ValidatorSet.{size}
use relaychainmodel.Types.ValidatorSet.Power.{power_of-empty}
use relaychainmodel.Types.VoteSet.{BlockVotes, Config, VoteSet, key, new_block_votes, new_vote_set}
use relaychainmodel.Types.VoteSet.Peers.{set_peer_maj23}
use relaychainmodel.Types.VoteSet.Slots.{has, get_or-replicate}
use relaychainmodel.Types.VoteSet.Invariant.{IsTracked, IsQuorum, Inv}
use relaychainmodel.Types.VoteSet.AddVote.{new_block-IsTracked, new_block-below, new_block-without}

abbrev fresh : Config → VoteSet
fresh cfg = record {
  config = cfg;
  votes_bit_array = replicate (size cfg.val_set) false;
  votes = replicate (size cfg.val_set) none;
  sum = 0;
  maj23 = none;
  votes_by_block = [];
  peer_maj23s = [];
}

fresh-Inv : (k : Crypto) (cfg : Config) → Inv k cfg (fresh cfg)
unfolding lookup
fresh-Inv k cfg =
    let n = size cfg.val_set in
    let nobody : has (replicate n none) ≡ (λ _. false) =
      fun_ext (λ j. rw (get_or-replicate {A = Option Vote} n j none)) in
    record {
      configured = refl;
      room = length-replicate n none;
      bits_room = length-replicate n false;
      bits = λ j.
          ground (arith, get_or-replicate {A = Option Vote} n j none, get_or-replicate n j false);
      sums = sym (rw nobody (power_of-empty cfg.val_set.validators));
      genuine = λ j v h. absurd (ground (arith, get_or-replicate {A = Option Vote} n j none));
      tracked = λ j b h. cc;
      first_quorum = λ j b h. cc;
      majority = λ m h. cc;
      shown = λ m h. absurd (ground arith);
    }

-- A new set satisfies the invariant.
pub new_vote_set-Inv :
    (k : Crypto) (cfg : Config) (s : VoteSet) → new_vote_set cfg ≡ ok s → Inv k cfg s
unfolding new_vote_set
new_vote_set-Inv k cfg s h = elim (Bool-cases (eq_ℤ cfg.height (pos 0))) [
  | inl zero_height ↦ absurd (ground arith)
  | inr height ↦ let e : fresh cfg ≡ s = ground arith in rw (← e) (fresh-Inv k cfg)
]

-- New or changed data for one block, with the same votes for it.
put_block :
    (k : Crypto) (cfg : Config) (s : VoteSet) (peers : Map BlockId) (block_key : Bytes)
    (b : BlockVotes)
    → Inv k cfg s
    → IsTracked k cfg s.votes block_key b
    → (s.maj23 ≡ none → ¬ (IsQuorum cfg b.sum))
    → ((d : BlockVotes) → lookup block_key s.votes_by_block ≡ some d → d.sum ≤ b.sum)
    → ((i : ℕ)
        → has b.votes i ≡ true
        → (d : BlockVotes) × (lookup block_key s.votes_by_block ≡ some d) × (has d.votes i ≡ true))
    → Inv k cfg
        (record s { peer_maj23s = peers; votes_by_block = insert block_key b s.votes_by_block })
put_block k cfg s peers block_key b inv t below grows held = record {
  configured = inv.configured;
  room = inv.room;
  bits_room = inv.bits_room;
  bits = inv.bits;
  sums = inv.sums;
  genuine = inv.genuine;
  tracked = λ j d h. elim (Bool-cases (bytes_eq block_key j)) [
    | inl same ↦
        let e = (bytes_eq_iff block_key j).0 same in
        let e' : b ≡ d = ground (arith, lookup-insert block_key j b s.votes_by_block) in
        rw (← e, ← e') t
    | inr other ↦ inv.tracked j d (ground (arith, lookup-insert block_key j b s.votes_by_block))
  ];
  first_quorum = λ j d h none_yet. elim (Bool-cases (bytes_eq block_key j)) [
    | inl same ↦
        let e' : b ≡ d = ground (arith, lookup-insert block_key j b s.votes_by_block) in
        rw (← e') (below none_yet)
    | inr other ↦
        inv.first_quorum j d (ground (arith, lookup-insert block_key j b s.votes_by_block)) none_yet
  ];
  majority = λ m h.
      let (d, found, quorum) = inv.majority m h in
      elim (Bool-cases (bytes_eq block_key (key k m))) [
        | inl same ↦
            let e = (bytes_eq_iff block_key (key k m)).0 same in
            let le = grows d (rw e found) in
            (b, ground (arith, lookup-insert block_key (key k m) b s.votes_by_block), omega arith)
        | inr other ↦
            (d, ground (arith, lookup-insert block_key (key k m) b s.votes_by_block), quorum)
      ];
  shown = λ m h d found j tracked. elim (Bool-cases (bytes_eq block_key (key k m))) [
    | inl same ↦
        let e = (bytes_eq_iff block_key (key k m)).0 same in
        let e' : d ≡ b = ground (arith, lookup-insert block_key (key k m) b s.votes_by_block) in
        let (old, there, had) = held j (rw (← e') tracked) in
        inv.shown m h old (rw (← e) there) j had
    | inr other ↦
        inv.shown m h d (ground (arith, lookup-insert block_key (key k m) b s.votes_by_block)) j
          tracked
  ];
}

-- A peer's claim changes neither the votes nor the majority, and keeps the invariant.
pub set_peer_maj23-Inv :
    (k : Crypto) (cfg : Config) (s : VoteSet) (peer : Bytes) (b : BlockId)
    → Inv k cfg s
    → let s' = (set_peer_maj23 k s peer b).0 in
      Inv k cfg s' × (s'.maj23 ≡ s.maj23) × (s'.votes ≡ s.votes)
unfolding set_peer_maj23
set_peer_maj23-Inv k cfg s peer b inv =
    let peers = insert peer b s.peer_maj23s in
    let noted : Inv k cfg (record s { peer_maj23s = peers }) = record {
      configured = inv.configured;
      room = inv.room;
      bits_room = inv.bits_room;
      bits = inv.bits;
      sums = inv.sums;
      genuine = inv.genuine;
      tracked = inv.tracked;
      first_quorum = inv.first_quorum;
      majority = inv.majority;
      shown = inv.shown;
    } in
    elim (Option-cases (lookup peer s.peer_maj23s)) [
      | inr (existing, known) ↦ rw (known, set_peer_maj23) (inv, refl, refl)
      | inl unknown ↦ elim (Option-cases (lookup (key k b) s.votes_by_block)) [
        | inr (d, found) ↦ elim (Bool-cases d.peer_maj23) [
          | inl claimed ↦ rw (unknown, found, claimed, set_peer_maj23) (noted, refl, refl)
          | inr unclaimed ↦
              let t = inv.tracked (key k b) d found in
              let d' = record d { peer_maj23 = true } in
              let t' : IsTracked k cfg s.votes (key k b) d' = record {
                room = t.room;
                bits = t.bits;
                bits_room = t.bits_room;
                sums = t.sums;
                genuine = t.genuine;
                for_block = t.for_block;
                covered = t.covered;
              } in
              rw (unknown, found, unclaimed, set_peer_maj23)
                (
                  put_block k cfg s peers (key k b) d' inv t' (inv.first_quorum (key k b) d found)
                      (λ d'' f. let e : d ≡ d'' = ground arith in rw (← e) (omega arith))
                      (λ i e. (d, found, e)),
                  refl,
                  refl,
                )
        ]
        | inl missing ↦
            let n : size s.config.val_set ≡ size cfg.val_set = rw inv.configured in
            rw (unknown, missing, n, set_peer_maj23)
              (
                put_block k cfg s peers (key k b) (new_block_votes true (size cfg.val_set)) inv
                    (new_block-IsTracked k cfg s.votes (key k b) true)
                    (λ h. new_block-below cfg true) (λ d f. absurd (ground arith))
                    (λ i e.
                      let gone = new_block-without (size cfg.val_set) i true in
                      absurd (ground arith)),
                refl,
                refl,
              )
      ]
    ]

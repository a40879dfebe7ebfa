-- ===== src/Consensus/Protocol/Invariant/Locking.antt =====
-- The rules that change the lock or send a message keep the invariant.
use relaychainmodel.Prelude.{
  Bool-cases, arith, false, inl, inr, none, refl, some, some-injective, sym, true, ℕ, ◌==◌, ◌∙◌,
  ◌≡◌, ◌≢◌, ◌⊎◌,
}
use relaychainmodel.Prelude.Int.{eq_of_parts, ltb_ℤ, negsuc, ℤ, ◌<ℤ◌, ◌≤ℤ◌}
use relaychainmodel.Prelude.Bytes.{Bytes, bytes_eq, bytes_eq_iff}
use relaychainmodel.Types.BlockId.{BlockId, is_empty}
use relaychainmodel.Types.Vote.{prevote_type, precommit_type}
use relaychainmodel.Consensus.State.{Block, Output, sign_vote, timeout, hashes_to, step_new_height}
use relaychainmodel.Consensus.Protocol.{Sent, Setting, View, polka_at, logged}
use relaychainmodel.Consensus.Protocol.Invariant.{
  Overruled, Decided, decided-AllDecided, decided-Chained, Holds, Inv,
}

pub hashes_to-eq :
    (block : Block) (h : Bytes)
    → hashes_to (some block) h ≡ true
    → (block.hash ≡ h) × (is_empty h ≡ false)
unfolding hashes_to
hashes_to-eq block h e = ground (arith, bytes_eq_iff block.hash h)

module _ (k : Setting) (v : View) (inv : Inv k v) where
  -- A majority that is not for the locked block overrules what the lock holds.
  overrules :
      (q : ℤ) (c : BlockId)
      → polka_at v q ≡ some c
      → hashes_to v.locked_block c.hash ≡ false
      → q ≤ℤ v.round
      → (v.locked_round <ℤ q) ⊎ (q ≡ v.round)
      → (r : ℤ) (b : BlockId) → polka_at v r ≡ some b
      → r ≤ℤ v.round
      → Holds v r b
      → Overruled v.votes r b v.round
  overrules q c polka other below late r b polka_r below_r (hashes, kept) =
      (q, c, polka, differ, above, below)
    where
      not_same : c.hash ≢ b.hash
      not_same e = absurd (cc (e, other, hashes))

      differ : bytes_eq c.hash b.hash ≡ false
      differ = elim (Bool-cases (bytes_eq c.hash b.hash)) [
        | inl e ↦ absurd (not_same ((bytes_eq_iff c.hash b.hash).0 e))
        | inr e ↦ e
      ]

      not_at : r ≢ q
      not_at e =
          let same : polka_at v q ≡ some b = rw (← e) polka_r in
          let equal : c ≡ b = some-injective c b (sym polka ∙ same) in not_same (rw equal refl)

      above : r <ℤ q
      above = elim late [
        | inl after ↦ omega arith
        | inr now ↦ elim (Bool-cases (ltb_ℤ r q)) [
          | inl e ↦ ground arith
          | inr e ↦
              let upto : r ≤ℤ q = rw now below_r in absurd (not_at (eq_of_parts r q (ground arith)))
        ]
      ]

  pub lock_again-Inv :
      (b : BlockId)
      → polka_at v v.round ≡ some b
      → hashes_to v.locked_block b.hash ≡ true
      → Inv k (record v { locked_round = v.round })
  lock_again-Inv b polka hashes = record {
    chained = inv.chained;
    of_state = inv.of_state;
    decisions = inv.decisions;
    valid = inv.valid;
    reach = inv.reach;
    locked = λ block e. (b, polka, rw e at hashes, omega arith);
    precommits = λ h r b' sent full.
        let (polka', below, state) = inv.precommits h r b' sent full in
        (polka', below, elim state [ inl (same, early) ↦ inl (same, below) | inr over ↦ inr over ]);
    respects = inv.respects;
    timeouts = inv.timeouts;
  }

  pub lock_block-Inv :
      (block : Block) (b : BlockId)
      → polka_at v v.round ≡ some b
      → hashes_to v.locked_block b.hash ≡ false
      → hashes_to (some block) b.hash ≡ true
      → Inv k (record v { locked_round = v.round; locked_block = some block })
  lock_block-Inv block b polka other hashes = record {
    chained = inv.chained;
    of_state = inv.of_state;
    decisions = inv.decisions;
    valid = inv.valid;
    reach = inv.reach;
    locked = λ block' e.
        let same : block ≡ block' = some-injective block block' e in
        (b, polka, rw same at hashes, omega arith);
    precommits = λ h r b' sent full.
        let (polka', below, state) = inv.precommits h r b' sent full in
        (
          polka',
          below,
          inr (elim state [
            | inl holds ↦
                overrules v.round b polka other (omega arith) (inr refl) r b' polka' below holds
            | inr over ↦ over
          ]),
        );
    respects = inv.respects;
    timeouts = inv.timeouts;
  }

  pub release-Inv :
      (q : ℤ) (b : BlockId)
      → polka_at v q ≡ some b
      → hashes_to v.locked_block b.hash ≡ false
      → q ≤ℤ v.round
      → (v.locked_round <ℤ q) ⊎ (q ≡ v.round)
      → Inv k (record v { locked_round = negsuc 0; locked_block = none })
  release-Inv q b polka other below late = record {
    chained = inv.chained;
    of_state = inv.of_state;
    decisions = inv.decisions;
    valid = inv.valid;
    reach = inv.reach;
    locked = λ block e. absurd (ground arith);
    precommits = λ h r b' sent full.
        let (polka', below', state) = inv.precommits h r b' sent full in
        (
          polka',
          below',
          inr (elim state [
            | inl holds ↦ overrules q b polka other below late r b' polka' below' holds
            | inr over ↦ over
          ]),
        );
    respects = inv.respects;
    timeouts = inv.timeouts;
  }

  -- A message is sent that is allowed to be.
  pub logged-Inv :
      (o : Output)
      → Decided k v.decisions o
      → ((h r : ℤ) (b : BlockId)
          → sign_vote precommit_type h r b ≡ o
          → is_empty b.hash ≡ false
          → (polka_at v r ≡ some b)
            × (r ≤ℤ v.round)
            × (Holds v r b ⊎ Overruled v.votes r b v.round))
      → ((h r : ℤ) (b : BlockId)
          → sign_vote prevote_type h r b ≡ o
          → (h' r' : ℤ) (b' : BlockId) → Sent (sign_vote precommit_type h' r' b') v.log
          → is_empty b'.hash ≡ false
          → (b.hash ≡ b'.hash) ⊎ Overruled v.votes r' b' r)
      → ((step : ℕ) (h r : ℤ)
          → timeout step h r ≡ o
          → (step == step_new_height) ≡ false
          → r ≤ℤ v.round)
      → Inv k (logged o v)
  logged-Inv o decision precommit prevote scheduled = record {
    chained = decided-Chained k o v.decisions v.chain inv.chained;
    of_state = inv.of_state;
    decisions = decided-AllDecided k o v.decisions decision inv.decisions;
    valid = inv.valid;
    reach = inv.reach;
    locked = inv.locked;
    precommits = λ h r b sent full. elim sent [
      | inl now ↦ precommit h r b now full
      | inr before ↦ inv.precommits h r b before full
    ];
    respects =
        (λ h r b e h' r' b' sent full. prevote h r b (sym e) h' r' b' sent full, inv.respects);
    timeouts = λ step h r sent other. elim sent [
      | inl now ↦ scheduled step h r now other
      | inr before ↦ inv.timeouts step h r before other
    ];
  }

  pub precommit-Inv :
      (h : ℤ) (c : BlockId)
      → (is_empty c.hash ≡ false → (polka_at v v.round ≡ some c) × Holds v v.round c)
      → Inv k (logged (sign_vote precommit_type h v.round c) v)
  precommit-Inv h c allowed =
      logged-Inv (sign_vote precommit_type h v.round c) tt
        (λ h' r b e full.
          let same_r : v.round ≡ r = cc in
          let same_b : c ≡ b = cc in
          let (polka, holds) = allowed (rw same_b full) in
          rw (← same_r, ← same_b) (polka, omega arith, inl holds))
        (λ h' r b e. absurd (ground arith)) (λ step h' r e. absurd (ground arith))

  pub prevote-Inv :
      (h : ℤ) (c : BlockId)
      → ((r : ℤ) (b : BlockId) → Holds v r b → c.hash ≡ b.hash)
      → Inv k (logged (sign_vote prevote_type h v.round c) v)
  prevote-Inv h c agrees =
      logged-Inv (sign_vote prevote_type h v.round c) tt (λ h' r b e full. absurd (ground arith))
        (λ h' r b e h'' r' b' sent full.
          let same_r : v.round ≡ r = cc in
          let same_b : c ≡ b = cc in
          let (polka, below, state) = inv.precommits h'' r' b' sent full in
          rw (← same_r, ← same_b)
            (elim state [ inl holds ↦ inl (agrees r' b' holds) | inr over ↦ inr over ]))
        (λ step h' r e. absurd (ground arith))

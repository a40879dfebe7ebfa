-- ===== src/Statesync/Chunks/Adding.antt =====
-- What Add and Allocate do to the chunk queue (internal/statesync/chunks.go).
use relaychainmodel.Prelude.{
  Bool, Bool-cases, List, Option, ap, arith, each_branch, each_option, false, inl, inr, leb, length,
  none, not, refl, sym, some, suc, true, zero, ℕ, ◌+◌, ◌<◌, ◌≤◌, ◌==◌, ◌∷◌, ◌≡◌, ◌∙◌,
}
use relaychainmodel.Prelude.Bytes.{Bytes, bytes_eq_iff}
use relaychainmodel.Prelude.IndexMap.{IndexMap, at, at-put_at, delete, put_at, put_at-IsMap}
use relaychainmodel.Prelude.Outcome.{Outcome, err, ok, panics}
use relaychainmodel.Types.BlockId.{is_empty}
use relaychainmodel.Statesync.Chunks.{
  Chunk, ChunkQueue, QueueError, Result, Snapshot, Written, add, allocate, broken, first_unset, has,
  is_set, path_of, save, write_at, written,
}
use relaychainmodel.Statesync.Chunks.Sound.{IsPaths, Sound, chunk_of, empty-path_of, write_at-join}

-- The log of the chunks that were added.
abbrev pub log_add : Outcome QueueError Bool → Option Chunk → List Chunk → List Chunk
log_add (ok true) (some c) l = c ∷ l
log_add (ok true) none l = l
log_add (ok false) c l = l
log_add (err e) c l = l
log_add panics c l = l

-- An index that `first_unset` finds is the first.
pub record First (m : IndexMap Bool) (n i k : ℕ) : Type 0 where
  pub above : i ≤ k
  pub below : k < i + n
  pub unset : is_set m k ≡ false
  pub before : (j : ℕ) → i ≤ j → j < k → is_set m j ≡ true

pub first_unset-First : (m : IndexMap Bool) (n i k : ℕ) → first_unset m n i ≡ some k → First m n i k
unfolding first_unset
first_unset-First m zero i k h = absurd (ground arith)
first_unset-First m (suc n) i k h = elim (Bool-cases (is_set m i)) [
  | inr e ↦
      let here : i ≡ k = ground arith in
      record {
        above = omega arith;
        below = omega arith;
        unset = rw (← here) e;
        before = λ j f g. absurd (omega arith);
      }
  | inl e ↦
      let rest = first_unset-First m n (i + 1) k (ground arith) in
      record {
        above = omega (arith, rest.above);
        below = omega (arith, rest.below);
        unset = rest.unset;
        before = λ j f g. elim (Bool-cases (i == j)) [
          | inl same ↦ let at_i : i ≡ j = ground arith in rw (← at_i) e
          | inr other ↦ rest.before j (ground arith) g
        ];
      }
]

pub first_unset-none :
    (m : IndexMap Bool) (n i j : ℕ)
    → first_unset m n i ≡ none
    → i ≤ j
    → j < i + n
    → is_set m j ≡ true
unfolding first_unset
first_unset-none m zero i j h f g = absurd (omega arith)
first_unset-none m (suc n) i j h f g = elim (Bool-cases (is_set m i)) [
  | inr e ↦ absurd (ground arith)
  | inl e ↦ elim (Bool-cases (i == j)) [
    | inl same ↦ let at_i : i ≡ j = ground arith in rw (← at_i) e
    | inr other ↦ first_unset-none m n (i + 1) j (ground arith) (ground arith) (omega arith)
  ]
]

module _ (join : Bytes → ℕ → Bytes) (paths : IsPaths join) where
  allocated-Sound :
      (l : List Chunk) (q : ChunkQueue) (i : ℕ)
      → Sound join l q
      → ((s : Snapshot) → q.snapshot ≡ some s → i < s.chunks)
      → Sound join l (record q { chunk_allocated = put_at i true q.chunk_allocated })
  allocated-Sound l q i h below = record {
    entries = h.entries;
    keys = λ s e. put_at-IsMap s.chunks i true q.chunk_allocated (below s e) (h.keys s e);
    all_true = λ j b g. elim (Bool-cases (i == j)) [
      | inl same ↦ ground (arith, at-put_at i j true q.chunk_allocated)
      | inr other ↦ h.all_true j b (ground (arith, at-put_at i j true q.chunk_allocated))
    ];
  }

  pub allocate-Sound :
      (l : List Chunk) (q : ChunkQueue) → Sound join l q → Sound join l (allocate q).0
  unfolding allocate
  allocate-Sound l q h =
      let P : Result ℕ → Type 0 = λ r. Sound join l r.0 in
      each_option P q.snapshot (λ e. h)
        (λ s e.
          each_branch P (leb s.chunks (length q.chunk_allocated)) (λ f. h)
            (λ f.
              each_option P (first_unset q.chunk_allocated s.chunks 0) (λ g. h)
                (λ i g. allocated-Sound l q i h (λ t k.
                  let first = first_unset-First q.chunk_allocated s.chunks 0 i g in
                  let same : s ≡ t = cc in rw (← same) (omega (arith, first.below))))))

  -- A write to a path with no file.
  broken-Sound :
      (l : List Chunk) (q : ChunkQueue) (i : ℕ) (left : Option Bytes)
      → Sound join l q
      → ((s : Snapshot) → q.snapshot ≡ some s → at i q.chunk_files ≡ none)
      → Sound join l (record q { disk = write_at (join q.dir i) left q.disk })
  broken-Sound l q i left h free = record {
    entries = λ s e j p f. elim (Bool-cases (i == j)) [
      | inl same ↦ let at_i = free s e in absurd (ground arith)
      | inr other ↦
          let that = h.entries s e j p f in
          record {
            body = that.body;
            sender = that.sender;
            placed = that.placed;
            stored = rw (that.placed) (
                write_at-join join paths q.dir i j left q.disk other
                ∙ rw (← that.placed) that.stored);
            sent = that.sent;
            logged = that.logged;
          }
    ];
    keys = h.keys;
    all_true = h.all_true;
  }

  written-Sound :
      (l : List Chunk) (q : ChunkQueue) (c : Chunk) (bytes : Bytes)
      → Sound join l q
      → c.chunk ≡ some bytes
      → ((s : Snapshot) → q.snapshot ≡ some s → (s.height ≡ c.height) × (s.format ≡ c.format))
      → Sound join (c ∷ l) (record q {
        disk = write_at (join q.dir c.index) (some bytes) q.disk;
        chunk_files = put_at c.index (join q.dir c.index) q.chunk_files;
        chunk_senders = put_at c.index c.sender q.chunk_senders;
        waiters = delete c.index q.waiters;
      })
  unfolding write_at
  written-Sound l q c bytes h full matches = record {
    entries = λ s e j p f. elim (Bool-cases (c.index == j)) [
      | inl same ↦
          let at_j : c.index ≡ j = ground arith in
          let path : join q.dir c.index ≡ p =
            ground (arith, at-put_at c.index j (join q.dir c.index) q.chunk_files) in
          let whole : chunk_of s j bytes c.sender ≡ c = λ k. record {
            height = (matches s e).0 k;
            format = (matches s e).1 k;
            index = sym at_j k;
            chunk = sym full k;
            sender = c.sender;
          } in
          record {
            body = bytes;
            sender = c.sender;
            placed = sym path ∙ ap (join q.dir) at_j;
            stored =
                rw (← path, (bytes_eq_iff (join q.dir c.index) (join q.dir c.index)).1 refl) refl;
            sent = rw (at-put_at c.index j c.sender q.chunk_senders, same) refl;
            logged = (0, ap some (sym whole));
          }
      | inr other ↦
          let that =
            h.entries s e j p
              (ground (arith, at-put_at c.index j (join q.dir c.index) q.chunk_files)) in
          record {
            body = that.body;
            sender = that.sender;
            placed = that.placed;
            stored = rw (that.placed) (
                write_at-join join paths q.dir c.index j (some bytes) q.disk other
                ∙ rw (← that.placed) that.stored);
            sent = rw (at-put_at c.index j c.sender q.chunk_senders, other) that.sent;
            logged = (suc that.logged.0, that.logged.1);
          }
    ];
    keys = h.keys;
    all_true = h.all_true;
  }

  save-Sound :
      (l : List Chunk) (q : ChunkQueue) (w : Written) (c : Chunk) (bytes : Bytes)
      → Sound join l q
      → c.chunk ≡ some bytes
      → ((s : Snapshot) → q.snapshot ≡ some s → at c.index q.chunk_files ≡ none)
      → ((s : Snapshot) → q.snapshot ≡ some s → (s.height ≡ c.height) × (s.format ≡ c.format))
      → Sound join
          (log_add (save w (join q.dir c.index) bytes c q).1 (some c) l)
          (save w (join q.dir c.index) bytes c q).0
  unfolding save
  save-Sound l q (broken left) c bytes h full free matches = broken-Sound l q c.index left h free
  save-Sound l q (written) c bytes h full free matches = written-Sound l q c bytes h full matches

  pub add-Sound :
      (l : List Chunk) (q : ChunkQueue) (w : Written) (c : Option Chunk)
      → Sound join l q
      → Sound join (log_add (add join w c q).1 c l) (add join w c q).0
  unfolding add has
  add-Sound l q w none h = h
  add-Sound l q w (some c) h =
      let P : Result Bool → Type 0 = λ r. Sound join (log_add r.1 (some c) l) r.0 in
      each_option P c.chunk (λ e. h)
        (λ bytes full.
          each_option P q.snapshot (λ e. h)
            (λ s e.
              each_branch P (not (c.height == s.height)) (λ f. h)
                (λ f.
                  each_branch P (not (c.format == s.format)) (λ g. h)
                    (λ g.
                      each_branch P (leb s.chunks c.index) (λ a. h)
                        (λ a.
                          each_branch P (not (is_empty (path_of q c.index))) (λ b. h)
                            (λ b.
                              let free : (t : Snapshot)
                                  → q.snapshot ≡ some t
                                  → at c.index q.chunk_files ≡ none =
                                λ t k. empty-path_of join paths l q t c.index h k (ground arith) in
                              save-Sound l q w c bytes h full free (λ t k.
                                let same : s ≡ t = cc in
                                rw (← same) (ground arith, ground arith))))))))

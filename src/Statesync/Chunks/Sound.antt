-- ===== src/Statesync/Chunks/Sound.antt =====
-- What the chunk queue holds (internal/statesync/chunks.go), where no two indices have one path and no
-- path is empty; it is kept when chunks are discarded.
use relaychainmodel.Prelude.{
  Bool, Bool-cases, Option-elim, each_branch, each_option, List, Option, [], arith, false,
  get_elem?, inl, inr, none, not, refl, some, true, ℕ, ◌&&◌, ◌==◌, ◌∷◌, ◌≡◌, ◌∙◌,
}
use relaychainmodel.Prelude.Bytes.{Bytes, bytes_eq, bytes_eq_iff}
use relaychainmodel.Prelude.IndexMap.{
  IndexMap, IsMap, at, at-delete, at-delete-some, delete, delete-IsMap,
}
use relaychainmodel.Prelude.Outcome.{err, ok, panics}
use relaychainmodel.Types.BlockId.{is_empty}
use relaychainmodel.Statesync.Chunks.{
  Chunk, ChunkQueue, Disk, Result, Snapshot, Works, discard, discard_sender, forget_sender, is_set,
  path_of, write_at,
}

-- Paths of different indices differ, and none is empty.
abbrev pub IsPaths : (Bytes → ℕ → Bytes) → Type 0
IsPaths join =
    ((dir : Bytes) (i j : ℕ) → join dir i ≡ join dir j → i ≡ j)
    × ((dir : Bytes) (i : ℕ) → is_empty (join dir i) ≡ false)

abbrev pub Among : Chunk → List Chunk → Type 0
Among c l = (k : ℕ) × (get_elem? l k ≡ some c)

abbrev pub chunk_of : Snapshot → ℕ → Bytes → Bytes → Chunk
chunk_of s i body sender = record {
  height = s.height;
  format = s.format;
  index = i;
  chunk = some body;
  sender = sender;
}

-- A file holds the bytes of a chunk that was added.
pub record Entry (join : Bytes → ℕ → Bytes) (added : List Chunk) (s : Snapshot) (dir : Bytes)
    (disk : Disk) (senders : IndexMap Bytes) (i : ℕ) (p : Bytes) : Type 0 where
  pub body : Bytes
  pub sender : Bytes
  pub placed : p ≡ join dir i
  pub stored : disk p ≡ some body
  pub sent : at i senders ≡ some sender
  pub logged : Among (chunk_of s i body sender) added

pub record Sound (join : Bytes → ℕ → Bytes) (added : List Chunk) (q : ChunkQueue) : Type 0 where
  pub entries :
      (s : Snapshot)
      → q.snapshot ≡ some s
      → (i : ℕ) (p : Bytes) → at i q.chunk_files ≡ some p
      → Entry join added s q.dir q.disk q.chunk_senders i p
  pub keys : (s : Snapshot) → q.snapshot ≡ some s → IsMap s.chunks q.chunk_allocated
  pub all_true : (i : ℕ) (b : Bool) → at i q.chunk_allocated ≡ some b → b ≡ true

path-there :
    (o : Option Bytes)
    → is_empty (Option-elim o [] (λ p. p)) ≡ false
    → o ≡ some (Option-elim o [] (λ p. p))
unfolding Option-elim
path-there none h = absurd (ground arith)
path-there (some p) h = refl

no_path :
    (o : Option Bytes)
    → is_empty (Option-elim o [] (λ p. p)) ≡ true
    → ((p : Bytes) → o ≡ some p → is_empty p ≡ false)
    → o ≡ none
unfolding Option-elim
no_path none h full = refl
no_path (some p) h full = let e = full p refl in absurd (ground arith)

module _ (join : Bytes → ℕ → Bytes) (paths : IsPaths join) where
  -- Other paths keep their contents.
  pub write_at-join :
      (dir : Bytes) (i j : ℕ) (content : Option Bytes) (disk : Disk)
      → (i == j) ≡ false
      → write_at (join dir i) content disk (join dir j) ≡ disk (join dir j)
  unfolding write_at
  write_at-join dir i j content disk other =
      elim (Bool-cases (bytes_eq (join dir i) (join dir j))) [
        | inr e ↦ rw e refl
        | inl e ↦
            let same = paths.0 dir i j ((bytes_eq_iff (join dir i) (join dir j)).0 e) in
            absurd (ground (arith, same))
      ]

  removed-Sound :
      (l : List Chunk) (q : ChunkQueue) (s : Snapshot) (i : ℕ) (p : Bytes)
      → Sound join l q
      → q.snapshot ≡ some s
      → at i q.chunk_files ≡ some p
      → Sound join l (record q {
        disk = write_at p none q.disk;
        chunk_files = delete i q.chunk_files;
        chunk_returned = delete i q.chunk_returned;
        chunk_allocated = delete i q.chunk_allocated;
      })
  removed-Sound l q s i p h e here = record {
    entries = λ t f j r g. elim (Bool-cases (i == j)) [
      | inl same ↦ absurd (ground (arith, at-delete i j q.chunk_files))
      | inr other ↦
          let there : at j q.chunk_files ≡ some r = ground (arith, at-delete i j q.chunk_files) in
          let this = h.entries s e i p here in
          let that = h.entries t f j r there in
          record {
            body = that.body;
            sender = that.sender;
            placed = that.placed;
            stored =
                rw (that.placed, this.placed)
                  (write_at-join q.dir i j none q.disk other ∙ rw (← that.placed) that.stored);
            sent = that.sent;
            logged = that.logged;
          }
    ];
    keys = λ t f. delete-IsMap t.chunks i q.chunk_allocated (h.keys t f);
    all_true = λ j b g. h.all_true j b (at-delete-some i j b q.chunk_allocated g);
  }

  -- A path that is not empty is that of a file.
  path_of-there :
      (q : ChunkQueue) (i : ℕ)
      → is_empty (path_of q i) ≡ false
      → at i q.chunk_files ≡ some (path_of q i)
  path_of-there q i h = path-there (at i q.chunk_files) h

  pub empty-path_of :
      (l : List Chunk) (q : ChunkQueue) (s : Snapshot) (i : ℕ)
      → Sound join l q
      → q.snapshot ≡ some s
      → is_empty (path_of q i) ≡ true
      → at i q.chunk_files ≡ none
  empty-path_of l q s i h e f =
      no_path (at i q.chunk_files) f (λ p g. rw ((h.entries s e i p g).placed) (paths.1 q.dir i))

  -- What Discard leaves: where it worked, the file is gone.
  unfoldable pub Discarded : List Chunk → ℕ → Result (Unit {0}) → Type 0
  Discarded l i r =
      Sound join l r.0
      × (r.1 ≡ ok tt → (s : Snapshot) → r.0.snapshot ≡ some s → at i r.0.chunk_files ≡ none)

  pub discard-Discarded :
      (l : List Chunk) (q : ChunkQueue) (works : Works) (i : ℕ)
      → Sound join l q
      → Discarded l i (discard works i q)
  unfolding discard Discarded
  discard-Discarded l q works i h =
      let P = Discarded l i in
      each_option P q.snapshot (λ e. (h, λ _ s f. absurd (ground arith)))
        (λ s e.
          each_branch P (is_empty (path_of q i)) (λ f. (h, λ _ t g. empty-path_of l q t i h g f))
            (λ f.
              each_branch P (not works) (λ g. (h, λ bad. absurd (ground arith)))
                (λ g. (
                  removed-Sound l q s i (path_of q i) h e (path_of-there q i f),
                  λ _ t k. ground (arith, at-delete i i q.chunk_files),
                ))))

  forgot-Sound :
      (l : List Chunk) (q : ChunkQueue) (i : ℕ)
      → Sound join l q
      → ((s : Snapshot) → q.snapshot ≡ some s → at i q.chunk_files ≡ none)
      → Sound join l (record q { chunk_senders = delete i q.chunk_senders })
  forgot-Sound l q i h gone = record {
    entries = λ s e j p f. elim (Bool-cases (i == j)) [
      | inl same ↦ let at_i = gone s e in absurd (ground arith)
      | inr other ↦
          let that = h.entries s e j p f in
          record {
            body = that.body;
            sender = that.sender;
            placed = that.placed;
            stored = that.stored;
            sent = rw (at-delete i j q.chunk_senders, other) that.sent;
            logged = that.logged;
          }
    ];
    keys = h.keys;
    all_true = h.all_true;
  }

  forget_sender-Sound :
      (r : Result (Unit {0})) (l : List Chunk) (i : ℕ) (rest : ChunkQueue → Result (Unit {0}))
      → ((q : ChunkQueue) → Sound join l q → Sound join l (rest q).0)
      → Discarded l i r
      → Sound join l (forget_sender i rest r).0
  unfolding Discarded
  forget_sender-Sound (q, ok u) l i rest later d = later _ (forgot-Sound l q i d.0 (d.1 refl))
  forget_sender-Sound (q, err e) l i rest later d = d.0
  forget_sender-Sound (q, panics) l i rest later d = d.0

  pub discard_sender-Sound :
      (works : ℕ → Works) (peer : Bytes) (order : List ℕ) (l : List Chunk) (q : ChunkQueue)
      → Sound join l q
      → Sound join l (discard_sender works peer order q).0
  unfolding discard_sender
  discard_sender-Sound works peer [] l q h = h
  discard_sender-Sound works peer (i ∷ is) l q h =
      let P : Result (Unit {0}) → Type 0 = λ r. Sound join l r.0 in
      let later = discard_sender-Sound works peer is l in
      each_option P (at i q.chunk_senders) (λ e. later q h)
        (λ sender e.
          each_branch P (bytes_eq sender peer && not (is_set q.chunk_returned i))
            (λ f.
              forget_sender-Sound (discard (works i) i q) l i (discard_sender works peer is) later
                (discard-Discarded l q (works i) i h))
            (λ f. later q h))

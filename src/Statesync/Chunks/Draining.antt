-- ===== src/Statesync/Chunks/Draining.antt =====
-- Calls of Next until the chunk queue is done (internal/statesync/chunks.go).
use relaychainmodel.Prelude.{
  Bool, Bool-cases, Option-elim, [], ap, arith, false, if◌then◌else◌, inl, inr, ltb, none, refl,
  some, suc, true, zero, ℕ, ◌+◌, ◌<◌, ◌≤◌, ◌==◌, ◌≡◌, ◌∙◌,
}
use relaychainmodel.Prelude.IndexMap.{IndexMap, at, put_at}
use relaychainmodel.Prelude.Outcome.{err, ok}
use relaychainmodel.Statesync.Chunks.{
  Chunk, ChunkQueue, Result, Snapshot, Works, done, first_unset, is_set, retry_all,
}
use relaychainmodel.Statesync.Chunks.Next.{Started, got, load, next_start, next_up}
use relaychainmodel.Statesync.Chunks.Allocation.{is_set-put_at}

-- A number of calls of Next, without a wait.
unfoldable pub drained : ℕ → ChunkQueue → ChunkQueue
drained zero q = q
drained (suc k) q = (next_start true (drained k q)).0

-- The marks of the first chunks.
marks : ℕ → IndexMap Bool
marks zero = []
marks (suc k) = put_at k true (marks k)

is_set-marks : (k j : ℕ) → is_set (marks k) j ≡ ltb j k
unfolding marks at Option-elim
is_set-marks zero j = ground arith
is_set-marks (suc k) j =
    let rest = is_set-marks k j in let step = is_set-put_at (marks k) k j in ground arith

first_unset-marks : (k n i : ℕ) → i ≤ k → k < i + n → first_unset (marks k) n i ≡ some k
unfolding first_unset
first_unset-marks k zero i h f = absurd (omega arith)
first_unset-marks k (suc n) i h f =
    let here = is_set-marks k i in
    elim (Bool-cases (i == k)) [
      | inl e ↦ ground arith
      | inr e ↦
          let rest = first_unset-marks k n (i + 1) (ground arith) (omega arith) in ground arith
    ]

first_unset-all : (k n i : ℕ) → i + n ≤ k → first_unset (marks k) n i ≡ none
unfolding first_unset
first_unset-all k zero i h = refl
first_unset-all k (suc n) i h =
    let here = is_set-marks k i in
    let rest = first_unset-all k n (i + 1) (omega arith) in ground arith

-- A queue in which the first chunks are marked.
marked : ChunkQueue → ℕ → ChunkQueue
marked q k = record q { chunk_returned = marks k }

next_up-marked :
    (q : ChunkQueue) (s : Snapshot) (k : ℕ)
    → q.snapshot ≡ some s
    → next_up (marked q k) ≡ (if ltb k s.chunks then ok k else err done)
unfolding next_up marked Option-elim
next_up-marked q s k open_queue = elim (Bool-cases (ltb k s.chunks)) [
  | inl e ↦ rw (open_queue, first_unset-marks k s.chunks 0 (omega arith) (ground arith), e) refl
  | inr e ↦ let all = first_unset-all k s.chunks 0 (ground arith) in rw (open_queue, all, e) refl
]

load-marked :
    (q : ChunkQueue) (k : ℕ) (works : Works) (i : ℕ) → load works i (marked q k) ≡ load works i q
unfolding load marked
load-marked q k works i = refl

next_start-marked :
    (q : ChunkQueue) (s : Snapshot) (k : ℕ) (c : Chunk)
    → q.snapshot ≡ some s
    → k < s.chunks
    → load true k q ≡ ok (some c)
    → next_start true (marked q k) ≡ (marked q (suc k), ok (got c))
unfolding next_start marked marks Option-elim
next_start-marked q s k c open_queue below loaded =
    let lt : ltb k s.chunks ≡ true = ground arith in
    rw (next_up-marked q s k open_queue, lt, load-marked q k true k, loaded) refl

next_start-all :
    (q : ChunkQueue) (s : Snapshot)
    → q.snapshot ≡ some s
    → (next_start true (marked q s.chunks)).1 ≡ err done
unfolding next_start
next_start-all q s open_queue =
    let lt : ltb s.chunks s.chunks ≡ false = ground arith in
    rw (next_up-marked q s s.chunks open_queue, lt) refl

drained-marked :
    (q : ChunkQueue) (s : Snapshot) (chunk : ℕ → Chunk) (k : ℕ)
    → q.snapshot ≡ some s
    → ((i : ℕ) → i < s.chunks → load true i q ≡ ok (some (chunk i)))
    → k ≤ s.chunks
    → drained k (retry_all q) ≡ marked q k
unfolding drained retry_all marked marks
drained-marked q s chunk zero open_queue there h = refl
drained-marked q s chunk (suc k) open_queue there h =
    ap (λ (t : ChunkQueue). (next_start true t).0)
      (drained-marked q s chunk k open_queue there (omega arith))
    ∙ ap (λ (r : Result Started). r.0)
        (next_start-marked q s k (chunk k) open_queue (omega arith) (there k (omega arith)))

-- After RetryAll on an open queue whose chunks can all be loaded, the calls of Next return the
-- chunks in the order of their indices, each of them once and without a wait, and the call after
-- the last one says that the queue is done.
pub next_start-drains :
    (q : ChunkQueue) (s : Snapshot) (chunk : ℕ → Chunk)
    → q.snapshot ≡ some s
    → ((i : ℕ) → i < s.chunks → load true i q ≡ ok (some (chunk i)))
    → ((k : ℕ) → k < s.chunks → (next_start true (drained k (retry_all q))).1 ≡ ok (got (chunk k)))
      × ((next_start true (drained s.chunks (retry_all q))).1 ≡ err done)
next_start-drains q s chunk open_queue there = (
  λ k below. rw (drained-marked q s chunk k open_queue there (omega (arith, below))) (
      ap (λ (r : Result Started). r.1)
        (next_start-marked q s k (chunk k) open_queue below (there k below))),
  rw (drained-marked q s chunk s.chunks open_queue there (omega arith))
      (next_start-all q s open_queue),
)

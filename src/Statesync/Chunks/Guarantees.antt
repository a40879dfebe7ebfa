-- ===== src/Statesync/Chunks/Guarantees.antt =====
-- The guarantees of the chunk queue (internal/statesync/chunks.go), where no two indices have one path
-- and no path is empty.
use relaychainmodel.Prelude.{
  List, Option, Option-elim, ap, arith, each_option, none, refl, sym, some, true, ℕ, ◌≡◌, ◌≢◌, ◌∙◌,
}
use relaychainmodel.Prelude.Bytes.{Bytes}
use relaychainmodel.Prelude.IndexMap.{put_at}
use relaychainmodel.Prelude.Outcome.{Outcome, ok}
use relaychainmodel.Statesync.Chunks.{
  Chunk, ChunkQueue, QueueError, Result, Snapshot, Works, first_unset, is_set, size,
}
use relaychainmodel.Statesync.Chunks.Next.{
  Signal, Started, arrived, closed, got, load, mark_returned, next_finish, next_start, next_up,
  timeout, waits,
}
use relaychainmodel.Statesync.Chunks.Sound.{Among, IsPaths}
use relaychainmodel.Statesync.Chunks.Adding.{First, first_unset-First}
use relaychainmodel.Statesync.Chunks.Safety.{Calls, Calls-Sound, each_outcome}
use relaychainmodel.Statesync.Chunks.Loading.{load-Among, load-index}
use relaychainmodel.Statesync.Chunks.Allocation.{is_set-put_at, size_of}

-- What Next takes is the first that is not returned.
next_up-First :
    (q : ChunkQueue) (i : ℕ)
    → next_up q ≡ ok i
    → (s : Snapshot) × (q.snapshot ≡ some s) × First q.chunk_returned s.chunks 0 i
unfolding next_up
next_up-First q i =
    let P = λ (o : Outcome QueueError ℕ).
      o ≡ ok i → (s : Snapshot) × (q.snapshot ≡ some s) × First q.chunk_returned s.chunks 0 i in
    each_option P q.snapshot (λ e f. absurd (ground arith))
      (λ s open_queue.
        each_option P (first_unset q.chunk_returned s.chunks 0) (λ e f. absurd (ground arith))
          (λ k e f.
            let same : k ≡ i = ground arith in
            (s, open_queue, first_unset-First q.chunk_returned s.chunks 0 i (e ∙ ap some same))))

-- What Next did where it has something to go on with.
next_start-done :
    (q : ChunkQueue) (works : Works) (r : Started)
    → (next_start works q).1 ≡ ok r
    → (i : ℕ) × (found : Option Chunk) × (next_up q ≡ ok i)
      × (load works i q ≡ ok found)
      × (r ≡ Option-elim found (waits i) got)
      × ((next_start works q).0 ≡ mark_returned i q)
unfolding next_start
next_start-done q works r =
    let P = λ (t : Result Started).
      t.1 ≡ ok r
      → (i : ℕ) × (found : Option Chunk) × (next_up q ≡ ok i)
        × (load works i q ≡ ok found)
        × (r ≡ Option-elim found (waits i) got)
        × (t.0 ≡ mark_returned i q) in
    each_outcome P q (next_up q) (λ e f. absurd (ground arith)) (λ f. absurd (ground arith))
      (λ i up.
        each_outcome P q (load works i q) (λ e f. absurd (ground arith))
          (λ f. absurd (ground arith)) (λ found e f. (i, found, up, e, cc, refl)))

found-got :
    (found : Option Chunk) (i : ℕ) (c : Chunk)
    → got c ≡ Option-elim found (waits i) got
    → found ≡ some c
unfolding Option-elim
found-got none i c h = absurd (ground arith)
found-got (some d) i c h = let same : c ≡ d = cc in ap some (sym same)

module _ (join : Bytes → ℕ → Bytes) where
  -- Through any calls, with failures of the disk in between, a chunk that Next returns without a
  -- wait is one that Add accepted, with the same bytes and sender; it has the first index that is
  -- not marked as returned, and Next marks it and changes nothing else. Different indices have
  -- different paths, and no path is empty.
  pub next_start_sound :
      (l : List Chunk) (q : ChunkQueue) (works : Works) (c : Chunk)
      → IsPaths join
      → Calls join l q
      → (next_start works q).1 ≡ ok (got c)
      → Among c l
        × First q.chunk_returned (size q) 0 c.index
        × ((next_start works q).0 ≡ mark_returned c.index q)
  unfolding size Option-elim size_of
  next_start_sound l q works c paths run e =
      let (i, found, up, loaded, result, after) = next_start-done q works (got c) e in
      let (s, open_queue, first) = next_up-First q i up in
      let this : found ≡ some c = found-got found i c result in
      let (among, index) =
        load-Among join l q works i c (Calls-Sound join paths l q run) (loaded ∙ ap ok this) in
      let chunks : s.chunks ≡ size q = sym (ap size_of open_queue) in
      (among, rw (index, ← chunks) first, rw index after)

  -- Through any calls, with failures of the disk in between, a chunk that Next returns after a wait
  -- is one that Add accepted, it has the index that Next waited for, and Next marks it and changes
  -- nothing else. Different indices have different paths, and no path is empty.
  pub next_finish_sound :
      (l : List Chunk) (q : ChunkQueue) (signal : Signal) (works : Works) (i : ℕ) (c : Chunk)
      → IsPaths join
      → Calls join l q
      → (next_finish signal works i q).1 ≡ ok (some c)
      → Among c l × (c.index ≡ i) × ((next_finish signal works i q).0 ≡ mark_returned i q)
  unfolding next_finish
  next_finish_sound l q (closed) works i c paths run e = absurd (ground arith)
  next_finish_sound l q (timeout) works i c paths run e = absurd (ground arith)
  next_finish_sound l q (arrived) works i c paths run e =
      let h = Calls-Sound join paths l q run in
      let P = λ (t : Result (Option Chunk)).
        t.1 ≡ ok (some c) → Among c l × (c.index ≡ i) × (t.0 ≡ mark_returned i q) in
      each_outcome P q (load works i q) (λ x f. absurd (ground arith)) (λ f. absurd (ground arith))
        (λ found loaded f.
          let (among, index) = load-Among join l q works i c h (loaded ∙ f) in (among, index, refl))
        e

found-waits : (found : Option Chunk) (i j : ℕ) → waits i ≡ Option-elim found (waits j) got → i ≡ j
unfolding Option-elim
found-waits none i j h = cc
found-waits (some d) i j h = absurd (ground arith)

-- A call of Next on a queue in which one has just begun to wait for an index neither waits for that
-- index nor returns its chunk, as the index is marked as returned before the chunk has come.
pub next_start-waits :
    (q : ChunkQueue) (works later : Works) (i : ℕ) (r : Started)
    → (next_start works q).1 ≡ ok (waits i)
    → (next_start later (next_start works q).0).1 ≡ ok r
    → (r ≢ waits i) × ((c : Chunk) → r ≡ got c → c.index ≢ i)
next_start-waits q works later i r e f =
    let (j, found, up, loaded, result, after) = next_start-done q works (waits i) e in
    let (k, found', up', loaded', result', after') =
      next_start-done (next_start works q).0 later r f in
    let (s, open_queue, first) = next_up-First (next_start works q).0 k up' in
    let same : i ≡ j = found-waits found i j result in
    let marked : is_set ((next_start works q).0).chunk_returned k
        ≡ is_set (put_at j true q.chunk_returned) k =
      ap (λ (t : ChunkQueue). is_set t.chunk_returned k) after in
    let other : i ≢ k =
      λ e. let hit = is_set-put_at q.chunk_returned j k in absurd (ground (arith, first.unset)) in
    (
      λ w. other (found-waits found' i k (sym w ∙ result')),
      λ c w at_i. other (
          sym at_i
          ∙ load-index (next_start works q).0 later k c
              (loaded' ∙ ap ok (found-got found' k c (sym w ∙ result')))),
    )

-- ===== src/Statesync/Chunks/Safety.antt =====
-- What the chunk queue returns in every run of calls (internal/statesync/chunks.go), where no two
-- indices have one path and no path is empty.
use relaychainmodel.Prelude.{
  Bool, List, Option, [], arith, each_branch, each_option, leb, refl, true, ℕ, ◌==◌, ◌≡◌,
}
use relaychainmodel.Prelude.Bytes.{Bytes}
use relaychainmodel.Prelude.IndexMap.{IndexMap, IsMap, at-nil, delete, put_at}
use relaychainmodel.Prelude.Outcome.{Outcome, err, ok, panics}
use relaychainmodel.Statesync.Chunks.{
  Chunk, ChunkQueue, Disk, QueueError, Result, Snapshot, Works, Written, add, allocate, close,
  discard, discard_sender, has, new_chunk_queue, retry, retry_all,
}
use relaychainmodel.Statesync.Chunks.Next.{
  Channel, Signal, Started, arrived, closed, load, next_finish, next_start, next_up, on_ok, timeout,
  wait_for,
}
use relaychainmodel.Statesync.Chunks.Sound.{
  IsPaths, Sound, discard-Discarded, Discarded, discard_sender-Sound,
}
use relaychainmodel.Statesync.Chunks.Adding.{add-Sound, allocate-Sound, log_add}

-- The calls of a queue that was made for a snapshot, with the chunks that Add accepted, the last first.
pub data Calls (join : Bytes → ℕ → Bytes) : List Chunk → ChunkQueue → Type 0 where
  made :
      {q : ChunkQueue} (s : Snapshot) (temp : Option Bytes) (disk : Disk)
      → new_chunk_queue s temp disk ≡ ok q
      → Calls join [] q
  adds :
      {l : List Chunk} {q : ChunkQueue} (w : Written) (c : Option Chunk)
      → Calls join l q
      → Calls join (log_add (add join w c q).1 c l) (add join w c q).0
  allocates : {l : List Chunk} {q : ChunkQueue} → Calls join l q → Calls join l (allocate q).0
  closes :
      {l : List Chunk} {q : ChunkQueue} (left : Disk) (works : Works)
      → Calls join l q
      → Calls join l (close left works q).0
  discards :
      {l : List Chunk} {q : ChunkQueue} (works : Works) (i : ℕ)
      → Calls join l q
      → Calls join l (discard works i q).0
  discards_sender :
      {l : List Chunk} {q : ChunkQueue} (works : ℕ → Works) (peer : Bytes) (order : List ℕ)
      → Calls join l q
      → Calls join l (discard_sender works peer order q).0
  starts :
      {l : List Chunk} {q : ChunkQueue} (works : Works)
      → Calls join l q
      → Calls join l (next_start works q).0
  finishes :
      {l : List Chunk} {q : ChunkQueue} (signal : Signal) (works : Works) (i : ℕ)
      → Calls join l q
      → Calls join l (next_finish signal works i q).0
  retries : {l : List Chunk} {q : ChunkQueue} (i : ℕ) → Calls join l q → Calls join l (retry i q)
  retries_all : {l : List Chunk} {q : ChunkQueue} → Calls join l q → Calls join l (retry_all q)
  waits_for :
      {l : List Chunk} {q : ChunkQueue} (ch i : ℕ)
      → Calls join l q
      → Calls join l (wait_for ch i q).0

-- What holds of every end of a call that goes on with a value.
pub each_outcome :
    {A B : Type 0} (P : Result B → Type 0) (q : ChunkQueue) (o : Outcome QueueError A)
    {f : A → Result B}
    → ((e : QueueError) → P (q, err e))
    → P (q, panics)
    → ((a : A) → o ≡ ok a → P (f a))
    → P (on_ok q o f)
each_outcome P q (ok a) h k m = m a refl
each_outcome P q (err e) h k m = h e
each_outcome P q panics h k m = k

module _ (join : Bytes → ℕ → Bytes) (paths : IsPaths join) where
  -- Sound is about the snapshot, the files, the senders, the allocation and the disk.
  marked-Sound :
      (l : List Chunk) (q : ChunkQueue) (m : IndexMap Bool)
      → Sound join l q
      → Sound join l (record q { chunk_returned = m })
  marked-Sound l q m h = record { entries = h.entries; keys = h.keys; all_true = h.all_true }

  start-Sound :
      (l : List Chunk) (q : ChunkQueue) (works : Works)
      → Sound join l q
      → Sound join l (next_start works q).0
  unfolding next_start
  start-Sound l q works h =
      let P : Result Started → Type 0 = λ r. Sound join l r.0 in
      each_outcome P q (next_up q) (λ e. h) h
        (λ i e.
          each_outcome P q (load works i q) (λ e. h) h
            (λ c f. marked-Sound l q (put_at i true q.chunk_returned) h))

  finish-Sound :
      (l : List Chunk) (q : ChunkQueue) (signal : Signal) (works : Works) (i : ℕ)
      → Sound join l q
      → Sound join l (next_finish signal works i q).0
  unfolding next_finish
  finish-Sound l q (closed) works i h = h
  finish-Sound l q (timeout) works i h = h
  finish-Sound l q (arrived) works i h =
      each_outcome (λ (r : Result (Option Chunk)). Sound join l r.0) q (load works i q) (λ e. h) h
        (λ c f. marked-Sound l q (put_at i true q.chunk_returned) h)

  wait_for-Sound :
      (l : List Chunk) (q : ChunkQueue) (ch i : ℕ)
      → Sound join l q
      → Sound join l (wait_for ch i q).0
  unfolding wait_for
  wait_for-Sound l q ch i h =
      let P = λ (r : ChunkQueue × Channel). Sound join l r.0 in
      each_option P q.snapshot (λ e. h)
        (λ s e.
          each_branch P (leb s.chunks i) (λ f. h)
            (λ f.
              each_branch P (has q i) (λ g. h)
                (λ g. record { entries = h.entries; keys = h.keys; all_true = h.all_true })))

  close-Sound :
      (l : List Chunk) (q : ChunkQueue) (left : Disk) (works : Works)
      → Sound join l q
      → Sound join l (close left works q).0
  unfolding close
  close-Sound l q left works h =
      let P : Result (Unit {0}) → Type 0 = λ r. Sound join l r.0 in
      each_option P q.snapshot (λ e. h)
        (λ s e. record {
          entries = λ t f. absurd (ground arith);
          keys = λ t f. absurd (ground arith);
          all_true = h.all_true;
        })

  empty-Sound : (q : ChunkQueue) → q.chunk_files ≡ [] → q.chunk_allocated ≡ [] → Sound join [] q
  unfolding IsMap
  empty-Sound q files allocated = record {
    entries = λ t f i p g. absurd (at-nil q.chunk_files i p files g);
    keys = λ t f. rw allocated tt;
    all_true = λ i b g. absurd (at-nil q.chunk_allocated i b allocated g);
  }

  made-Sound :
      (s : Snapshot) (temp : Option Bytes) (disk : Disk) (q : ChunkQueue)
      → new_chunk_queue s temp disk ≡ ok q
      → Sound join [] q
  unfolding new_chunk_queue
  made-Sound s temp disk q h =
      let P = λ (o : Outcome QueueError ChunkQueue). o ≡ ok q → Sound join [] q in
      each_option P temp (λ e f. absurd (ground arith))
        (λ dir e.
          each_branch P (s.chunks == 0) (λ f g. absurd (ground arith))
            (λ f g. empty-Sound q (ground arith) (ground arith)))
        h

  pub Calls-Sound : (l : List Chunk) (q : ChunkQueue) → Calls join l q → Sound join l q
  unfolding Discarded retry retry_all
  Calls-Sound l q (made s temp disk e) = made-Sound s temp disk q e
  Calls-Sound l q (adds {l = l'} {q = q'} w c run) =
      add-Sound join paths l' q' w c (Calls-Sound l' q' run)
  Calls-Sound l q (allocates {q = q'} run) = allocate-Sound join paths l q' (Calls-Sound l q' run)
  Calls-Sound l q (closes {q = q'} left works run) =
      close-Sound l q' left works (Calls-Sound l q' run)
  Calls-Sound l q (discards {q = q'} works i run) =
      (discard-Discarded join paths l q' works i (Calls-Sound l q' run)).0
  Calls-Sound l q (discards_sender {q = q'} works peer order run) =
      discard_sender-Sound join paths works peer order l q' (Calls-Sound l q' run)
  Calls-Sound l q (starts {q = q'} works run) = start-Sound l q' works (Calls-Sound l q' run)
  Calls-Sound l q (finishes {q = q'} signal works i run) =
      finish-Sound l q' signal works i (Calls-Sound l q' run)
  Calls-Sound l q (retries {q = q'} i run) =
      marked-Sound l q' (delete i q'.chunk_returned) (Calls-Sound l q' run)
  Calls-Sound l q (retries_all {q = q'} run) = marked-Sound l q' [] (Calls-Sound l q' run)
  Calls-Sound l q (waits_for {q = q'} ch i run) = wait_for-Sound l q' ch i (Calls-Sound l q' run)

-- ===== src/Statesync/Chunks/Next.antt =====
-- Reading the chunk queue: load, Next and WaitFor of internal/statesync/chunks.go. Next is split where
-- it waits.
use relaychainmodel.Prelude.{
  Option, Option-elim, [], if◌then◌else◌, leb, none, some, true, ℕ, ◌++◌, ◌∷◌,
}
use relaychainmodel.Prelude.IndexMap.{at, put_at}
use relaychainmodel.Prelude.Outcome.{Outcome, err, ok, panics}
use relaychainmodel.Statesync.Chunks.{
  Chunk, ChunkQueue, QueueError, Result, Works, has, first_unset, done, timed_out, load_failed,
}

-- `load`: a missing file is an error, and so is one that cannot be read. The snapshot of a closed
-- queue is dereferenced.
unfoldable pub load : Works → ℕ → ChunkQueue → Outcome QueueError (Option Chunk)
load works i q = Option-elim (at i q.chunk_files) (ok none) (λ path.
    Option-elim (if works then q.disk path else none) (err load_failed) (λ body.
      Option-elim q.snapshot panics (λ s. ok (
        some (record {
          height = s.height;
          format = s.format;
          index = i;
          chunk = some body;
          sender = Option-elim (at i q.chunk_senders) [] (λ p. p);
        })))))

-- `nextUp`
unfoldable pub next_up : ChunkQueue → Outcome QueueError ℕ
unfolding first_unset
next_up q =
    Option-elim q.snapshot (err done)
      (λ s. Option-elim (first_unset q.chunk_returned s.chunks 0) (err done) ok)

-- The call goes on with a value; an error or a panic is the result.
abbrev pub on_ok : {A B : Type 0} → ChunkQueue → Outcome QueueError A → (A → Result B) → Result B
on_ok q (ok a) f = f a
on_ok q (err e) f = (q, err e)
on_ok q panics f = (q, panics)

-- What Next has when it first lets go of the lock: a chunk, or an index to wait for.
pub data Started : Type 0 where
  got : Chunk → Started
  waits : ℕ → Started

abbrev pub mark_returned : ℕ → ChunkQueue → ChunkQueue
mark_returned i q = record q { chunk_returned = put_at i true q.chunk_returned }

-- `Next` up to the wait
unfoldable pub next_start : Works → ChunkQueue → Result Started
unfolding load next_up
next_start works q = on_ok q (next_up q) (λ i.
    on_ok q (load works i q) (λ found. (mark_returned i q, ok (Option-elim found (waits i) got))))

-- How the wait of Next ends.
pub data Signal : Type 0 where
  arrived closed timeout : Signal

-- `Next` after the wait
unfoldable pub next_finish : Signal → Works → ℕ → ChunkQueue → Result (Option Chunk)
unfolding load
next_finish closed works i q = (q, err done)
next_finish timeout works i q = (q, err timed_out)
next_finish arrived works i q = on_ok q (load works i q) (λ found. (mark_returned i q, ok found))

-- What a new channel of WaitFor holds: nothing yet, the index, or the end.
pub data Channel : Type 0 where
  open_channel ended : Channel
  holds_index : ℕ → Channel

-- `WaitFor` with the number of the new channel
unfoldable pub wait_for : ℕ → ℕ → ChunkQueue → ChunkQueue × Channel
unfolding has
wait_for ch i q =
    Option-elim q.snapshot (q, ended)
      (λ s. if leb s.chunks i then (q, ended) else if has q i then (q, holds_index i) else (
        record q {
          waiters = put_at i (Option-elim (at i q.waiters) [] (λ w. w) ++ (ch ∷ [])) q.waiters;
        },
        open_channel,
      ))

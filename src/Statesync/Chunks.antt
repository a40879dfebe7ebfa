-- ===== src/Statesync/Chunks.antt =====
-- The queue of the chunks of a snapshot: internal/statesync/chunks.go. A call gives the queue and its
-- result. The disk is the contents of its paths, and what the operating system does to it is an
-- argument. Locks are left out.
pub mod Next
pub mod Sound
pub mod Adding
pub mod Safety
pub mod Loading
pub mod Allocation
pub mod Guarantees
pub mod Draining
mod Tests
use relaychainmodel.Prelude.{
  Bool, List, Option, Option-elim, [], false, if◌then◌else◌, leb, length, none, not, some, suc,
  true, zero, ℕ, ◌&&◌, ◌++◌, ◌+◌, ◌==◌, ◌∷◌,
}
use relaychainmodel.Prelude.Bytes.{Bytes, bytes_eq}
use relaychainmodel.Types.BlockId.{is_empty}
use relaychainmodel.Prelude.IndexMap.{IndexMap, at, put_at, delete}
use relaychainmodel.Prelude.Outcome.{Outcome, err, ok, panics}

pub record Snapshot : Type 0 where
  pub height : ℕ  -- uint64
  pub format : ℕ  -- uint32
  pub chunks : ℕ  -- uint32
  pub hash : Bytes
  pub metadata : Bytes

-- The bytes of `none` are nil.
pub record Chunk : Type 0 where
  pub height : ℕ
  pub format : ℕ
  pub index : ℕ
  pub chunk : Option Bytes
  pub sender : Bytes

abbrev pub Disk : Type 0
Disk = Bytes → Option Bytes

-- The waiters of an index are the channels to signal, by number.
pub record ChunkQueue : Type 0 where
  pub snapshot : Option Snapshot
  pub dir : Bytes
  pub chunk_files : IndexMap Bytes
  pub chunk_senders : IndexMap Bytes
  pub chunk_allocated : IndexMap Bool
  pub chunk_returned : IndexMap Bool
  pub waiters : IndexMap (List ℕ)
  pub disk : Disk

pub data QueueError : Type 0 where
  done timed_out no_temp_dir no_chunks nil_chunk wrong_height wrong_format unexpected_chunk
        save_failed :
      QueueError
  remove_failed clean_failed load_failed : QueueError

abbrev pub Result : Type 0 → Type 0
Result A = ChunkQueue × Outcome QueueError A

-- What is at a path after a write: the bytes, or what a failing write leaves.
pub data Written : Type 0 where
  written : Written
  broken : Option Bytes → Written

-- Whether ReadFile works on a file that is there, or Remove on any file.
abbrev pub Works : Type 0
Works = Bool

unfoldable pub write_at : Bytes → Option Bytes → Disk → Disk
write_at path content disk = λ p. if bytes_eq path p then content else disk p

-- `newChunkQueue` with what TempDir returns.
unfoldable pub new_chunk_queue : Snapshot → Option Bytes → Disk → Outcome QueueError ChunkQueue
new_chunk_queue snapshot temp disk = Option-elim temp (err no_temp_dir) (λ dir.
    if snapshot.chunks == 0
    then err no_chunks
    else ok (record {
      snapshot = some snapshot;
      dir = dir;
      chunk_files = [];
      chunk_senders = [];
      chunk_allocated = [];
      chunk_returned = [];
      waiters = [];
      disk = disk;
    }))

-- The zero values of missing entries.
abbrev pub path_of : ChunkQueue → ℕ → Bytes
path_of q i = Option-elim (at i q.chunk_files) [] (λ p. p)

abbrev pub is_set : IndexMap Bool → ℕ → Bool
is_set m i = Option-elim (at i m) false (λ b. b)

-- `Has`
unfoldable pub has : ChunkQueue → ℕ → Bool
has q i = not (is_empty (path_of q i))

-- `GetSender`
unfoldable pub get_sender : ChunkQueue → ℕ → Bytes
get_sender q i = Option-elim (at i q.chunk_senders) [] (λ p. p)

-- `Size`
unfoldable pub size : ChunkQueue → ℕ
size q = Option-elim q.snapshot 0 (λ s. s.chunks)

abbrev count_true : IndexMap Bool → ℕ
count_true [] = 0
count_true (entry ∷ rest) = let n = count_true rest in if entry.1 then suc n else n

-- `numChunksReturned`
unfoldable pub num_chunks_returned : ChunkQueue → ℕ
num_chunks_returned q = count_true q.chunk_returned

-- The first of a number of indices, from one on, that is not set.
unfoldable pub first_unset : IndexMap Bool → ℕ → ℕ → Option ℕ
first_unset m zero i = none
first_unset m (suc n) i =
    let rest = first_unset m n (i + 1) in if not (is_set m i) then some i else rest

-- `Add` from the write on. The channels of the index are signalled and closed.
unfoldable pub save : Written → Bytes → Bytes → Chunk → ChunkQueue → Result Bool
unfolding write_at
save (broken left) path bytes c q = (record q { disk = write_at path left q.disk }, err save_failed)
save written path bytes c q = (
  record q {
    disk = write_at path (some bytes) q.disk;
    chunk_files = put_at c.index path q.chunk_files;
    chunk_senders = put_at c.index c.sender q.chunk_senders;
    waiters = delete c.index q.waiters;
  },
  ok true,
)

module _ (join : Bytes → ℕ → Bytes) where
  -- `Add`, where `join` gives the path of a chunk.
  unfoldable pub add : Written → Option Chunk → ChunkQueue → Result Bool
  unfolding has save
  add w none q = (q, err nil_chunk)
  add w (some c) q =
      Option-elim c.chunk (q, err nil_chunk)
        (λ bytes.
          Option-elim q.snapshot (q, ok false)
            (λ s.
              if not (c.height == s.height)
              then (q, err wrong_height)
              else if not (c.format == s.format)
              then (q, err wrong_format)
              else if leb s.chunks c.index
              then (q, err unexpected_chunk)
              else if has q c.index
              then (q, ok false)
              else save w (join q.dir c.index) bytes c q))

-- `Allocate`
unfoldable pub allocate : ChunkQueue → Result ℕ
unfolding first_unset
allocate q =
    Option-elim q.snapshot (q, err done)
      (λ s.
        if leb s.chunks (length q.chunk_allocated)
        then (q, err done)
        else Option-elim (first_unset q.chunk_allocated s.chunks 0) (q, err done)
            (λ i. (record q { chunk_allocated = put_at i true q.chunk_allocated }, ok i)))

-- `Close` with what RemoveAll leaves of the disk, and whether it worked.
unfoldable pub close : Disk → Works → ChunkQueue → Result (Unit {0})
close left works q =
    Option-elim q.snapshot (q, ok tt)
      (λ s. (
        record q { waiters = []; snapshot = none; disk = left },
        if works then ok tt else err clean_failed,
      ))

-- `Discard`
unfoldable pub discard : Works → ℕ → ChunkQueue → Result (Unit {0})
unfolding write_at
discard works i q =
    Option-elim q.snapshot (q, ok tt)
      (λ s.
        let path = path_of q i in
        if is_empty path then (q, ok tt) else if not works then (q, err remove_failed) else (
          record q {
            disk = write_at path none q.disk;
            chunk_files = delete i q.chunk_files;
            chunk_returned = delete i q.chunk_returned;
            chunk_allocated = delete i q.chunk_allocated;
          },
          ok tt,
        ))

-- The rest of the loop of DiscardSender, once the chunk of an index was discarded.
abbrev forget_sender : ℕ → (ChunkQueue → Result (Unit {0})) → Result (Unit {0}) → Result (Unit {0})
forget_sender i rest (q, ok u) = rest (record q { chunk_senders = delete i q.chunk_senders })
forget_sender i rest (q, err e) = (q, err e)
forget_sender i rest (q, panics) = (q, panics)

-- `DiscardSender` over the indices that have a sender, in the order of the range. Whether a removal
-- works depends on the index.
unfoldable pub discard_sender : (ℕ → Works) → Bytes → List ℕ → ChunkQueue → Result (Unit {0})
unfolding discard
discard_sender works peer [] q = (q, ok tt)
discard_sender works peer (i ∷ is) q =
    let rest = discard_sender works peer is in
    Option-elim (at i q.chunk_senders) (rest q) (λ sender.
      if bytes_eq sender peer && not (is_set q.chunk_returned i)
      then forget_sender i rest (discard (works i) i q)
      else rest q)

-- `Retry`
unfoldable pub retry : ℕ → ChunkQueue → ChunkQueue
retry i q = record q { chunk_returned = delete i q.chunk_returned }

-- `RetryAll`
unfoldable pub retry_all : ChunkQueue → ChunkQueue
retry_all q = record q { chunk_returned = [] }

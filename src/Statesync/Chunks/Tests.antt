-- ===== src/Statesync/Chunks/Tests.antt =====
-- A queue of two chunks, and the theorems at its calls. A path is the directory and the index.
use relaychainmodel.Prelude.{
  Option-elim, [], arith, none, refl, some, suc, true, zero, ℕ, ◌+◌, ◌<◌, ◌∷◌, ◌≡◌, ◌≢◌, ◌⊎◌,
}
use relaychainmodel.Prelude.Bytes.{Bytes, bytes_eq}
use relaychainmodel.Prelude.IndexMap.{at, delete, put_at}
use relaychainmodel.Prelude.Outcome.{err, ok}
use relaychainmodel.Statesync.Chunks.{
  Chunk, ChunkQueue, Disk, Snapshot, add, allocate, done, first_unset, has, is_set, new_chunk_queue,
  retry_all, save, size, write_at, written,
}
use relaychainmodel.Statesync.Chunks.Next.{
  arrived, got, load, mark_returned, next_finish, next_start, next_up, waits,
}
use relaychainmodel.Statesync.Chunks.Sound.{Among, IsPaths}
use relaychainmodel.Statesync.Chunks.Adding.{First}
use relaychainmodel.Statesync.Chunks.Safety.{Calls}
use relaychainmodel.Statesync.Chunks.Guarantees.{
  next_finish_sound, next_start_sound, next_start-waits,
}
use relaychainmodel.Statesync.Chunks.Loading.{add-load}
use relaychainmodel.Statesync.Chunks.Allocation.{allocate_exact}
use relaychainmodel.Statesync.Chunks.Draining.{drained, next_start-drains}

abbrev join : Bytes → ℕ → Bytes
join dir i = i ∷ dir

join-IsPaths : IsPaths join
join-IsPaths = (λ dir i j e. cc, λ dir i. ground arith)

abbrev two_chunks : Snapshot
two_chunks = record { height = 7; format = 1; chunks = 2; hash = 5 ∷ []; metadata = [] }

abbrev chunk_at : ℕ → Chunk
chunk_at i = record {
  height = 7;
  format = 1;
  index = i;
  chunk = some ((10 + i) ∷ []);
  sender = 9 ∷ [];
}

abbrev empty_disk : Disk
empty_disk = λ p. none

abbrev new_queue : ChunkQueue
new_queue = record {
  snapshot = some two_chunks;
  dir = 3 ∷ [];
  chunk_files = [];
  chunk_senders = [];
  chunk_allocated = [];
  chunk_returned = [];
  waiters = [];
  disk = empty_disk;
}

all_calls : Unit {0}
unfolding Option-elim add allocate load next_start next_up next_finish save write_at first_unset at
    put_at delete has size drained retry_all new_chunk_queue bytes_eq
all_calls = tt

with_0 : ChunkQueue
unfolding all_calls
with_0 = (add join written (some (chunk_at 0)) new_queue).0

with_both : ChunkQueue
unfolding all_calls with_0
with_both = (add join written (some (chunk_at 1)) with_0).0

new_queue-Calls : Calls join [] new_queue
unfolding all_calls
new_queue-Calls = Calls.made two_chunks (some (3 ∷ [])) empty_disk refl

with_0-Calls : Calls join (chunk_at 0 ∷ []) with_0
unfolding all_calls with_0
with_0-Calls = Calls.adds written (some (chunk_at 0)) new_queue-Calls

-- An empty queue waits for the first chunk, and then for the second one.
waits_twice :
    ((next_start true new_queue).1 ≡ ok (waits 0))
    × ((next_start true (next_start true new_queue).0).1 ≡ ok (waits 1))
unfolding all_calls
waits_twice = (refl, refl)

add-load_example : load true 1 with_both ≡ ok (some (chunk_at 1))
unfolding all_calls with_0 with_both
add-load_example = add-load join with_0 with_both (chunk_at 1) refl

allocate_exact_example :
    ((i : ℕ) × (allocate with_0
        ≡ (record with_0 { chunk_allocated = put_at i true with_0.chunk_allocated }, ok i))
      × First with_0.chunk_allocated (size with_0) 0 i)
    ⊎ ((allocate with_0 ≡ (with_0, err done))
        × ((j : ℕ) → j < size with_0 → is_set with_0.chunk_allocated j ≡ true))
allocate_exact_example = allocate_exact join (chunk_at 0 ∷ []) with_0 join-IsPaths with_0-Calls

next_start_sound_example :
    Among (chunk_at 0) (chunk_at 0 ∷ [])
    × First with_0.chunk_returned (size with_0) 0 0
    × ((next_start true with_0).0 ≡ mark_returned 0 with_0)
unfolding all_calls with_0
next_start_sound_example =
    next_start_sound join (chunk_at 0 ∷ []) with_0 true (chunk_at 0) join-IsPaths with_0-Calls refl

next_finish_sound_example :
    Among (chunk_at 0) (chunk_at 0 ∷ [])
    × (◌≡◌ {A = ℕ} 0 0)
    × ((next_finish arrived true 0 with_0).0 ≡ mark_returned 0 with_0)
unfolding all_calls with_0
next_finish_sound_example =
    next_finish_sound join (chunk_at 0 ∷ []) with_0 arrived true 0 (chunk_at 0) join-IsPaths
      with_0-Calls refl

next_start-waits_example : (waits 1 ≢ waits 0) × ((c : Chunk) → waits 1 ≡ got c → c.index ≢ 0)
unfolding all_calls
next_start-waits_example = next_start-waits new_queue true true 0 (waits 1) refl refl

both_load : (i : ℕ) → i < 2 → load true i with_both ≡ ok (some (chunk_at i))
unfolding all_calls with_0 with_both
both_load zero h = refl
both_load (suc zero) h = refl
both_load (suc (suc i)) h = absurd (omega arith)

next_start-drains_example :
    ((k : ℕ)
      → k < 2
      → (next_start true (drained k (retry_all with_both))).1 ≡ ok (got (chunk_at k)))
    × ((next_start true (drained 2 (retry_all with_both))).1 ≡ err done)
unfolding all_calls with_0 with_both
next_start-drains_example = next_start-drains with_both two_chunks chunk_at refl both_load

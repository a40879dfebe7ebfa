-- ===== src/Statesync/Chunks/Allocation.antt =====
-- What Allocate of the chunk queue gives out (internal/statesync/chunks.go).
use relaychainmodel.Prelude.{
  Bool, Bool-cases, List, Option, Option-elim, Option-cases, ap, arith, each_branch, each_option,
  if◌then◌else◌, inl, inr, leb, leb→le, length, refl, sym, some, true, ℕ, ◌<◌, ◌==◌, ◌≡◌, ◌⊎◌,
}
use relaychainmodel.Prelude.Bytes.{Bytes}
use relaychainmodel.Prelude.IndexMap.{IndexMap, IsMap-full, at, at-put_at, put_at}
use relaychainmodel.Prelude.Outcome.{err, ok}
use relaychainmodel.Statesync.Chunks.{
  Chunk, ChunkQueue, Result, Snapshot, allocate, done, first_unset, is_set, size,
}
use relaychainmodel.Statesync.Chunks.Sound.{IsPaths, Sound}
use relaychainmodel.Statesync.Chunks.Adding.{First, first_unset-First, first_unset-none}
use relaychainmodel.Statesync.Chunks.Safety.{Calls, Calls-Sound}

pub is_set-put_at :
    (m : IndexMap Bool) (i j : ℕ)
    → is_set (put_at i true m) j ≡ (if i == j then true else is_set m j)
unfolding Option-elim
is_set-put_at m i j = elim (Bool-cases (i == j)) [
  | inl e ↦ rw (at-put_at i j true m, e) refl
  | inr e ↦ rw (at-put_at i j true m, e) refl
]

unfoldable pub size_of : Option Snapshot → ℕ
size_of o = Option-elim o 0 (λ s. s.chunks)

-- As many entries as chunks: all are allocated.
all_allocated :
    (join : Bytes → ℕ → Bytes) (l : List Chunk) (q : ChunkQueue) (s : Snapshot)
    → Sound join l q
    → q.snapshot ≡ some s
    → leb s.chunks (length q.chunk_allocated) ≡ true
    → (j : ℕ) → j < s.chunks
    → is_set q.chunk_allocated j ≡ true
unfolding Option-elim
all_allocated join l q s h e full j below = elim (Option-cases (at j q.chunk_allocated)) [
  | inl missing ↦ absurd (
      IsMap-full s.chunks j true q.chunk_allocated (h.keys s e)
        (leb→le s.chunks (length q.chunk_allocated) full) below missing)
  | inr (b, there) ↦ rw there (h.all_true j b there)
]

module _ (join : Bytes → ℕ → Bytes) where
  -- Through any calls, Allocate gives the first index that is not allocated and marks it, or, if it
  -- says that it is done, every index of the queue is allocated. Different indices have different
  -- paths, and no path is empty.
  pub allocate_exact :
      (l : List Chunk) (q : ChunkQueue)
      → IsPaths join
      → Calls join l q
      → ((i : ℕ) × (allocate q
            ≡ (record q { chunk_allocated = put_at i true q.chunk_allocated }, ok i))
          × First q.chunk_allocated (size q) 0 i)
        ⊎ ((allocate q ≡ (q, err done))
            × ((j : ℕ) → j < size q → is_set q.chunk_allocated j ≡ true))
  unfolding allocate size Option-elim size_of
  allocate_exact l q paths run =
      let h = Calls-Sound join paths l q run in
      let m = q.chunk_allocated in
      let P = λ (r : Result ℕ).
        ((i : ℕ) × (r ≡ (record q { chunk_allocated = put_at i true m }, ok i))
          × First m (size q) 0 i)
        ⊎ ((r ≡ (q, err done)) × ((j : ℕ) → j < size q → is_set m j ≡ true)) in
      each_option P q.snapshot
        (λ e. inr (refl, λ j below. absurd (omega (arith, ap size_of e, below))))
        (λ s e.
          let same : s.chunks ≡ size q = sym (ap size_of e) in
          each_branch P (leb s.chunks (length m))
            (λ full.
              inr
                (refl, λ j below. all_allocated join l q s h e full j (omega (arith, same, below))))
            (λ f.
              each_option P (first_unset m s.chunks 0)
                (λ g. inr (
                  refl,
                  λ j below.
                      first_unset-none m s.chunks 0 j g (omega arith) (omega (arith, same, below)),
                ))
                (λ i g. inl (i, refl, rw (← same) (first_unset-First m s.chunks 0 i g)))))

-- ===== src/Statesync/Chunks/Loading.antt =====
-- Chunks that the queue loads (internal/statesync/chunks.go) were added.
use relaychainmodel.Prelude.{
  Bool, List, Option, Option-elim, [], ap, arith, each_branch, each_option, if◌then◌else◌, leb,
  ==_iff, none, not, refl, subst, sym, some, true, ℕ, ◌==◌, ◌≡◌, ◌∙◌,
}
use relaychainmodel.Prelude.Bytes.{Bytes, bytes_eq_iff}
use relaychainmodel.Prelude.IndexMap.{at, at-put_at}
use relaychainmodel.Prelude.Outcome.{Outcome, ok}
use relaychainmodel.Statesync.Chunks.{
  Chunk, ChunkQueue, QueueError, Result, Snapshot, Works, add, has, save, write_at, written,
}
use relaychainmodel.Statesync.Chunks.Next.{load}
use relaychainmodel.Statesync.Chunks.Sound.{Among, Sound, chunk_of}

-- A loaded chunk was added.
pub load-Among :
    (join : Bytes → ℕ → Bytes) (l : List Chunk) (q : ChunkQueue) (works : Works) (i : ℕ) (c : Chunk)
    → Sound join l q
    → load works i q ≡ ok (some c)
    → Among c l × (c.index ≡ i)
unfolding load Option-elim
load-Among join l q works i c h =
    let P =
      λ (o : Outcome QueueError (Option Chunk)). o ≡ ok (some c) → Among c l × (c.index ≡ i) in
    each_option P (at i q.chunk_files) (λ e f. absurd (ground arith))
      (λ p at_i.
        each_option P (if works then q.disk p else none) (λ e f. absurd (ground arith))
          (λ body read.
            each_option P q.snapshot (λ e f. absurd (ground arith))
              (λ s open_queue f.
                let entry = h.entries s open_queue i p at_i in
                let same_body : entry.body ≡ body = ground (arith, entry.stored) in
                let same_sender : entry.sender ≡ Option-elim (at i q.chunk_senders) [] (λ x. x) =
                  sym (ap (λ o. Option-elim o [] (λ x. x)) entry.sent) in
                let found : chunk_of s i body (Option-elim (at i q.chunk_senders) [] (λ x. x)) ≡ c =
                  cc in
                let whole : chunk_of s i entry.body entry.sender ≡ c =
                  (λ k. chunk_of s i (same_body k) (same_sender k)) ∙ found in
                (
                  (entry.logged.0, entry.logged.1 ∙ ap some whole),
                  sym (ap (λ (d : Chunk). d.index) whole),
                ))))

pub load-index :
    (q : ChunkQueue) (works : Works) (i : ℕ) (c : Chunk)
    → load works i q ≡ ok (some c)
    → c.index ≡ i
unfolding load
load-index q works i c =
    let P = λ (o : Outcome QueueError (Option Chunk)). o ≡ ok (some c) → c.index ≡ i in
    each_option P (at i q.chunk_files) (λ e f. absurd (ground arith))
      (λ p at_i.
        each_option P (if works then q.disk p else none) (λ e f. absurd (ground arith))
          (λ body read.
            each_option P q.snapshot (λ e f. absurd (ground arith)) (λ s e f. ground arith)))

module _ (join : Bytes → ℕ → Bytes) where
  saved-load :
      (q : ChunkQueue) (s : Snapshot) (c : Chunk) (bytes path : Bytes)
      → q.snapshot ≡ some s
      → c.chunk ≡ some bytes
      → s.height ≡ c.height
      → s.format ≡ c.format
      → load true c.index (save written path bytes c q).0 ≡ ok (some c)
  unfolding save load write_at Option-elim
  saved-load q s c bytes path open_queue full height format =
      rw
        (
          at-put_at c.index c.index path q.chunk_files,
          at-put_at c.index c.index c.sender q.chunk_senders,
          (==_iff c.index c.index).1 refl,
          (bytes_eq_iff path path).1 refl,
          open_queue,
        )
        (λ k. ok (
          some (record {
            height = height k;
            format = format k;
            index = c.index;
            chunk = sym full k;
            sender = c.sender;
          })))

  -- If Add accepts a chunk, then the queue loads the same chunk at the chunk's index, with its
  -- height, format, bytes and sender, where the file can be read.
  pub add-load :
      (q q' : ChunkQueue) (c : Chunk)
      → add join written (some c) q ≡ (q', ok true)
      → load true c.index q' ≡ ok (some c)
  unfolding add
  add-load q q' c =
      let P = λ (r : Result Bool). r ≡ (q', ok true) → load true c.index q' ≡ ok (some c) in
      each_option P c.chunk (λ e f. absurd (ground arith))
        (λ bytes full.
          each_option P q.snapshot (λ e f. absurd (ground arith))
            (λ s open_queue.
              each_branch P (not (c.height == s.height)) (λ f g. absurd (ground arith))
                (λ height.
                  each_branch P (not (c.format == s.format)) (λ f g. absurd (ground arith))
                    (λ format.
                      each_branch P (leb s.chunks c.index) (λ f g. absurd (ground arith))
                        (λ below.
                          each_branch P (has q c.index) (λ f g. absurd (ground arith))
                            (λ free e.
                              subst (λ (r : ChunkQueue). load true c.index r ≡ ok (some c))
                                (ap (λ (r : Result Bool). r.0) e)
                                (saved-load q s c bytes (join q.dir c.index) open_queue full
                                  (ground arith) (ground arith))))))))

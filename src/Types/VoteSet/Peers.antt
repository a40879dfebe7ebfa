-- ===== src/Types/VoteSet/Peers.antt =====
-- What peers claim: SetPeerMaj23 of types/vote_set.go.
use relaychainmodel.Prelude.{Bool, if◌then◌else◌, none, some, true}
use relaychainmodel.Prelude.Bytes.{Bytes}
use relaychainmodel.Prelude.Map.{insert, lookup}
use relaychainmodel.Types.BlockId.{BlockId, equals}
use relaychainmodel.Types.Vote.{Crypto}
use relaychainmodel.Types.ValidatorSet.{size}
use relaychainmodel.Types.VoteSet.{VoteSet, new_block_votes, key}

module _ (k : Crypto) where
  -- `SetPeerMaj23`: the set, and whether there was no error.
  unfoldable pub set_peer_maj23 : VoteSet → Bytes → BlockId → VoteSet × Bool
  unfolding new_block_votes equals
  set_peer_maj23 s peer block_id = elim (lookup peer s.peer_maj23s) [
    | some existing ↦ (s, equals existing block_id)
    | none ↦
        let s' = record s { peer_maj23s = insert peer block_id s.peer_maj23s } in
        let block_key = key k block_id in
        elim (lookup block_key s.votes_by_block) [
          | some b ↦ (
            if b.peer_maj23 then s' else record s' {
              votes_by_block = insert block_key (record b { peer_maj23 = true }) s.votes_by_block;
            },
            true,
          )
          | none ↦ (
            record s' {
              votes_by_block =
                  insert block_key (new_block_votes true (size s.val_set)) s.votes_by_block;
            },
            true,
          )
        ]
  ]

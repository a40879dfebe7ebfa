-- ===== src/Merkle/Fixtures.antt =====
-- A toy hash for the tests of Merkle trees.
use relaychainmodel.Prelude.{[], refl, replicate, ℕ, ◌%◌, ◌*◌, ◌+◌, ◌∷◌}
use relaychainmodel.Prelude.Bytes.{Bytes}
use relaychainmodel.Merkle.Soundness.{IsSized}

-- A hash of 32 bytes: a weighted sum of the bytes, and zeros.
abbrev weigh : Bytes → ℕ
weigh [] = 1
weigh (x ∷ xs) = (x + 3 * weigh xs) % 65521

abbrev pub toy : Bytes → Bytes
toy b = weigh b ∷ replicate 31 0

pub toy-IsSized : IsSized toy
toy-IsSized b = refl

-- ===== src/Merkle/KeyPath/Tests.antt =====
-- Runs of key paths.
use relaychainmodel.Merkle.KeyPath.Roundtrip.{AllEncodable, key_path_to_keys-string}
use relaychainmodel.Prelude.{arith, List, [], refl, ◌∷◌, ◌≡◌}
use relaychainmodel.Prelude.Bytes.{Bytes}
use relaychainmodel.Prelude.Outcome.{err, ok}
use relaychainmodel.Merkle.KeyPath.{
  Key, bad_url, hex, hex_part, key_path_string, key_path_to_keys, no_slash, url,
}

abbrev path : List Key
path = record { name = 65 ∷ 47 ∷ []; enc = url } ∷ record { name = 1 ∷ 171 ∷ []; enc = hex } ∷ []

-- The string of the path is `/A%2F/x:01AB`.
path_string :
    key_path_string path ≡ ok (47 ∷ 65 ∷ 37 ∷ 50 ∷ 70 ∷ 47 ∷ 120 ∷ 58 ∷ 48 ∷ 49 ∷ 65 ∷ 66 ∷ [])
unfolding key_path_string
path_string = refl

path_keys :
    key_path_to_keys (47 ∷ 65 ∷ 37 ∷ 50 ∷ 70 ∷ 47 ∷ 120 ∷ 58 ∷ 48 ∷ 49 ∷ 65 ∷ 66 ∷ [])
    ≡ ok ((65 ∷ 47 ∷ []) ∷ (1 ∷ 171 ∷ []) ∷ [])
unfolding key_path_to_keys
path_keys = refl

refused :
    (key_path_to_keys [] ≡ err no_slash)
    × (key_path_to_keys (47 ∷ 65 ∷ 47 ∷ 37 ∷ []) ≡ err (bad_url 1))
unfolding key_path_to_keys
refused = (refl, refl)

-- A key whose name is `x:01`, to be encoded as in a URL, has the string `/x:01`, which is read as the
-- one byte 1.
hex_like_key :
    (key_path_string (record { name = 120 ∷ 58 ∷ 48 ∷ 49 ∷ []; enc = url } ∷ [])
      ≡ ok (47 ∷ 120 ∷ 58 ∷ 48 ∷ 49 ∷ []))
    × (key_path_to_keys (47 ∷ 120 ∷ 58 ∷ 48 ∷ 49 ∷ []) ≡ ok ((1 ∷ []) ∷ []))
unfolding key_path_string key_path_to_keys
hex_like_key = (refl, refl)

path-AllEncodable : AllEncodable path
unfolding hex_part
path-AllEncodable =
    (((omega arith, (omega arith, tt)), refl), (((omega arith, (omega arith, tt)), tt), tt))

key_path_to_keys-string_example :
    (s : Bytes) × (key_path_string path ≡ ok s)
    × (key_path_to_keys s ≡ ok ((65 ∷ 47 ∷ []) ∷ (1 ∷ 171 ∷ []) ∷ []))
key_path_to_keys-string_example =
    key_path_to_keys-string (record { name = 65 ∷ 47 ∷ []; enc = url })
      (record { name = 1 ∷ 171 ∷ []; enc = hex } ∷ []) path-AllEncodable

-- ===== src/Merkle/KeyPath/Roundtrip.antt =====
-- `KeyPathToKeys` reads the string of a key path back.
use relaychainmodel.Prelude.{
  Bool-cases, List, [], ap, arith, false, inl, inr, map, none, refl, some, ℕ, ◌%◌, ◌*◌, ◌++◌, ◌+◌,
  ◌/◌, ◌<◌, ◌==◌, ◌∙◌, ◌∷◌, ◌≡◌,
}
use relaychainmodel.Prelude.Bytes.{Bytes}
use relaychainmodel.Prelude.Outcome.{ok}
use mathlib.Core.List.{append-nil}
use relaychainmodel.Merkle.KeyPath.{
  Key, KeyEncoding, colon, hex, hex_byte, hex_decode, hex_digit, hex_part, hex_upper, hex_value,
  key_path_string, key_path_to_keys, key_string, letter_x, max, part_to_key, parts_to_keys,
  path_escape, path_unescape, percent, prepend, should_escape, slash, split, url,
}

-- Bytes are below 256.
abbrev pub AllBytes : Bytes → Type 0
AllBytes [] = Unit {0}
AllBytes (b ∷ bs) = (b < 256) × AllBytes bs

abbrev NoSlash : Bytes → Type 0
NoSlash [] = Unit {0}
NoSlash (b ∷ bs) = ((b == slash) ≡ false) × NoSlash bs

hex_value-digit : (d : ℕ) → d < 16 → hex_value (hex_digit d) ≡ some d
unfolding hex_value hex_digit
hex_value-digit d h = ground arith

hex_digit-NoSlash : (d : ℕ) → d < 16 → (hex_digit d == slash) ≡ false
unfolding hex_digit
hex_digit-NoSlash d h = ground arith

hex_byte-digits : (b : ℕ) → b < 256 → hex_byte (hex_digit (b / 16)) (hex_digit (b % 16)) ≡ some b
unfolding hex_byte
hex_byte-digits b h =
    let hi = hex_value-digit (b / 16) (omega arith) in
    let lo = hex_value-digit (b % 16) (omega arith) in
    let e : 16 * (b / 16) + b % 16 ≡ b = omega arith in rw (hi, lo, e) refl

hex_decode-upper : (bs : Bytes) → AllBytes bs → hex_decode (hex_upper bs) ≡ some bs
unfolding hex_decode hex_upper
hex_decode-upper [] h = refl
hex_decode-upper (b ∷ bs) (h, hs) = rw (hex_byte-digits b h, hex_decode-upper bs hs) refl

hex_upper-NoSlash : (bs : Bytes) → AllBytes bs → NoSlash (hex_upper bs)
unfolding hex_upper
hex_upper-NoSlash [] h = tt
hex_upper-NoSlash (b ∷ bs) (h, hs) = (
  hex_digit-NoSlash (b / 16) (omega arith),
  (hex_digit-NoSlash (b % 16) (omega arith), hex_upper-NoSlash bs hs),
)

path_unescape-next :
    (c : ℕ) (cs : Bytes)
    → (c == percent) ≡ false
    → path_unescape (c ∷ cs) ≡ prepend c (path_unescape cs)
unfolding path_unescape
path_unescape-next c [] h = rw h refl
path_unescape-next c (a ∷ []) h = rw h refl
path_unescape-next c (a ∷ b ∷ cs) h = rw h refl

-- The bytes that are not escaped are neither a slash nor a percent sign.
should_escape-plain :
    (c : ℕ) → should_escape c ≡ false → ((c == slash) ≡ false) × ((c == percent) ≡ false)
unfolding should_escape
should_escape-plain c h = (ground arith, ground arith)

path_unescape-escape : (bs : Bytes) → AllBytes bs → path_unescape (path_escape bs) ≡ some bs
unfolding path_unescape path_escape
path_unescape-escape [] h = refl
path_unescape-escape (c ∷ cs) (h, hs) =
    let rest = path_unescape-escape cs hs in
    elim (Bool-cases (should_escape c)) [
      | inl e ↦ rw (e, hex_byte-digits c h, rest) refl
      | inr e ↦
          rw e (
            path_unescape-next c (path_escape cs) (should_escape-plain c e).1 ∙ ap (prepend c) rest)
    ]

path_escape-NoSlash : (bs : Bytes) → AllBytes bs → NoSlash (path_escape bs)
unfolding path_escape
path_escape-NoSlash [] h = tt
path_escape-NoSlash (c ∷ cs) (h, hs) =
    let rest = path_escape-NoSlash cs hs in
    elim (Bool-cases (should_escape c)) [
      | inl e ↦ rw e (
        refl,
        (
          hex_digit-NoSlash (c / 16) (omega arith),
          (hex_digit-NoSlash (c % 16) (omega arith), rest),
        ),
      )
      | inr e ↦ rw e ((should_escape-plain c e).0, rest)
    ]

-- An escaped name begins with `x:` only if the name does.
hex_part-escape : (bs : Bytes) → hex_part bs ≡ none → hex_part (path_escape bs) ≡ none
unfolding hex_part path_escape
hex_part-escape [] h = refl
hex_part-escape (a ∷ []) h = elim (Bool-cases (should_escape a)) [
  | inl e ↦ rw e refl
  | inr e ↦ rw e refl
]
hex_part-escape (a ∷ b ∷ bs) h = elim (Bool-cases (should_escape a)) [
  | inl e ↦ rw e refl
  | inr e ↦ elim (Bool-cases (should_escape b)) [
    | inl f ↦ rw (e, f) (ground arith)
    | inr f ↦ rw (e, f) (ground arith)
  ]
]

split-slash : (s t : Bytes) → NoSlash s → split (s ++ (slash ∷ t)) ≡ (s, (split t).0 ∷ (split t).1)
unfolding split
split-slash [] t h = refl
split-slash (c ∷ cs) t (h, hs) = rw (h, split-slash cs t hs) refl

split-last : (s : Bytes) → NoSlash s → split s ≡ (s, [])
unfolding split
split-last [] h = refl
split-last (c ∷ cs) (h, hs) = rw (h, split-last cs hs) refl

-- A name that can be encoded: of bytes, and not beginning with `x:` where it is encoded as in a URL.
abbrev pub IsEncodable : Key → Type 0
IsEncodable key =
    AllBytes key.name × (elim key.enc [ url ↦ hex_part key.name ≡ none | hex ↦ Unit {0} | max ↦ ⊥ ])

abbrev pub AllEncodable : List Key → Type 0
AllEncodable [] = Unit {0}
AllEncodable (key ∷ keys) = IsEncodable key × AllEncodable keys

-- What a key adds to the string, without the slash, and that it is read back.
abbrev Reads : Key → Type 0
Reads key =
    (body : Bytes) × (key_string key ≡ ok (slash ∷ body))
    × NoSlash body
    × ((i : ℕ) → part_to_key i body ≡ ok key.name)

name-Reads :
    (name : Bytes) (enc : KeyEncoding)
    → IsEncodable (record { name = name; enc = enc })
    → Reads (record { name = name; enc = enc })
unfolding key_string part_to_key hex_part
name-Reads name url (bytes, plain) =
    let unescaped = path_unescape-escape name bytes in
    (
      path_escape name,
      refl,
      path_escape-NoSlash name bytes,
      λ i. rw (hex_part-escape name plain, unescaped) refl,
    )
name-Reads name hex (bytes, plain) =
    let decoded = hex_decode-upper name bytes in
    (
      letter_x ∷ colon ∷ hex_upper name,
      refl,
      (refl, (refl, hex_upper-NoSlash name bytes)),
      λ i. rw decoded refl,
    )
name-Reads name max (bytes, never) = absurd never

key-Reads : (key : Key) → IsEncodable key → Reads key
key-Reads key h = name-Reads key.name key.enc h

abbrev AllRead : List Key → Type 0
AllRead keys =
    (path : Bytes) × (key_path_string keys ≡ ok (slash ∷ path))
    × ((i : ℕ) → parts_to_keys i ((split path).0 ∷ (split path).1) ≡ ok (map (λ k. k.name) keys))

keys-AllRead : (key : Key) (keys : List Key) → AllEncodable (key ∷ keys) → AllRead (key ∷ keys)
unfolding key_path_string parts_to_keys
keys-AllRead key [] (h, hs) =
    let (body, string, free, read) = key-Reads key h in
    let parts = split-last body free in
    (body, rw (string, append-nil body) refl, λ i. rw (parts, read i) refl)
keys-AllRead key (next ∷ keys) (h, hs) =
    let (body, string, free, read) = key-Reads key h in
    let (path, strings, reads) = keys-AllRead next keys hs in
    let parts = split-slash body path free in
    (body ++ (slash ∷ path), rw (string, strings) refl, λ i. rw (parts, read i, reads (i + 1)) refl)

-- KeyPathToKeys gives back the names of a key path with a key from the string of the path. The
-- names are of bytes, the encodings are the ones for URLs and for hexadecimal, and the names that
-- are encoded as in a URL do not begin with `x:`.
pub key_path_to_keys-string :
    (key : Key) (keys : List Key)
    → AllEncodable (key ∷ keys)
    → (path : Bytes) × (key_path_string (key ∷ keys) ≡ ok path)
      × (key_path_to_keys path ≡ ok (map (λ k. k.name) (key ∷ keys)))
unfolding key_path_to_keys
key_path_to_keys-string key keys h =
    let (path, string, reads) = keys-AllRead key keys h in (slash ∷ path, string, reads 0)

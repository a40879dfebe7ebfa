-- ===== src/Merkle/KeyPath.antt =====
-- The key paths of chained Merkle proofs: crypto/merkle/proof_key_path.go, with what it uses of the
-- standard library: `url.PathEscape` and `url.PathUnescape`, hexadecimal digits and `strings.Split`.
use relaychainmodel.Prelude.{
  Bool, List, Option, Option-elim, [], false, if◌then◌else◌, leb, none, some, true, ℕ, ◌%◌, ◌&&◌,
  ◌++◌, ◌+◌, ◌-◌, ◌*◌, ◌/◌, ◌==◌, ◌||◌, ◌∷◌, ltb, not,
}
use relaychainmodel.Prelude.Bytes.{Bytes}
use relaychainmodel.Prelude.Outcome.{Outcome, err, ok, panics, ◌>>=◌}
mod Roundtrip
mod Tests

-- The bytes `/`, `%`, `:` and `x`.
abbrev pub slash : ℕ
slash = 47

abbrev pub percent : ℕ
percent = 37

abbrev pub colon : ℕ
colon = 58

abbrev pub letter_x : ℕ
letter_x = 120

-- `keyEncoding`, where `max` stands for a number that is no encoding.
pub data KeyEncoding : Type 0 where
  url hex max : KeyEncoding

pub record Key : Type 0 where
  pub name : Bytes
  pub enc : KeyEncoding

pub data KeyPathError : Type 0 where
  no_slash : KeyPathError
  bad_hex bad_url : ℕ → KeyPathError

-- A digit of `%X`, and the value of a digit of either case.
unfoldable pub hex_digit : ℕ → ℕ
hex_digit d = if ltb d 10 then 48 + d else 55 + d

unfoldable pub hex_value : ℕ → Option ℕ
hex_value c =
    if leb 48 c && leb c 57
    then some (c - 48)
    else if leb 97 c && leb c 102
    then some (c - 87)
    else if leb 65 c && leb c 70
    then some (c - 55)
    else none

unfoldable pub hex_byte : ℕ → ℕ → Option ℕ
unfolding Option-elim hex_value
hex_byte a b =
    Option-elim (hex_value a) none (λ h. Option-elim (hex_value b) none (λ l. some (16 * h + l)))

-- `%X` of a byte slice, and `hex.DecodeString`; `none` is its error.
unfoldable pub hex_upper : Bytes → Bytes
unfolding hex_digit
hex_upper [] = []
hex_upper (b ∷ bs) = hex_digit (b / 16) ∷ hex_digit (b % 16) ∷ hex_upper bs

unfoldable pub hex_decode : Bytes → Option Bytes
unfolding Option-elim hex_byte
hex_decode [] = some []
hex_decode (a ∷ []) = none
hex_decode (a ∷ b ∷ rest) =
    let tail = hex_decode rest in
    Option-elim (hex_byte a b) none (λ c. Option-elim tail none (λ cs. some (c ∷ cs)))

-- Whether `url.PathEscape` escapes a byte: all but letters, digits and `-_.~$&+=:@`.
unfoldable pub should_escape : ℕ → Bool
should_escape c =
    if (leb 97 c && leb c 122) || ((leb 65 c && leb c 90) || (leb 48 c && leb c 57))
    then false
    else if (c == 45) || ((c == 95) || ((c == 46) || (c == 126)))
    then false
    else if (c == 36) || ((c == 38) || ((c == 43) || ((c == 61) || ((c == colon) || (c == 64)))))
    then false
    else true

unfoldable pub path_escape : Bytes → Bytes
unfolding should_escape hex_digit
path_escape [] = []
path_escape (c ∷ cs) =
    let rest = path_escape cs in
    if should_escape c then percent ∷ hex_digit (c / 16) ∷ hex_digit (c % 16) ∷ rest else c ∷ rest

abbrev pub prepend : ℕ → Option Bytes → Option Bytes
prepend c none = none
prepend c (some cs) = some (c ∷ cs)

-- `url.PathUnescape`; `none` is its error.
unfoldable pub path_unescape : Bytes → Option Bytes
unfolding Option-elim hex_byte
path_unescape [] = some []
path_unescape (c ∷ []) = if c == percent then none else some (c ∷ [])
path_unescape (c ∷ a ∷ []) =
    let rest = path_unescape (a ∷ []) in if c == percent then none else prepend c rest
path_unescape (c ∷ a ∷ b ∷ cs) =
    let escaped = path_unescape cs in
    let rest = path_unescape (a ∷ b ∷ cs) in
    if c == percent
    then Option-elim (hex_byte a b) none (λ d. prepend d escaped)
    else prepend c rest

-- `strings.Split` at slashes: the first part and the others.
unfoldable pub split : Bytes → Bytes × List Bytes
split [] = ([], [])
split (c ∷ cs) =
    let (first, others) = split cs in
    if c == slash then ([], first ∷ others) else (c ∷ first, others)

-- `KeyPath.AppendKey`
abbrev pub append_key : List Key → Bytes → KeyEncoding → List Key
append_key pth key enc = pth ++ (record { name = key; enc = enc } ∷ [])

-- `KeyPath.String`: what a key adds to the string, and the loop.
unfoldable pub key_string : Key → Outcome KeyPathError Bytes
unfolding path_escape hex_upper
key_string key = elim key.enc [
  | url ↦ ok (slash ∷ path_escape key.name)
  | hex ↦ ok (slash ∷ letter_x ∷ colon ∷ hex_upper key.name)
  | max ↦ panics
]

unfoldable pub key_path_string : List Key → Outcome KeyPathError Bytes
unfolding key_string
key_path_string [] = ok []
key_path_string (key ∷ keys) =
    let rest = key_path_string keys in key_string key >>= λ s. rest >>= λ r. ok (s ++ r)

-- `part[2:]` of a part with the prefix `x:`.
unfoldable pub hex_part : Bytes → Option Bytes
hex_part [] = none
hex_part (a ∷ []) = none
hex_part (a ∷ b ∷ rest) = if (a == letter_x) && (b == colon) then some rest else none

-- The loop of `KeyPathToKeys`: what it makes of a part, and its run from part `i`.
unfoldable pub part_to_key : ℕ → Bytes → Outcome KeyPathError Bytes
unfolding Option-elim hex_part hex_decode path_unescape
part_to_key i part =
    Option-elim (hex_part part) (Option-elim (path_unescape part) (err (bad_url i)) ok)
      (λ digits. Option-elim (hex_decode digits) (err (bad_hex i)) ok)

unfoldable pub parts_to_keys : ℕ → List Bytes → Outcome KeyPathError (List Bytes)
unfolding part_to_key
parts_to_keys i [] = ok []
parts_to_keys i (part ∷ parts) =
    let rest = parts_to_keys (i + 1) parts in
    part_to_key i part >>= λ key. rest >>= λ keys. ok (key ∷ keys)

unfoldable pub key_path_to_keys : Bytes → Outcome KeyPathError (List Bytes)
unfolding split parts_to_keys
key_path_to_keys [] = err no_slash
key_path_to_keys (c ∷ path) =
    let (first, others) = split path in
    if not (c == slash) then err no_slash else parts_to_keys 0 (first ∷ others)

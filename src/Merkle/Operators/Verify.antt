-- ===== src/Merkle/Operators/Verify.antt =====
-- When `ProofOperators.Verify` accepts.
use relaychainmodel.Prelude.{
  Bool-cases, List, [], ap, inl, inr, refl, sym, ℕ, ◌+◌, ◌∙◌, ◌∷◌, ◌≡◌, ◌↔◌,
}
use relaychainmodel.Prelude.Bytes.{Bytes, bytes_eq, bytes_eq_iff, bytes_eq_refl}
use relaychainmodel.Prelude.Outcome.{Outcome, bind-ok, err, ok, panics, ◌>>=◌}
use mathlib.Core.List.{reverse}
use relaychainmodel.Merkle.KeyPath.{key_path_to_keys}
use relaychainmodel.Merkle.Operators.{
  OpError, Operator, bad_key_path, check_keys, check_root, operators_verify, run_operators,
  take_key, wrap_err,
}

-- The run of the operators alone.
abbrev pub run_all : List Operator → List Bytes → Outcome OpError (List Bytes)
run_all [] args = ok args
run_all (op ∷ ops) args = op.run args >>= λ args'. run_all ops args'

-- The keys of the operators that have one, before others.
abbrev pub with_key : Bytes → List Bytes → List Bytes
with_key [] keys = keys
with_key (k ∷ ks) keys = (k ∷ ks) ∷ keys

abbrev pub op_keys : List Operator → List Bytes → List Bytes
op_keys [] keys = keys
op_keys (op ∷ ops) keys = with_key op.key (op_keys ops keys)

wrap_err-ok :
    {E A : Type 0} (f : E → OpError) {a : A} (o : Outcome E A) → wrap_err f o ≡ ok a → o ≡ ok a
wrap_err-ok f (ok a) h = cc
wrap_err-ok f (err e) h = absurd cc
wrap_err-ok f panics h = absurd cc

take_key-ok :
    (i : ℕ) (key : Bytes) (keys left : List Bytes)
    → take_key i key keys ≡ ok left
    → keys ≡ with_key key left
unfolding take_key
take_key-ok i [] keys left h = cc
take_key-ok i (k ∷ ks) [] left h = absurd cc
take_key-ok i (k ∷ ks) (last ∷ keys) left h = elim (Bool-cases (bytes_eq last (k ∷ ks))) [
  | inl e ↦ let h' = rw e at h in let e' = (bytes_eq_iff last (k ∷ ks)).0 e in cc
  | inr e ↦ let h' = rw e at h in absurd cc
]

take_key-with_key :
    (i : ℕ) (key : Bytes) (keys : List Bytes) → take_key i key (with_key key keys) ≡ ok keys
unfolding take_key
take_key-with_key i [] keys = refl
take_key-with_key i (k ∷ ks) keys = rw (bytes_eq_refl (k ∷ ks)) refl

run_operators-ok :
    (i : ℕ) (ops : List Operator) (keys args left out : List Bytes)
    → run_operators i ops keys args ≡ ok (left, out)
    → (keys ≡ op_keys ops left) × (run_all ops args ≡ ok out)
unfolding run_operators
run_operators-ok i [] keys args left out h = (cc, cc)
run_operators-ok i (op ∷ ops) keys args left out h =
    let (keys', taken, then) = bind-ok (take_key i op.key keys) _ (left, out) h in
    let (args', ran, rest) = bind-ok (op.run args) _ (left, out) then in
    let (same, all) = run_operators-ok (i + 1) ops keys' args' left out rest in
    (take_key-ok i op.key keys keys' taken ∙ ap (with_key op.key) same, rw (ran, all) refl)

run_operators-op_keys :
    (i : ℕ) (ops : List Operator) (left args out : List Bytes)
    → run_all ops args ≡ ok out
    → run_operators i ops (op_keys ops left) args ≡ ok (left, out)
unfolding run_operators
run_operators-op_keys i [] left args out h = cc
run_operators-op_keys i (op ∷ ops) left args out h =
    let (args', ran, rest) = bind-ok (op.run args) (run_all ops) out h in
    rw (take_key-with_key i op.key (op_keys ops left), ran)
      (run_operators-op_keys (i + 1) ops left args' out rest)

check_keys-ok : (left : List Bytes) → check_keys left ≡ ok tt → left ≡ []
unfolding check_keys
check_keys-ok [] h = refl
check_keys-ok (key ∷ keys) h = absurd cc

checks-ok :
    (root : Bytes) (left out : List Bytes)
    → (check_root root out >>= λ t. check_keys left) ≡ ok tt
    → (left ≡ []) × (rest : List Bytes) × (out ≡ root ∷ rest)
unfolding check_root check_keys
checks-ok root left [] h = absurd cc
checks-ok root left (arg ∷ out) h = elim (Bool-cases (bytes_eq root arg)) [
  | inr e ↦ let h' = rw e at h in absurd cc
  | inl e ↦
      (check_keys-ok left (rw e at h), out, ap (λ r. r ∷ out) (sym ((bytes_eq_iff root arg).0 e)))
]

-- What Verify accepts: the keys of the path are those of the operators that have a key, the last
-- first, and the operators, one after the other, lead from the arguments to the root.
abbrev pub Accepts : List Operator → Bytes → Bytes → List Bytes → Type 0
Accepts ops root keypath args =
    (keys : List Bytes) × (key_path_to_keys keypath ≡ ok keys)
    × (reverse keys ≡ op_keys ops [])
    × (rest : List Bytes) × (run_all ops args ≡ ok (root ∷ rest))

pub operators_verify-ok :
    (ops : List Operator) (root keypath : Bytes) (args : List Bytes)
    → operators_verify ops root keypath args ≡ ok tt
    → Accepts ops root keypath args
unfolding operators_verify
operators_verify-ok ops root keypath args h =
    let (keys, path, ran) = bind-ok (wrap_err bad_key_path (key_path_to_keys keypath)) _ tt h in
    let ((left, out), run, checked) = bind-ok (run_operators 0 ops (reverse keys) args) _ tt ran in
    let (none_left, rest, first) = checks-ok root left out checked in
    let (same, all) = run_operators-ok 0 ops (reverse keys) args left out run in
    (
      keys,
      wrap_err-ok bad_key_path (key_path_to_keys keypath) path,
      same ∙ ap (op_keys ops) none_left,
      rest,
      all ∙ ap ok first,
    )

operators_verify-Accepts :
    (ops : List Operator) (root keypath : Bytes) (args : List Bytes)
    → Accepts ops root keypath args
    → operators_verify ops root keypath args ≡ ok tt
unfolding operators_verify check_root check_keys
operators_verify-Accepts ops root keypath args (keys, path, same, rest, all) =
    let run = run_operators-op_keys 0 ops [] args (root ∷ rest) all in
    rw (path, same, run, bytes_eq_refl root) refl

-- ProofOperators.Verify accepts exactly if the path can be read, its keys are those of the
-- operators that have a key, the last first, and the operators, one after the other, lead from the
-- arguments to values of which the first is the root.
pub operators_verify_iff :
    (ops : List Operator) (root keypath : Bytes) (args : List Bytes)
    → (operators_verify ops root keypath args ≡ ok tt) ↔ Accepts ops root keypath args
operators_verify_iff ops root keypath args =
    (operators_verify-ok ops root keypath args, operators_verify-Accepts ops root keypath args)

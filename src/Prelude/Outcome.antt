-- ===== src/Prelude/Outcome.antt =====
-- What a Go call does: it returns a value, it returns an error, or it panics.
use relaychainmodel.Prelude.{◌≡◌, refl, subst, Bool, true, false}

pub data Outcome {ℓ} (E A : Type ℓ) : Type ℓ where
  ok : A → Outcome E A
  err : E → Outcome E A
  panics : Outcome E A

infixl 5 ◌>>=◌ ◌>>◌
abbrev pub ◌>>=◌ {ℓ} : {E A B : Type ℓ} → Outcome E A → (A → Outcome E B) → Outcome E B
ok a >>= f = f a
err e >>= f = err e
panics >>= f = panics

abbrev pub ◌>>◌ : {E B : Type 0} → Outcome E (Unit {0}) → Outcome E B → Outcome E B
m >> k = m >>= λ _. k

-- `if c { return err }`
abbrev pub fail_if : {E : Type 0} → Bool → E → Outcome E (Unit {0})
fail_if true e = err e
fail_if false e = ok tt

-- `if c { panic(...) }`
abbrev pub panic_if : {E : Type 0} → Bool → Outcome E (Unit {0})
panic_if true = panics
panic_if false = ok tt

-- To split on an outcome and keep the equation.
pub data Ended {E A : Type 0} (o : Outcome E A) : Type 0 where
  returned : (a : A) → o ≡ ok a → Ended o
  failed : (e : E) → o ≡ err e → Ended o
  panicked : o ≡ panics → Ended o

pub Outcome-cases : {E A : Type 0} (o : Outcome E A) → Ended o
Outcome-cases (ok a) = Ended.returned a refl
Outcome-cases (err e) = Ended.failed e refl
Outcome-cases panics = Ended.panicked refl

-- What holds of the value, where there is one.
pub data Gives {E A : Type 0} (P : A → Type 0) : Outcome E A → Type 0 where
  gave : {a : A} → P a → Gives P (ok a)
  gave_err : {e : E} → Gives P (err e)
  gave_panic : Gives P panics

pub Gives-bind :
    {E A B : Type 0} (P : B → Type 0) (m : Outcome E A) (f : A → Outcome E B)
    → ((a : A) → m ≡ ok a → Gives P (f a))
    → Gives P (m >>= f)
Gives-bind P (ok a) f h = h a refl
Gives-bind P (err e) f h = gave_err
Gives-bind P panics f h = gave_panic

Gives-value : {E A : Type 0} {P : A → Type 0} {a : A} → Gives {E = E} P (ok a) → P a
Gives-value (gave h) = h

pub Gives-of :
    {E A : Type 0} (P : A → Type 0) (m : Outcome E A) (a : A) → Gives P m → m ≡ ok a → P a
Gives-of P m a h e = Gives-value (subst (Gives P) e h)

pub Gives-map :
    {E A : Type 0} (P Q : A → Type 0) (m : Outcome E A)
    → Gives P m
    → ((a : A) → P a → Q a)
    → Gives Q m
Gives-map P Q (ok a) (gave h) f = gave (f a h)
Gives-map P Q (err e) gave_err f = gave_err
Gives-map P Q panics gave_panic f = gave_panic

-- A sequence that returns has two calls that return.
pub bind-ok :
    {E A B : Type 0} (m : Outcome E A) (f : A → Outcome E B) (b : B)
    → (m >>= f) ≡ ok b
    → (a : A) × (m ≡ ok a) × (f a ≡ ok b)
bind-ok (ok a) f b h = (a, refl, h)
bind-ok (err e) f b h = absurd cc
bind-ok panics f b h = absurd cc

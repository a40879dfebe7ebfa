-- ===== src/Consensus/Refinement.antt =====
-- How a function of the state machine is shown to follow the rules of locking: where it returns, its
-- new state is reached by moves.
pub mod Prevote
pub mod Precommit
pub mod Round
pub mod Commit
pub mod Votes
pub mod Handle
use relaychainmodel.Prelude.{
  Bool, Bool-cases, Option, Option-cases, Option-elim, arith, false, if◌then◌else◌, inl, inr, none,
  refl, some, subst, true, ℕ, ◌||◌, ◌∙◌, ◌≡◌,
}
use relaychainmodel.Prelude.Int.{eq_of_parts, eq_ℤ_iff, pos, ℤ, ◌≤ℤ◌}
use relaychainmodel.Prelude.Outcome.{Outcome, err, ok, panics}
use relaychainmodel.Types.BlockId.{BlockId}
use relaychainmodel.Types.PartSet.{PartSet}
use relaychainmodel.Consensus.State.{
  on_return, Block, State, Node, ◌>>=◌, sign_add_vote, sign_vote, has_address, is_stale,
  update_round_step,
}
use relaychainmodel.Consensus.Protocol.{
  Setting, view, Move, Moves, Moves-trans, stay, one, logged, next_round,
}

-- What holds of the result, where there is one.
pub data Post {A : Type 0} (P : A → Type 0) : Option A → Type 0 where
  panicked : Post P none
  ended : {a : A} → P a → Post P (some a)

pub Post-bind :
    {A B : Type 0} (P : B → Type 0) (Q : A → Type 0) (m : Option A) (f : A → Option B)
    → Post Q m
    → ((a : A) → m ≡ some a → Q a → Post P (f a))
    → Post P (m >>= f)
Post-bind P Q none f h next = panicked
Post-bind P Q (some a) f (ended h) next = next a refl h

-- A call of which only the result is read.
pub Post-read :
    {A B : Type 0} (P : B → Type 0) (m : Option A) (f : A → Option B)
    → ((a : A) → m ≡ some a → Post P (f a))
    → Post P (m >>= f)
Post-read P none f next = panicked
Post-read P (some a) f next = next a refl

pub Post-if :
    {A : Type 0} (P : A → Type 0) (c : Bool) (x y : Option A)
    → (c ≡ true → Post P x)
    → (c ≡ false → Post P y)
    → Post P (if c then x else y)
Post-if P true x y h h' = h refl
Post-if P false x y h h' = h' refl

pub Post-elim :
    {A B : Type 0} (P : B → Type 0) (o : Option A) (x : Option B) (f : A → Option B)
    → (o ≡ none → Post P x)
    → ((a : A) → o ≡ some a → Post P (f a))
    → Post P (Option-elim o x f)
unfolding Option-elim
Post-elim P none x f h h' = h refl
Post-elim P (some a) x f h h' = h' a refl

pub Post-return :
    {E A B : Type 0} (P : B → Type 0) (o : Outcome E A) (x : Option B) (f : A → Option B)
    → Post P x
    → ((a : A) → o ≡ ok a → Post P (f a))
    → Post P (on_return o x f)
unfolding on_return
Post-return P panics x f h h' = panicked
Post-return P (err e) x f h h' = h
Post-return P (ok a) x f h h' = h' a refl

pub Post-map :
    {A : Type 0} (P Q : A → Type 0) (m : Option A) → Post P m → ((a : A) → P a → Q a) → Post Q m
Post-map P Q none h f = panicked
Post-map P Q (some a) (ended h) f = ended (f a h)

Post-value : {A : Type 0} {P : A → Type 0} {a : A} → Post P (some a) → P a
Post-value (ended h) = h

pub Post-of : {A : Type 0} (P : A → Type 0) (m : Option A) (a : A) → Post P m → m ≡ some a → P a
Post-of P m a h e = Post-value (subst (Post P) e h)

pub record Goes (k : Setting) (s s' : State) : Type 0 where
  pub moves : Moves k (view s) (view s')
  pub later : s.round ≤ℤ s'.round

-- A step that leaves the round.
pub record Stays (k : Setting) (s s' : State) : Type 0 where
  pub moves : Moves k (view s) (view s')
  pub same : s'.round ≡ s.round

pub Goes-refl : (k : Setting) (s : State) → Goes k s s
Goes-refl k s = record { moves = stay; later = omega arith }

pub Goes-trans : {k : Setting} {s t u : State} → Goes k s t → Goes k t u → Goes k s u
Goes-trans a b = record {
  moves = Moves-trans _ a.moves b.moves;
  later = omega (arith, a.later, b.later);
}

pub Stays-Goes : {k : Setting} {s t : State} → Stays k s t → Goes k s t
Stays-Goes a = record { moves = a.moves; later = rw a.same (omega arith) }

pub Stays-trans : {k : Setting} {s t u : State} → Stays k s t → Stays k t u → Stays k s u
Stays-trans a b = record { moves = Moves-trans _ a.moves b.moves; same = b.same ∙ a.same }

pub move-Stays :
    (k : Setting) (s s' : State) → Move k (view s) (view s') → s'.round ≡ s.round → Stays k s s'
move-Stays k s s' m e = record { moves = one k m; same = e }

pub Stays-refl : (k : Setting) (s : State) → Stays k s s
Stays-refl k s = record { moves = stay; same = refl }

pub Stays-if :
    (k : Setting) (c : Bool) (s x y : State)
    → Stays k s x
    → Stays k s y
    → Stays k s (if c then x else y)
Stays-if k true s x y p q = p
Stays-if k false s x y p q = q

-- The blocks that are proposed and valid are not what the rules are about.
pub blocks-Stays :
    (k : Setting) (s : State) (pb vb : Option Block) (pp vp : Option PartSet) (vr : ℤ)
    → Stays k s (record s {
      proposal_block = pb;
      proposal_block_parts = pp;
      valid_round = vr;
      valid_block = vb;
      valid_block_parts = vp;
    })
blocks-Stays k s pb vb pp vp vr = record { moves = stay; same = refl }

pub step-Goes :
    (k : Setting) (r : ℤ) (step : ℕ) (s : State)
    → s.round ≤ℤ r
    → Goes k s (update_round_step r step s)
step-Goes k r step s below = record { moves = one k (next_round r below); later = below }

-- A step that may begin a height.
pub record Advances (k : Setting) (s s' : State) : Type 0 where
  pub moves : Moves k (view s) (view s')
  pub rounds : pos 0 ≤ℤ s.round → pos 0 ≤ℤ s'.round

pub Advances-refl : (k : Setting) (s : State) → Advances k s s
Advances-refl k s = record { moves = stay; rounds = λ h. h }

pub Advances-trans :
    {k : Setting} {s t u : State} → Advances k s t → Advances k t u → Advances k s u
Advances-trans a b = record {
  moves = Moves-trans _ a.moves b.moves;
  rounds = λ h. b.rounds (a.rounds h);
}

pub Goes-Advances : {k : Setting} {s t : State} → Goes k s t → Advances k s t
Goes-Advances a = record { moves = a.moves; rounds = λ h. omega (arith, a.later) }

pub Stays-Advances : {k : Setting} {s t : State} → Stays k s t → Advances k s t
Stays-Advances a = Goes-Advances (Stays-Goes a)

-- A call that is not skipped is for this height, and not for an earlier round.
pub not_stale : (s : State) (h r : ℤ) (rest : Bool) → is_stale s h r || rest ≡ false → s.round ≤ℤ r
not_stale s h r rest e = ground arith

-- A call that is neither stale nor for a later round is for this one.
pub this_round :
    (s : State) (h r : ℤ) → is_stale s h r ≡ false → r ≤ℤ s.round → (s.round ≡ r) × (s.height ≡ h)
this_round s h r e below =
    (eq_of_parts s.round r (ground arith), (eq_ℤ_iff s.height h).0 (ground arith))

-- A vote is asked for if the node has the key of a validator, and then nothing else changes.
pub sign-Stays :
    (k : Setting) (n : Node) (type : ℕ) (b : BlockId) (s : State)
    → Move k (view s) (logged (sign_vote type s.height s.round b) (view s))
    → Stays k s (sign_add_vote n type b s)
unfolding sign_add_vote
sign-Stays k n type b s move = elim (Option-cases n.address) [
  | inl e ↦ rw e (record { moves = stay; same = refl })
  | inr (a, e) ↦ elim (Bool-cases (has_address s.validators a)) [
    | inl f ↦ rw (e, f) (record { moves = one k move; same = refl })
    | inr f ↦ rw (e, f) (record { moves = stay; same = refl })
  ]
]

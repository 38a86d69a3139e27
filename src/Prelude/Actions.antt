-- ===== src/Prelude/Actions.antt =====
-- Actions: calls that may fail and that change the state they run on, chained with `do`.
use mathlib.Core.Bool.{Bool, true, false}
use k8_highlander.Prelude.Tests.{if◌then◌else◌}
use k8_highlander.Prelude.Errors.{GoError, Result, ok, err}

abbrev pub Action : Type 0 → Type 0 → Type 0
Action S A = S → Result A × S

abbrev pub pure : {S A : Type 0} → A → Action S A
pure a s = (ok a, s)

abbrev pub fail : {S A : Type 0} → GoError → Action S A
fail e s = (err e, s)

-- A read of the state.
abbrev pub gets : {S A : Type 0} → (S → A) → Action S A
gets f s = (ok (f s), s)

unfoldable pub continue_with : {S A B : Type 0} → Result A → (A → Action S B) → Action S B
continue_with (ok a) f s = f a s
continue_with (err e) f s = (err e, s)

infixl 5 ◌>>=◌ ◌>>◌
abbrev pub ◌>>=◌ : {S A B : Type 0} → Action S A → (A → Action S B) → Action S B
◌>>=◌ m f s = continue_with (m s).0 f (m s).1

abbrev pub ◌>>◌ : {S A B : Type 0} → Action S A → Action S B → Action S B
m >> k = m >>= λ _. k

-- An error is an answer too.
abbrev pub attempt_of : {S A : Type 0} → Action S A → Action S (Result A)
attempt_of m s = (ok (m s).0, (m s).1)

-- The state of a closure: the variable that it captures, and what is outside.
pub record Scope (L S : Type 0) : Type 0 where
  pub local : L
  pub outside : S

-- A call of the outside within a closure, and an assignment to the captured variable.
unfoldable pub on : {L S A : Type 0} → Action S A → Action (Scope L S) A
on m c = ((m c.outside).0, record c { outside = (m c.outside).1 })

unfoldable pub store : {L S : Type 0} → L → Action (Scope L S) Unit
store l c = (ok tt, record c { local = l })

-- A relation between the state before and after, for actions that keep it.
pub record Order (S : Type 0) : Type 1 where
  pub before : S → S → Type 0
  pub same : (s : S) → before s s
  pub next : (s t u : S) → before s t → before t u → before s u

module _ {S : Type 0} (r : Order S) where
  -- Whatever the action gives, the state after it is related to that before.
  pub record Keeps {A : Type 0} (m : Action S A) : Type 0 where
    pub kept : (s : S) → r.before s (m s).1

  pub Keeps-pure : {A : Type 0} (a : A) → Keeps (pure a)
  Keeps-pure a = record { kept = r.same }

  pub Keeps-fail : (A : Type 0) (e : GoError) → Keeps {A = A} (fail e)
  Keeps-fail A e = record { kept = r.same }

  pub Keeps-gets : {A : Type 0} (f : S → A) → Keeps (gets f)
  Keeps-gets f = record { kept = r.same }

  Keeps-continue :
      {A B : Type 0} (x : Result A) (f : A → Action S B) (s t : S)
      → r.before s t
      → ((a : A) → Keeps (f a))
      → r.before s (continue_with x f t).1
  unfolding continue_with
  Keeps-continue (ok a) f s t p k = r.next s t _ p ((k a).kept t)
  Keeps-continue (err e) f s t p k = p

  pub Keeps->>= :
      {A B : Type 0} (m : Action S A) (f : A → Action S B)
      → Keeps m
      → ((a : A) → Keeps (f a))
      → Keeps (m >>= f)
  Keeps->>= m f p k = record { kept = λ s. Keeps-continue (m s).0 f s (m s).1 (p.kept s) k }

  pub Keeps-attempt : {A : Type 0} (m : Action S A) → Keeps m → Keeps (attempt_of m)
  Keeps-attempt m p = record { kept = p.kept }

  pub Keeps-if :
      {A : Type 0} (b : Bool) (m n : Action S A) → Keeps m → Keeps n → Keeps (if b then m else n)
  Keeps-if true m n p q = p
  Keeps-if false m n p q = q

-- ===== src/Leader/Ensures.antt =====
-- Statements about the result of a method that may panic.
use k8_highlander.Prelude.{Bool, true, false, if◌then◌else◌}
use k8_highlander.Leader.Workloads.{Outcome, panics, returns, ◌>>=◌}

-- What holds of the result of a method that may panic, if it returns.
abbrev pub Ensures : {A : Type 0} → (A → Type 0) → Outcome A → Type 0
Ensures P panics = Unit
Ensures P (returns a) = P a

pub Ensures-if :
    {A : Type 0} (P : A → Type 0) (b : Bool) (x y : Outcome A)
    → Ensures P x
    → Ensures P y
    → Ensures P (if b then x else y)
Ensures-if P true x y p q = p
Ensures-if P false x y p q = q

pub Ensures->>= :
    {A B : Type 0} (Q : A → Type 0) (P : B → Type 0) (m : Outcome A) (f : A → Outcome B)
    → Ensures Q m
    → ((a : A) → Q a → Ensures P (f a))
    → Ensures P (m >>= f)
Ensures->>= Q P panics f q h = tt
Ensures->>= Q P (returns a) f q h = h a q

pub trivially : {A : Type 0} (m : Outcome A) → Ensures (λ _. Unit) m
trivially panics = tt
trivially (returns a) = tt

pub Ensures-map :
    {A : Type 0} (P Q : A → Type 0) (m : Outcome A)
    → ((a : A) → P a → Q a)
    → Ensures P m
    → Ensures Q m
Ensures-map P Q panics f p = tt
Ensures-map P Q (returns a) f p = f a p

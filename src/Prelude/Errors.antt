-- ===== src/Prelude/Errors.antt =====
-- Go's `error` values and its results with an error.
use Prim.Native.Nat.{ℕ, zero, suc, ◌/◌, ◌%◌}
use Prim.Native.String.{String, ◌++◌}
use k8_highlander.Prelude.Tests.{ltb, if◌then◌else◌}
use mathlib.Core.Bool.{Bool, true, false}
use mathlib.Core.Path.{◌≡◌, ap}
use mathlib.Core.Option.{Option, none, some, none-ne-some, some-injective}
use mathlib.Core.List.{List, [], ◌∷◌}

-- What the program asks of an error: its text, and the outcomes of errors.Is and errors.As.
pub record GoError : Type 0 where
  pub message : String
  -- errors.Is(err, context.DeadlineExceeded), errors.Is(err, context.Canceled), errors.Is(err, redis.Nil)
  pub deadline_exceeded : Bool
  pub canceled : Bool
  pub redis_nil : Bool
  -- the text of the redis.Error that errors.As finds
  pub redis_error : Option String
  -- errors.Is(err, &common.SevereError{})
  pub severe : Bool

-- errors.New(message), and fmt.Errorf with no %w
abbrev pub new_error : String → GoError
new_error s = record {
  message = s;
  deadline_exceeded = false;
  canceled = false;
  redis_nil = false;
  redis_error = none;
  severe = false;
}

-- common.NewSevereErrorMessage
abbrev pub severe_message : String → String → GoError
severe_message component message = record (new_error (component ++ (": " ++ message))) {
  severe = true;
}

-- common.NewSevereError, of an error that is not nil: only its text is kept.
abbrev pub severe_error : String → String → GoError → GoError
severe_error component message e = severe_message component (message ++ (": " ++ e.message))

-- A Go result `(A, error)`.
pub data Result {ℓ} (A : Type ℓ) : Type ℓ where
  ok : A → Result A
  err : GoError → Result A

answer_of : {A : Type 0} → Result A → Option A
answer_of (ok a) = some a
answer_of (err e) = none

pub ok-injective : {A : Type 0} (a b : A) → ok a ≡ ok b → a ≡ b
ok-injective a b e = some-injective _ _ (unfold answer_of in ap answer_of e)

pub err-ne-ok : {A : Type 0} (e : GoError) (a : A) → err e ≡ ok a → ⊥
err-ne-ok e a p = none-ne-some a (unfold answer_of in ap answer_of p)

-- fmt.Errorf(before + "%w" + after, err): the text changes, and errors.Is and errors.As see through.
unfoldable pub wrap : String → GoError → String → GoError
wrap before e after = record e { message = before ++ (e.message ++ after) }

text_at : List String → ℕ → String
text_at [] n = ""
text_at (t ∷ ts) zero = t
text_at (t ∷ ts) (suc n) = text_at ts n

digit : ℕ → String
unfolding text_at
digit n = text_at ("0" ∷ "1" ∷ "2" ∷ "3" ∷ "4" ∷ "5" ∷ "6" ∷ "7" ∷ "8" ∷ "9" ∷ []) n

decimal_fuel : ℕ → ℕ → String
decimal_fuel zero n = ""
decimal_fuel (suc f) n =
    let more = decimal_fuel f (n / 10) in if ltb n 10 then digit n else more ++ digit (n % 10)

-- fmt's %d of a number that is not negative
unfoldable pub decimal : ℕ → String
unfolding digit decimal_fuel
decimal n = decimal_fuel (suc n) n

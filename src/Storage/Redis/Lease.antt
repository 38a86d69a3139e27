-- ===== src/Storage/Redis/Lease.antt =====
-- What Redis promises about a lease that runs, and the scripts' guard.
use mathlib.Core.Option.{some-injective, none-ne-some}
use mathlib.Core.Bool.{false≢true}
use k8_highlander.Prelude.{
  ℕ, ◌≤◌, ◌<◌, String, Bool, true, false, Option, none, some, Result, ok, err, ◌≡◌, ◌≢◌, refl, sym,
  ap, ◌∙◌, inl, inr, arith, eq_iff, Action, pure, ◌>>=◌, Order, continue_with, if◌then◌else◌, ltb,
  ltb→lt, ltb→le, Bool-cases,
}
use k8_highlander.Storage.Redis.{RedisClient, is_value, if_owned}

-- Whether a call gave `true`.
unfoldable pub is_granted : Result Bool → Bool
is_granted (ok b) = b
is_granted (err e) = false

-- `until s key` is the time at which a key expires.
module _ {S : Type 0} (c : RedisClient S) (until : S → String → ℕ) (key owner : String)
    (t : ℕ) where
  -- Before `t`, the key is there, with metadata of the owner, and does not expire before `t`.
  abbrev pub Standing : S → Type 0
  Standing s =
      c.now s < t
      → (text : String) × (c.call_get key s ≡ some text)
        × (c.decoded_value text ≡ ok (some owner))
        × (t ≤ until s key)

  abbrev pub Stands : S → S → Type 0
  Stands s s' = Standing s → (c.now s ≤ c.now s') × Standing s'

  -- The key is another one, or the lease is over.
  abbrev pub Free : String → S → Type 0
  Free k s = k ≡ key → t ≤ c.now s

  -- The key was missing at a moment between `s` and `s'`.
  pub record Missing (k : String) (s s' : S) : Type 0 where
    pub moment : S
    pub earlier : Stands s moment
    pub later : Stands moment s'
    pub absent : c.call_get k moment ≡ none

  -- A script ran as one step, at a moment between `s` and `s'`.
  pub record Ran (act : Action S Bool) (s s' : S) (answer : Bool) : Type 0 where
    pub moment : S
    pub earlier : Stands s moment
    pub later : Stands (act moment).1 s'
    pub answered : (act moment).0 ≡ ok answer

  -- Other clients call the same commands in between, and leave the lease alone. A key that is there
  -- is set by SETNX never, and a script does what its commands do.
  pub record RedisContract : Type 0 where
    pub set_nx_Stands : (k text : String) (ttl : ℕ) (s : S) → Stands s (c.set_nx k text ttl s).1
    pub set_nx_Missing :
        (k text : String) (ttl : ℕ) (s : S)
        → (c.set_nx k text ttl s).0 ≡ ok true
        → Missing k s (c.set_nx k text ttl s).1
    pub get_Stands : (k : String) (s : S) → Stands s (c.get k s).1
    pub ttl_Stands : (k : String) (s : S) → Stands s (c.ttl k s).1
    pub del_Stands : (k : String) (s : S) → Free k s → Stands s (c.del k s).1
    pub setex_Stands :
        (k : String) (n : ℕ) (text : String) (s : S)
        → Free k s
        → Stands s (c.call_setex k n text s).1
    pub call_del_Stands : (k : String) (s : S) → Free k s → Stands s (c.call_del k s).1
    pub eval_Stands :
        (act : Action S Bool) (s : S) → ((u : S) → Stands u (act u).1) → Stands s (c.eval act s).1
    pub eval_Ran :
        (act : Action S Bool) (s : S) (b : Bool)
        → (c.eval act s).0 ≡ ok b
        → Ran act s (c.eval act s).1 b

  pub Stands-refl : (s : S) → Stands s s
  Stands-refl s x = (omega arith, x)

  pub Stands-trans : (s u v : S) → Stands s u → Stands u v → Stands s v
  Stands-trans s u v p q x = let (a, y) = p x in let (b, z) = q y in (omega (arith, a, b), z)

  abbrev pub frame : Order S
  frame = record { before = Stands; same = Stands-refl; next = Stands-trans }

  -- A key that is missing, or has the metadata of another, is none of a lease that runs.
  pub missing-over : (s : S) → Standing s → c.call_get key s ≡ none → t ≤ c.now s
  missing-over s x e = elim (Bool-cases (ltb (c.now s) t)) [
    | inl h ↦ let (text, p, d, u) = x (ltb→lt _ _ h) in absurd (none-ne-some text (sym e ∙ p))
    | inr h ↦ ltb→le _ _ h
  ]

  module _ (value : String) (other : value ≢ owner) where
    foreign-over :
        (s : S) (text : String) (d : Option String)
        → Standing s
        → c.call_get key s ≡ some text
        → c.decoded_value text ≡ ok d
        → is_value value d ≡ true
        → t ≤ c.now s
    unfolding is_value
    foreign-over s text d x e p v = elim (Bool-cases (ltb (c.now s) t)) [
      | inl h ↦
          let (text', e', o, u) = x (ltb→lt _ _ h) in
          absurd (not_value (sym p ∙ ap c.decoded_value (some-injective _ _ (sym e ∙ e')) ∙ o))
      | inr h ↦ ltb→le _ _ h
    ]
      where
        answer : Result (Option String) → Bool
        answer (ok z) = is_value value z
        answer (err z) = false

        not_value : ok d ≢ ok (some owner)
        not_value q = other (sym ((eq_iff owner value).0 (sym (ap answer q) ∙ v)))

    -- What a script does if the key has our value.
    act-Stands :
        (k text : String) (act : Action S Unit) (u : S) (b : Bool) (d : Option String)
        → ((w : S) → Free k w → Stands w (act w).1)
        → c.call_get k u ≡ some text
        → c.decoded_value text ≡ ok d
        → is_value value d ≡ b
        → Stands u ((if b then act >>= (λ _. pure true) else pure false) u).1
    unfolding continue_with
    act-Stands k text act u false d f e p v x = Stands-refl u x
    act-Stands k text act u true d f e p v x =
        done (act u).0
          (f u (λ q. foreign-over u text d x (ap (λ z. c.call_get z u) (sym q) ∙ e) p v) x)
      where
        done :
            (r : Result (Unit {0}))
            → (c.now u ≤ c.now (act u).1) × Standing (act u).1
            → (c.now u ≤ c.now (continue_with r (λ _. pure true) (act u).1).1)
              × Standing (continue_with r (λ _. pure true) (act u).1).1
        done (ok y) h = h
        done (err z) h = h

    decoded-Stands :
        (k text : String) (act : Action S Unit) (u : S) (r : Result (Option String))
        → ((w : S) → Free k w → Stands w (act w).1)
        → c.call_get k u ≡ some text
        → c.decoded_value text ≡ r
        → Stands u
            (continue_with r
              (λ d. if is_value value d then act >>= (λ _. pure true) else pure false)
              u).1
    unfolding continue_with
    decoded-Stands k text act u (err z) f e p = Stands-refl u
    decoded-Stands k text act u (ok d) f e p =
        act-Stands k text act u (is_value value d) d f e p refl

    pub owned-Stands :
        (k : String) (o : Option String) (act : Action S Unit) (u : S)
        → ((w : S) → Free k w → Stands w (act w).1)
        → c.call_get k u ≡ o
        → Stands u (if_owned c value o act u).1
    unfolding if_owned
    owned-Stands k none act u f e = Stands-refl u
    owned-Stands k (some text) act u f e = decoded-Stands k text act u _ f e refl

    -- A script that answers `true` found our value: the lease of another is over.
    decoded-over :
        (text : String) (act : Action S Unit) (u : S) (r : Result (Option String))
        → Standing u
        → c.call_get key u ≡ some text
        → c.decoded_value text ≡ r
        → is_granted
            (continue_with r
              (λ d. if is_value value d then act >>= (λ _. pure true) else pure false)
              u).0
          ≡ true
        → t ≤ c.now u
    unfolding continue_with is_granted
    decoded-over text act u (err z) x e p g = absurd (false≢true g)
    decoded-over text act u (ok d) x e p g = by_test (is_value value d) refl g
      where
        by_test :
            (b : Bool)
            → is_value value d ≡ b
            → is_granted ((if b then act >>= (λ _. pure true) else pure false) u).0 ≡ true
            → t ≤ c.now u
        by_test true v h = foreign-over u text d x e p v
        by_test false v h = absurd (false≢true h)

    pub owned-over :
        (o : Option String) (act : Action S Unit) (u : S)
        → Standing u
        → c.call_get key u ≡ o
        → (if_owned c value o act u).0 ≡ ok true
        → t ≤ c.now u
    unfolding if_owned is_granted
    owned-over none act u x e g = absurd (false≢true (ap is_granted g))
    owned-over (some text) act u x e g = decoded-over text act u _ x e refl (ap is_granted g)

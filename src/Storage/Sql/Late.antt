-- ===== src/Storage/Sql/Late.antt =====
-- Closures that report success only when the lease of another is over.
use k8_highlander.Prelude.{
  ℕ, ◌≤◌, String, Bool, true, false, Option, Result, ok, err, GoError, ◌≡◌, refl, sym, ◌∙◌, arith,
  Action, pure, fail, gets, ◌>>=◌, Scope, store, Keeps, continue_with, if◌then◌else◌,
}
use mathlib.Core.Bool.{false≢true}
use k8_highlander.Storage.Sql.{LeaderLock, Database, time_now}
use k8_highlander.Storage.Sql.Lease.{Standing, frame}

-- Whether an action succeeded.
unfoldable pub succeeded : {A : Type 0} → Result A → Bool
succeeded (ok a) = true
succeeded (err e) = false

module _ {S : Type 0} (db : Database S) (row : S → String → Option LeaderLock) (key owner : String)
    (t : ℕ) where
  -- The action, from the time `from` on, ends without an error and with `success` set only after `t`.
  pub record Late (from : ℕ) (m : Action (Scope Bool S) Unit) : Type 0 where
    pub late :
        (c : Scope Bool S)
        → from ≤ db.now c.outside
        → Standing db row key owner t c.outside
        → succeeded (m c).0 ≡ true
        → (m c).1.local ≡ true
        → t ≤ db.now (m c).1.outside

  pub Late-false : (from : ℕ) → Late from (store false)
  unfolding store
  Late-false from = record { late = λ c h st r l. absurd (false≢true l) }

  pub Late-fail : (from : ℕ) (e : GoError) → Late from (fail e)
  unfolding succeeded
  Late-fail from e = record { late = λ c h st r l. absurd (false≢true r) }

  pub Late-if :
      (from : ℕ) (b : Bool) (m n : Action (Scope Bool S) Unit)
      → Late from m
      → Late from n
      → Late from (if b then m else n)
  Late-if from true m n p q = p
  Late-if from false m n p q = q

  Late-continue :
      {A : Type 0} (from : ℕ) (x : Result A) (f : A → Action (Scope Bool S) Unit) (c : Scope Bool S)
      → from ≤ db.now c.outside
      → Standing db row key owner t c.outside
      → ((a : A) → Late from (f a))
      → succeeded (continue_with x f c).0 ≡ true
      → (continue_with x f c).1.local ≡ true
      → t ≤ db.now (continue_with x f c).1.outside
  unfolding continue_with succeeded
  Late-continue from (ok a) f c h st k r l = (k a).late c h st r l
  Late-continue from (err e) f c h st k r l = absurd (false≢true r)

  pub Late->>= :
      {A : Type 0} (from : ℕ) (m : Action (Scope Bool S) A) (f : A → Action (Scope Bool S) Unit)
      → Keeps (frame db row key owner t from) m
      → ((a : A) → Late from (f a))
      → Late from (m >>= f)
  Late->>= from m f p k = record {
    late = λ c h st.
        let (a, y) = p.kept c h st in
        Late-continue from (m c).0 f (m c).1 (omega (arith, h, a)) y k;
  }

  -- After the clock is read, the rest starts at that time or later.
  pub Late-clock :
      (from : ℕ) (f : ℕ → Action (Scope Bool S) Unit)
      → ((n : ℕ) → Late n (f n))
      → Late from (time_now db >>= f)
  unfolding continue_with
  Late-clock from f p = record { late = λ c h st. (p (db.now c.outside)).late c (omega arith) st }

  -- What a closure does only if `success` is set, and after which it may be set still.
  pub Late-verify :
      (from : ℕ) (m : Action (Scope Bool S) Unit)
      → Late from m
      → Late from (gets (λ c. c.local) >>= λ success. if success then m else pure tt)
  unfolding continue_with
  Late-verify from m p = record { late = λ c h st. by_success c.local c h st refl }
    where
      by_success :
          (b : Bool) (c : Scope Bool S)
          → from ≤ db.now c.outside
          → Standing db row key owner t c.outside
          → c.local ≡ b
          → succeeded ((if b then m else pure tt) c).0 ≡ true
          → ((if b then m else pure tt) c).1.local ≡ true
          → t ≤ db.now ((if b then m else pure tt) c).1.outside
      by_success true c h st e r l = p.late c h st r l
      by_success false c h st e r l = absurd (false≢true (sym e ∙ l))

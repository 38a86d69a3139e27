-- ===== src/Storage/Sql/Lease.antt =====
-- What the database promises about a lease that runs, and the frame of a closure over it.
use k8_highlander.Prelude.{
  ℕ, ◌≤◌, ◌<◌, String, true, false, Option, some, Result, ok, List, ◌≡◌, sym, ◌≢◌, ltb, ltb→lt,
  ltb→le, Bool-cases, inl, inr, continue_with, ap, ◌∙◌, suc, arith, Action, ◌>>=◌, Scope, on, store,
  Order, Keeps,
}
use mathlib.Core.Option.{some-injective}
use k8_highlander.Storage.Sql.{LeaderLock, Database, Condition, Change, matches, time_now, given}

-- `row s key` is the row of `key` in `s`. The lease: `owner` holds `key` up to the time `t`.
module _ {S : Type 0} (db : Database S) (row : S → String → Option LeaderLock) (key owner : String)
    (t : ℕ) where
  -- Before `t`, the row is one of the owner's that does not expire before `t`.
  abbrev pub Standing : S → Type 0
  Standing s =
      db.now s < t
      → (l : LeaderLock) × (row s key ≡ some l) × (l.value ≡ owner) × (t ≤ l.expires_at)

  abbrev pub Stands : S → S → Type 0
  Stands s s' = Standing s → (db.now s ≤ db.now s') × Standing s'

  -- While the lease runs, its row is none that the statement is about.
  abbrev pub Spared : List Condition → S → Type 0
  Spared w s =
      db.now s < t
      → (l : LeaderLock) → l.key ≡ key
      → l.value ≡ owner
      → t ≤ l.expires_at
      → matches w l ≡ false

  -- The row was there at a moment between `s` and `s'`.
  pub record Seen (w : List Condition) (s s' : S) : Type 0 where
    pub moment : S
    pub earlier : Stands s moment
    pub later : Stands moment s'
    pub found : LeaderLock
    pub stored : row moment found.key ≡ some found
    pub matching : matches w found ≡ true

  -- The closure of a transaction ran to its end, and what it did was committed.
  pub record Committed {L : Type 0} (body : Action (Scope L S) Unit) (c d : Scope L S)
      : Type 0 where
    pub start : Scope L S
    pub begun : Stands c.outside start.outside
    pub returned : (body start).0 ≡ ok tt
    pub captured : d.local ≡ (body start).1.local
    pub committed : Stands (body start).1.outside d.outside

  -- The table is changed by statements only, those of other sessions included, which leave the lease
  -- alone: a statement that is not about its row keeps it, an insert replaces no row, and a
  -- transaction keeps what its statements keep, whether it is committed or rolled back.
  pub record SqlContract : Type 1 where
    pub sleep_Stands : (d : ℕ) (s : S) → Stands s (db.sleep d s)
    pub first_Stands : (w : List Condition) (s : S) → Stands s (db.first w s).1
    pub first_Seen :
        (w : List Condition) (s : S) (l : LeaderLock)
        → (db.first w s).0 ≡ ok (some l)
        → (x : Seen w s (db.first w s).1) × (x.found ≡ l)
    pub find_Stands : (w : List Condition) (s : S) → Stands s (db.find w s).1
    pub count_Stands : (w : List Condition) (s : S) → Stands s (db.count w s).1
    pub delete_Stands : (w : List Condition) (s : S) → Spared w s → Stands s (db.delete w s).1
    pub delete_Seen :
        (w : List Condition) (s : S) (n : ℕ)
        → Spared w s
        → (db.delete w s).0 ≡ ok (suc n)
        → Seen w s (db.delete w s).1
    pub update_Stands :
        (w : List Condition) (c : List Change) (s : S) → Spared w s → Stands s (db.update w c s).1
    pub create_Stands : (l : LeaderLock) (s : S) → Stands s (db.create l s).1
    pub transaction_Stands :
        {L : Type 0} (body : Action (Scope L S) Unit) (from : ℕ)
        → ((c : Scope L S) → from ≤ db.now c.outside → Stands c.outside (body c).1.outside)
        → (c : Scope L S) → from ≤ db.now c.outside
        → Stands c.outside (db.transaction body c).1.outside
    pub transaction_Committed :
        {L : Type 0} (body : Action (Scope L S) Unit) (c : Scope L S)
        → (db.transaction body c).0 ≡ ok tt
        → Committed body c (db.transaction body c).1

  pub Stands-refl : (s : S) → Stands s s
  Stands-refl s x = (omega arith, x)

  pub Stands-trans : (s u v : S) → Stands s u → Stands u v → Stands s v
  Stands-trans s u v p q x = let (a, y) = p x in let (b, z) = q y in (omega (arith, a, b), z)

  -- A closure that starts at `from` or later lets the lease stand.
  abbrev pub frame : {L : Type 0} → ℕ → Order (Scope L S)
  frame from = record {
    before = λ c d. from ≤ db.now c.outside → Stands c.outside d.outside;
    same = λ c _. Stands-refl c.outside;
    next = λ c d e p q h x.
        let (a, y) = p h x in let (b, z) = q (omega (arith, h, a)) y in (omega (arith, a, b), z);
  }

  pub Keeps-on :
      {L A : Type 0} (from : ℕ) (m : Action S A)
      → ((s : S) → from ≤ db.now s → Stands s (m s).1)
      → Keeps (frame {L = L} from) (on m)
  unfolding on
  Keeps-on from m p = record { kept = λ c. p c.outside }

  pub Keeps-store : {L : Type 0} (from : ℕ) (l : L) → Keeps (frame from) (store l)
  unfolding store
  Keeps-store from l = record { kept = λ c h. Stands-refl c.outside }

  pub Keeps-given : {L A : Type 0} (from : ℕ) (r : Result A) → Keeps (frame {L = L} from) (given r)
  Keeps-given from r = record { kept = λ c h. Stands-refl c.outside }

  -- After the clock is read, the rest starts at that time or later.
  pub Keeps-clock :
      {L A : Type 0} (from : ℕ) (f : ℕ → Action (Scope L S) A)
      → ((n : ℕ) → Keeps (frame n) (f n))
      → Keeps (frame from) (time_now db >>= f)
  unfolding continue_with
  Keeps-clock from f p = record { kept = λ c h. (p (db.now c.outside)).kept c (omega arith) }

  pub Keeps-transaction :
      {L : Type 0} (c : SqlContract) (from : ℕ) (body : Action (Scope L S) Unit)
      → Keeps (frame from) body
      → Keeps (frame from) (db.transaction body)
  Keeps-transaction c from body p = record { kept = c.transaction_Stands body from p.kept }

  -- A row of the key with another's value is seen: then the lease is over.
  pub seen-over :
      (w : List Condition) (s s' : S) (x : Seen w s s')
      → Standing s
      → x.found.key ≡ key
      → x.found.value ≢ owner
      → t ≤ db.now s'
  seen-over w s s' x st k v = elim (Bool-cases (ltb (db.now s') t)) [
    | inl h ↦
        let (l, e, o, u) = at_moment.1 (omega (arith, ltb→lt _ _ h, to_end.0)) in
        absurd (
          v (
            ap (λ (r : LeaderLock). r.value)
              (some-injective _ _ (sym x.stored ∙ ap (row x.moment) k ∙ e))
            ∙ o))
    | inr h ↦ ltb→le _ _ h
  ]
    where
      at_moment : (db.now s ≤ db.now x.moment) × Standing x.moment
      at_moment = x.earlier st

      to_end : (db.now x.moment ≤ db.now s') × Standing s'
      to_end = x.later at_moment.1

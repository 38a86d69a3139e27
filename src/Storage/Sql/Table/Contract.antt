-- ===== src/Storage/Sql/Table/Contract.antt =====
-- The table keeps the contract of the lock storage.
use k8_highlander.Prelude.{
  ℕ, suc, ◌+◌, ◌≤◌, ◌<◌, ◌&&◌, String, Bool, true, false, Option, none, some, Result, ok, err, List,
  [], ◌∷◌, ◌≡◌, refl, sym, ap, ◌∙◌, arith, eq_iff, ◌==◌, if◌then◌else◌, Action, Scope,
}
use mathlib.Core.Bool.{false≢true}
use k8_highlander.Storage.Sql.Late.{succeeded}
use mathlib.Core.Option.{none-ne-some, some-injective}
use k8_highlander.Storage.Sql.{LeaderLock, Condition, matches, satisfies, key_is}
use k8_highlander.Storage.Sql.Table.{
  Table, table, tick, key_of, keep_unless, keep_if, change_if, number, single, insert_over,
  settle_transaction,
}
use k8_highlander.Storage.Sql.Lease.{SqlContract, Stands, Spared, Seen, Committed, Stands-refl}

first_true : (a b : Bool) → (a && b) ≡ true → a ≡ true
first_true true b p = refl
first_true false b p = p

keep_if-some :
    (w : List Condition) (o : Option LeaderLock) (l : LeaderLock)
    → keep_if w o ≡ some l
    → (o ≡ some l) × (matches w l ≡ true)
unfolding keep_if
keep_if-some w none l e = absurd (none-ne-some l e)
keep_if-some w (some x) l e = by_match (matches w x) refl e
  where
    by_match :
        (b : Bool)
        → matches w x ≡ b
        → (if b then some x else none) ≡ some l
        → (some x ≡ some l) × (matches w l ≡ true)
    by_match true m p = (p, ap (matches w) (sym (some-injective _ _ p)) ∙ m)
    by_match false m p = absurd (none-ne-some l p)

single-some :
    (w : List Condition) (s : Table) (l : LeaderLock)
    → single w s ≡ some l
    → (s.rows l.key ≡ some l) × (matches w l ≡ true)
unfolding single key_of satisfies matches
single-some (key_is k ∷ w) s l e =
    let (p, m) = keep_if-some (key_is k ∷ w) _ l e in
    let same = (eq_iff l.key k).0 (first_true _ (matches w l) m) in (ap (s.rows) same ∙ p, m)
single-some _ s l e = absurd (none-ne-some l e)

number-some : (o : Option LeaderLock) (n : ℕ) → number o ≡ suc n → (l : LeaderLock) × (o ≡ some l)
unfolding number
number-some none n e = absurd (omega (arith, e))
number-some (some l) n e = (l, refl)

answer : {A : Type 0} → A → Result A → A
answer z (ok a) = a
answer z (err e) = z

-- A row counts under its own key only.
abbrev pub row : Table → String → Option LeaderLock
row s k = keep_if (key_is k ∷ []) (s.rows k)

module _ (dialect key owner : String) (t : ℕ) where
  row-rows :
      (s : Table) (l : LeaderLock) → row s key ≡ some l → (s.rows key ≡ some l) × (l.key ≡ key)
  unfolding satisfies matches
  row-rows s l e =
      let (p, m) = keep_if-some (key_is key ∷ []) _ l e in
      (p, (eq_iff l.key key).0 (first_true _ _ m))

  rows-row :
      (s : Table) (k : String) (l : LeaderLock) → s.rows k ≡ some l → l.key ≡ k → row s k ≡ some l
  unfolding satisfies matches keep_if
  rows-row s k l e q = rw (e, keep_if, (eq_iff l.key k).1 q, if◌then◌else◌, ◌&&◌) refl

  Standing-from :
      (s s' : Table)
      → s.time ≤ s'.time
      → ((l : LeaderLock)
          → s.time < t
          → s.rows key ≡ some l
          → l.key ≡ key
          → l.value ≡ owner
          → t ≤ l.expires_at
          → s'.rows key ≡ some l)
      → Stands (table dialect) row key owner t s s'
  unfolding table
  Standing-from s s' h f st = (
    h,
    λ g.
        let (l, e, o, u) = st (omega (arith, h, g)) in
        let (r, k) = row-rows s l e in
        (l, rows-row s' key l (f l (omega (arith, h, g)) r k o u) k, o, u),
  )

  quiet :
      (s s' : Table)
      → s.time ≤ s'.time
      → s'.rows ≡ s.rows
      → Stands (table dialect) row key owner t s s'
  quiet s s' h e = Standing-from s s' h (λ l g p k o u. ap (λ r. r key) e ∙ p)

  unmatched :
      (w : List Condition) (f : LeaderLock → Option LeaderLock) (l : LeaderLock)
      → matches w l ≡ false
      → (if matches w l then f l else some l) ≡ some l
  unmatched w f l m = rw m refl

  seen_row :
      (w : List Condition) (s s' : Table) (l : LeaderLock)
      → single w s ≡ some l
      → Stands (table dialect) row key owner t s s'
      → Seen (table dialect) row key owner t w s s'
  seen_row w s s' l e st = record {
    moment = s;
    earlier = Stands-refl (table dialect) row key owner t s;
    later = st;
    found = l;
    stored = rows-row s l.key l (single-some w s l e).0 refl;
    matching = (single-some w s l e).1;
  }

  insert-Stands :
      (o : Option LeaderLock) (l : LeaderLock) (s : Table)
      → s.rows l.key ≡ o
      → Stands (table dialect) row key owner t s (tick (insert_over o l s).1)
  unfolding tick insert_over
  insert-Stands none l s e =
      Standing-from _ _ (omega arith)
        (λ x g r k o u. elsewhere x r (key == l.key) (eq_iff key l.key).0)
    where
      elsewhere :
          (x : LeaderLock)
          → s.rows key ≡ some x
          → (b : Bool) → (b ≡ true → key ≡ l.key)
          → (if b then some l else s.rows key) ≡ some x
      elsewhere x r true h = absurd (none-ne-some x (sym e ∙ ap s.rows (sym (h refl)) ∙ r))
      elsewhere x r false h = r
  insert-Stands (some y) l s e = quiet _ _ (omega arith) refl

  settle-Stands :
      {L : Type 0} (c d : Scope L Table) (r : Result (Unit {0}))
      → Stands (table dialect) row key owner t c.outside d.outside
      → Stands (table dialect) row key owner t c.outside (settle_transaction c r d).1.outside
  unfolding settle_transaction table
  settle-Stands c d (ok u) p st = p st
  settle-Stands c d (err e) p st = ((p st).0, λ g. st (omega (arith, g, (p st).0)))

  settle-Committed :
      {L : Type 0} (body : Action (Scope L Table) Unit) (c : Scope L Table) (r : Result (Unit {0}))
      → (body c).0 ≡ r
      → (settle_transaction c r (body c).1).0 ≡ ok tt
      → Committed (table dialect) row key owner t body c (settle_transaction c r (body c).1).1
  unfolding settle_transaction succeeded
  settle-Committed body c (ok u) p e = record {
    start = c;
    begun = Stands-refl (table dialect) row key owner t c.outside;
    returned = p;
    captured = refl;
    committed = Stands-refl (table dialect) row key owner t (body c).1.outside;
  }
  settle-Committed body c (err x) p e = absurd (false≢true (ap succeeded e))

  delete-Stands :
      (w : List Condition) (s : Table)
      → Spared (table dialect) row key owner t w s
      → Stands (table dialect) row key owner t s ((table dialect).delete w s).1
  unfolding table keep_unless
  delete-Stands w s p =
      Standing-from s ((table dialect).delete w s).1 (omega arith)
        (λ l g e k o u. ap (keep_unless w) e ∙ rw (keep_unless, p g l k o u) refl)

  pub table-SqlContract : SqlContract (table dialect) row key owner t
  unfolding table keep_unless change_if tick answer seen_row
  table-SqlContract = record {
    sleep_Stands = λ d s. quiet s (record s { time = s.time + d }) (omega arith) refl;
    first_Stands = λ w s. quiet s (tick s) (omega arith) refl;
    first_Seen = λ w s l e.
        (seen_row w s (tick s) l (ap (answer none) e) (quiet s (tick s) (omega arith) refl), refl);
    find_Stands = λ w s. quiet s (tick s) (omega arith) refl;
    count_Stands = λ w s. quiet s (tick s) (omega arith) refl;
    delete_Stands = delete-Stands;
    delete_Seen = λ w s n p e.
        let (l, q) = number-some (single w s) n (ap (answer 0) e) in
        seen_row w s ((table dialect).delete w s).1 l q (delete-Stands w s p);
    update_Stands = λ w cs s p.
        Standing-from s ((table dialect).update w cs s).1 (omega arith)
          (λ l g e k o u. ap (change_if w cs) e ∙ rw (change_if, p g l k o u) refl);
    create_Stands = λ l s. insert-Stands _ l s refl;
    transaction_Stands = λ body from p c h. settle-Stands c (body c).1 (body c).0 (p c h);
    transaction_Committed = λ body c e. settle-Committed body c (body c).0 refl e;
  }

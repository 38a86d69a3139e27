-- ===== src/Storage/Spanner/Leases.antt =====
-- The writes of a transaction against the table of leases of Storage.Memory.Laws.
use k8_highlander.Prelude.{
  ℕ, String, Bool, true, false, Option, none, some, List, [], ◌∷◌, Result, ok, err, ok-injective,
  err-ne-ok, ◌≡◌, refl, sym, ap, ◌∙◌, eq_iff, eq_refl, ltb, ◌==◌, if◌then◌else◌, Bool-cases, inl,
  inr,
}
use k8_highlander.Storage.Lock.{LockMetadata, Lease}
use k8_highlander.Storage.Memory.Laws.{
  Call, acquires, renews, releases, call_key, lease_after, owned,
}
use k8_highlander.Storage.Spanner.{
  SpannerRow, Column, delete_expired, insert_map, update_map, Write, Answers, write_text,
  with_metadata, then_writes,
}
use k8_highlander.Storage.Spanner.Table.{
  Rows, set_row, if_live, set_columns, insert_over, update_over, apply, apply_all,
}

unfoldable pub lease_of_row : Option SpannerRow → Option Lease
lease_of_row none = none
lease_of_row (some row) = some (record { owner = row.value; until = row.expires_at })

-- The lease still runs at `time`: Spanner's comparison is strict.
unfoldable pub in_force : Option Lease → ℕ → Bool
in_force none time = false
in_force (some l) time = ltb time l.until

-- Whether a call is granted at `time`, by the lease of its key. The empty value releases nothing.
unfoldable pub spanner_granted : ℕ → Call → Option Lease → Bool
spanner_granted time (acquires key value cluster_name ttl now) l =
    if in_force l time then owned l value else true
spanner_granted time (renews key value ttl now) l = if in_force l time then owned l value else false
spanner_granted time (releases key value) l = if value == "" then false else owned l value

unfoldable pub spanner_step : ℕ → Call → String → Option Lease → Option Lease
spanner_step time c k l =
    if call_key c == k then (if spanner_granted time c l then lease_after c else l) else l

-- The writes go through, the variable says whether the call is granted, and the leases of all
-- keys are those of the table of leases afterwards.
abbrev pub Stepped : Rows → ℕ → ℕ → List Write → Bool → Call → Type 0
Stepped rows time commit ws b c =
    (after : Rows) × (apply_all time commit ws rows ≡ some after)
    × (b ≡ spanner_granted time c (lease_of_row (rows (call_key c))))
    × ((k : String) → lease_of_row (after k) ≡ spanner_step time c k (lease_of_row (rows k)))

pub lease_of_row-set_row :
    (key k : String) (row : Option SpannerRow) (rows : Rows)
    → lease_of_row (set_row key row rows k)
      ≡ (if key == k then lease_of_row row else lease_of_row (rows k))
unfolding set_row
lease_of_row-set_row key k row rows = elim (Bool-cases (key == k)) [
  | inl e ↦ rw e refl
  | inr e ↦ rw e refl
]

-- A result that is an answer, and its two parts.
pub answered :
    (b b' : Bool) (ws ws' : List Write)
    → ◌≡◌ {A = Result (Bool × List Write)} (ok (b', ws')) (ok (b, ws))
    → (b ≡ b') × (ws ≡ ws')
answered b b' ws ws' e =
    let p = ok-injective _ _ e in (sym (ap (λ q. q.0) p), sym (ap (λ q. q.1) p))

write_text-ok :
    (r : Result String) (write : String → Write) (b : Bool) (ws : List Write)
    → write_text r write ≡ ok (b, ws)
    → (text : String) × (b ≡ true) × (ws ≡ write text ∷ [])
unfolding write_text
write_text-ok (err x) write b ws e = absurd (err-ne-ok _ _ e)
write_text-ok (ok text) write b ws e =
    let p = answered b true ws (write text ∷ []) e in (text, p.0, p.1)

pub with_metadata-ok :
    (a : Answers) (meta : LockMetadata) (write : String → Write) (b : Bool) (ws : List Write)
    → with_metadata a meta write ≡ ok (b, ws)
    → (text : String) × (b ≡ true) × (ws ≡ write text ∷ [])
unfolding with_metadata
with_metadata-ok a meta write b ws e = write_text-ok (a.marshal meta) write b ws e

pub then_writes-ok :
    (w : Write) (r : Result (Bool × List Write)) (b : Bool) (ws : List Write)
    → then_writes w r ≡ ok (b, ws)
    → (later : List Write) × (r ≡ ok (b, later)) × (ws ≡ w ∷ later)
unfolding then_writes
then_writes-ok w (err e) b ws p = absurd (err-ne-ok _ _ p)
then_writes-ok w (ok (b', later)) b ws p =
    let q = answered b b' ws (w ∷ later) p in (later, ap (λ x. ok (x, later)) (sym q.0), q.1)

-- A list of writes whose first goes through.
pub then_apply :
    (time commit : ℕ) (w : Write) (ws : List Write) (rows next : Rows) (r : Option Rows)
    → apply time commit w rows ≡ some next
    → apply_all time commit ws next ≡ r
    → apply_all time commit (w ∷ ws) rows ≡ r
unfolding apply_all
then_apply time commit w ws rows next r e p =
    ap
      (λ x. elim x as (λ y. Option Rows) [
        | none ↦ none
        | some rows' ↦ apply_all time commit ws rows'
      ])
      e
    ∙ p

pub apply_none : (time commit : ℕ) (rows : Rows) → apply_all time commit [] rows ≡ some rows
unfolding apply_all
apply_none time commit rows = refl

apply-update_map :
    (time commit : ℕ) (key : String) (cs : List Column) (row : SpannerRow) (rows : Rows)
    → rows key ≡ some row
    → apply time commit (update_map key cs) rows
      ≡ some (set_row key (some (set_columns commit cs row)) rows)
unfolding apply
apply-update_map time commit key cs row rows e =
    ap (λ o. update_over o commit key cs rows) e ∙ (unfold update_over in refl)

apply-insert_map :
    (time commit : ℕ) (key : String) (row : SpannerRow) (rows : Rows)
    → rows key ≡ none
    → apply time commit (insert_map key row) rows
      ≡ some (set_row key (some (record row { created_at = commit; updated_at = commit })) rows)
unfolding apply
apply-insert_map time commit key row rows e =
    ap (λ o. insert_over o commit key row rows) e ∙ (unfold insert_over in refl)

apply-delete_expired :
    (time commit : ℕ) (key : String) (rows : Rows)
    → apply time commit (delete_expired key) rows
      ≡ some (set_row key (if_live time (rows key)) rows)
unfolding apply
apply-delete_expired time commit key rows = refl

module _ (rows : Rows) (time commit : ℕ) where
  -- A call that is not granted writes nothing.
  pub same-Stepped :
      (c : Call)
      → spanner_granted time c (lease_of_row (rows (call_key c))) ≡ false
      → Stepped rows time commit [] false c
  unfolding apply_all spanner_step
  same-Stepped c g = (rows, refl, sym g, stays)
    where
      stays :
          (k : String)
          → lease_of_row (rows k) ≡ (
              if call_key c == k
              then (if spanner_granted time c (lease_of_row (rows k))
                  then lease_after c
                  else lease_of_row (rows k))
              else lease_of_row (rows k))
      stays k = elim (Bool-cases (call_key c == k)) [
        | inl e ↦ rw (e, ← (eq_iff (call_key c) k).0 e, g) refl
        | inr e ↦ rw e refl
      ]

  -- A call that is granted sets the row of its key.
  pub set-Stepped :
      (c : Call) (ws : List Write) (after : Rows)
      → apply_all time commit ws rows ≡ some after
      → ((k : String)
          → lease_of_row (after k)
            ≡ (if call_key c == k then lease_after c else lease_of_row (rows k)))
      → spanner_granted time c (lease_of_row (rows (call_key c))) ≡ true
      → Stepped rows time commit ws true c
  unfolding spanner_step
  set-Stepped c ws after p q g = (after, p, sym g, sets)
    where
      sets :
          (k : String)
          → lease_of_row (after k) ≡ (
              if call_key c == k
              then (if spanner_granted time c (lease_of_row (rows k))
                  then lease_after c
                  else lease_of_row (rows k))
              else lease_of_row (rows k))
      sets k = elim (Bool-cases (call_key c == k)) [
        | inl e ↦ q k ∙ rw (e, ← (eq_iff (call_key c) k).0 e, g) refl
        | inr e ↦ q k ∙ rw e refl
      ]

  -- The row of a key that is there, updated.
  pub update-Stepped :
      (c : Call) (cs : List Column) (row : SpannerRow)
      → rows (call_key c) ≡ some row
      → lease_of_row (some (set_columns commit cs row)) ≡ lease_after c
      → spanner_granted time c (lease_of_row (rows (call_key c))) ≡ true
      → Stepped rows time commit (update_map (call_key c) cs ∷ []) true c
  unfolding apply_all apply
  update-Stepped c cs row e l g =
      set-Stepped c (update_map (call_key c) cs ∷ [])
        (set_row (call_key c) (some (set_columns commit cs row)) rows)
        (then_apply time commit (update_map (call_key c) cs) [] rows _ _
          (apply-update_map time commit (call_key c) cs row rows e) (apply_none time commit _))
        (λ k. lease_of_row-set_row (call_key c) k _ rows ∙ rw l refl) g

  -- An expired row of the key, if there is one, is deleted, and a new one inserted.
  pub insert-Stepped :
      (c : Call) (key : String) (row : SpannerRow)
      → call_key c ≡ key
      → if_live time (rows key) ≡ none
      → lease_of_row (some row) ≡ lease_after c
      → spanner_granted time c (lease_of_row (rows (call_key c))) ≡ true
      → Stepped rows time commit (delete_expired key ∷ insert_map key row ∷ []) true c
  unfolding lease_of_row
  insert-Stepped c key row p e l g =
      let cleared = set_row key (if_live time (rows key)) rows in
      let written = record row { created_at = commit; updated_at = commit } in
      set-Stepped c (delete_expired key ∷ insert_map key row ∷ [])
        (set_row key (some written) cleared)
        (then_apply time commit (delete_expired key) (insert_map key row ∷ []) rows _ _
          (apply-delete_expired time commit key rows)
          (then_apply time commit _ [] cleared _ _
            (apply-insert_map time commit key row cleared is_free) (apply_none time commit _)))
        (λ k. lease_of_row-set_row key k (some written) cleared ∙ sets k (key == k) refl) g
    where
      is_free : set_row key (if_live time (rows key)) rows key ≡ none
      is_free = unfold set_row in rw (eq_refl key, e) refl

      sets :
          (k : String) (b : Bool)
          → (key == k) ≡ b
          → (if key == k
              then lease_of_row (some row)
              else lease_of_row (set_row key (if_live time (rows key)) rows k))
            ≡ (if call_key c == k then lease_after c else lease_of_row (rows k))
      sets k true h = rw (p, h, l) refl
      sets k false h =
          rw (p, h) (lease_of_row-set_row key k (if_live time (rows key)) rows ∙ rw h refl)

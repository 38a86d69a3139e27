-- ===== src/Leader/Reads.antt =====
-- getCurrentLeader, whatever its storage answers: what holds of every read and every wait holds
-- after it.
use k8_highlander.Prelude.{
  ℕ, zero, suc, Option, none, some, Result, ok, err, GoError, ◌≡◌, refl, ◌⊎◌, inl, inr,
}
use k8_highlander.Monitoring.{second}
use k8_highlander.Leader.{World, read_leader, get_current_leader}
use k8_highlander.Leader.Interfaces.{Outside}

pub Result-cases :
    {A : Type 0} (r : Result A) → ((a : A) × (r ≡ ok a)) ⊎ ((e : GoError) × (r ≡ err e))
Result-cases (ok a) = inl (a, refl)
Result-cases (err e) = inr (e, refl)

pub Option-cases : {A : Type 0} (o : Option A) → (o ≡ none) ⊎ ((a : A) × (o ≡ some a))
Option-cases none = inl refl
Option-cases (some a) = inr (a, refl)

module _ {S : Type 0} (o : Outside S) where
  unfoldable pub nap : World S → World S
  nap w = record w { outside = o.clock.sleep second w.outside }

  module _ {ℓ} (P : World S → Type ℓ) (reads : (w : World S) → P w → P (read_leader o w).1)
      (naps : (w : World S) → P w → P (nap w)) where
    pub get_current_leader_induction :
        (retries : ℕ) (w : World S) → P w → P (get_current_leader o retries w).1
    unfolding get_current_leader nap
    get_current_leader_induction zero w p = reads w p
    get_current_leader_induction (suc n) w p = elim (Result-cases (read_leader o w).0) [
      | inl (v, e) ↦ rw (e, get_current_leader) (reads w p)
      | inr (x, e) ↦
          rw (e, get_current_leader) (get_current_leader_induction n _ (naps _ (reads w p)))
    ]

  pub lc-get_current_leader :
      (retries : ℕ) (w : World S) → (get_current_leader o retries w).1.lc ≡ w.lc
  unfolding read_leader nap
  lc-get_current_leader retries w =
      get_current_leader_induction (λ u. u.lc ≡ w.lc) (λ u p. p) (λ u p. p) retries w refl

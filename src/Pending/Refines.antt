-- ===== src/Pending/Refines.antt =====
-- The table with its timers against the ledger: what an operation does to the phases of all ids.
use learning_cuda.Base.{
  ℕ, ◌≡◌, refl, inl, inr, Option, none, some, ◌∷◌, Key, nat_key, arith, Option-cases,
}
use learning_cuda.JsMap.{get, remove}
use learning_cuda.JsMap.Laws.{get-put, get-remove, get-put_self, get-remove_self, same_refl}
use learning_cuda.JsMap.Order.{get-Absent, Absent-keys}
use learning_cuda.Timers.{clear_timer}
use learning_cuda.Pending.{Desk, register, settle, settle_entry, expire, expire_armed, fail_all}
use learning_cuda.Pending.Invariant.{Inv, IsNew}
use learning_cuda.Pending.Failed.{log_all-other, log_all-own}
use learning_cuda.Pending.Ledger.{
  Phase, unasked, waiting, done, answered, Move, asks, answers, answers_all, Reach, here, next,
}

abbrev pub phase_of : {R : Type 0} → Option ℕ → Option R → Phase R
phase_of (some h) o = waiting
phase_of none none = unasked
phase_of none (some r) = done r

module _ {K R : Type 0} ⦃e : Key K⦄ where
  -- The phase of an id, as its promise shows it.
  abbrev pub phase : Desk K R → K → Phase R
  phase d k = phase_of (get k d.pending) (get k d.settled)

  -- The phases move from those of one table to those of the other, by moves that `P` allows.
  abbrev pub Follows : (Move K R → Type 0) → Desk K R → Desk K R → Type 0
  Follows P d d' = Reach P (phase d) (phase d')

  pub register-waiting : (k : K) (d : Desk K R) → phase (register k d) k ≡ waiting
  unfolding register
  register-waiting k d = rw (get-put_self k d.timers.next d.pending) refl

  pub IsNew-unasked : (k : K) (d : Desk K R) → IsNew k d → phase d k ≡ unasked
  IsNew-unasked k d new = rw (new.0, get-Absent k d.settled new.1) refl

  pub register-Follows :
      {P : Move K R → Type 0} (k : K) (d : Desk K R)
      → P (asks k)
      → IsNew k d
      → Follows P d (register k d)
  unfolding register
  register-Follows k d p new =
      next (asks k) here p
        (IsNew-unasked k d new, λ j. ground (arith, get-put k j d.timers.next d.pending))

  close-answers :
      {P : Move K R → Type 0} (k : K) (r : R) (h i : ℕ) (d : Desk K R)
      → P (answers k r)
      → get k d.pending ≡ some h
      → Follows P d (record {
        pending = remove k d.pending;
        timers = clear_timer i d.timers;
        settled = (k, r) ∷ d.settled;
      })
  unfolding get
  close-answers k r h i d p g =
      next (answers k r) here p (ground (arith, g), λ j. ground (arith, get-remove k j d.pending))

  settle_entry-Follows :
      {P : Move K R → Type 0} (k : K) (r : R) (found : Option ℕ) (d : Desk K R)
      → P (answers k r)
      → get k d.pending ≡ found
      → Follows P d (settle_entry k r found d)
  unfolding settle_entry
  settle_entry-Follows k r none d p g = here
  settle_entry-Follows k r (some h) d p g = close-answers k r h h d p g

  pub settle-Follows :
      {P : Move K R → Type 0} (k : K) (r : R) (d : Desk K R)
      → P (answers k r)
      → Follows P d (settle k r d)
  unfolding settle
  settle-Follows k r d p = settle_entry-Follows k r (get k d.pending) d p refl

  expire_armed-Follows :
      {P : Move K R → Type 0} (h : ℕ) (r : R) (found : Option K) (d : Desk K R)
      → get h d.timers.armed ≡ found
      → ((k : K) → found ≡ some k → P (answers k r))
      → Inv d
      → Follows P d (expire_armed h r found d)
  unfolding expire_armed
  expire_armed-Follows h r none d g p v = here
  expire_armed-Follows h r (some k) d g p v = close-answers k r h h d (p k refl) (v.owned h k g)

  pub expire-Follows :
      {P : Move K R → Type 0} (h : ℕ) (r : R) (d : Desk K R)
      → ((k : K) → get h d.timers.armed ≡ some k → P (answers k r))
      → Inv d
      → Follows P d (expire h r d)
  unfolding expire
  expire-Follows h r d p v = expire_armed-Follows h r (get h d.timers.armed) d refl p v

  -- The id of a timer that runs out gets the outcome.
  pub expire-done :
      (h : ℕ) (r : R) (k : K) (d : Desk K R)
      → get h d.timers.armed ≡ some k
      → phase (expire h r d) k ≡ done r
  unfolding expire expire_armed get
  expire-done h r k d g = rw (g, expire_armed, get-remove_self k d.pending, same_refl k) refl

  pub fail_all-answers :
      (r : R) (d : Desk K R) → Inv d → (j : K) → phase (fail_all r d) j ≡ answered r (phase d j)
  unfolding fail_all get
  fail_all-answers r d v j = elim (Option-cases (get j d.pending)) [
    | inl off ↦ ground (arith, log_all-other r j d.pending d.settled (Absent-keys j d.pending off))
    | inr (h, on) ↦ ground (arith, log_all-own r j h d.pending d.settled v.table on)
  ]

  pub fail_all-Follows :
      {P : Move K R → Type 0} (r : R) (d : Desk K R)
      → P (answers_all r)
      → Inv d
      → Follows P d (fail_all r d)
  fail_all-Follows r d p v = next (answers_all r) here p (fail_all-answers r d v)

-- ===== src/Pending/Invariant.antt =====
-- The table, its timers and the log of settled promises.
use learning_cuda.Base.{
  ℕ, ◌≤◌, ◌≡◌, ◌≢◌, refl, sym, ap, subst, inl, inr, Option, none, some, List, [], ◌∷◌, Key, nat_key,
  arith, All, Option-cases, Bool-cases,
}
use learning_cuda.JsMap.{JsMap, get, put, remove, keys}
use learning_cuda.JsMap.Laws.{get-put, get-remove, get-remove_self}
use learning_cuda.JsMap.Order.{
  Absent, Distinct, Absent-keys, keys-put_new, keys-remove, Distinct-concat, Distinct-splice_out,
}
use learning_cuda.JsMap.Inverse.{LeadsBack, put-LeadsBack, remove-LeadsBack}
use learning_cuda.Timers.{Timers, set_timer, clear_timer, idle}
use learning_cuda.Pending.{
  Desk, empty_desk, register, settle, settle_entry, expire, expire_armed, clear_all, log_all,
  fail_all,
}

still_new :
    {K : Type 0} (k : K) (ks log : List K)
    → Absent k ks
    → All (λ j. Absent j log) ks
    → All (λ j. Absent j (k ∷ log)) ks
still_new k [] log d a = tt
still_new k (j ∷ ks) log d a = ((λ q. d.0 (sym q), a.0), still_new k ks log d.1 a.1)

no_log : {K : Type 0} (ks : List K) → All (λ k. Absent k []) ks
no_log [] = tt
no_log (k ∷ ks) = (tt, no_log ks)

clear_all-next : {K : Type 0} (m : JsMap K ℕ) (t : Timers K) → (clear_all m t).next ≡ t.next
unfolding clear_all clear_timer
clear_all-next [] t = refl
clear_all-next ((k, h) ∷ m) t = clear_all-next m (clear_timer h t)

module _ {K : Type 0} ⦃e : Key K⦄ where
  Distinct-put :
      (k : K) (h : ℕ) (m : JsMap K ℕ)
      → get k m ≡ none
      → Distinct (keys m)
      → Distinct (keys (put k h m))
  Distinct-put k h m new d =
      subst Distinct (sym (keys-put_new k h m new))
        (Distinct-concat k (keys m) d (Absent-keys k m new))

  Distinct-remove : (k : K) (m : JsMap K ℕ) → Distinct (keys m) → Distinct (keys (remove k m))
  Distinct-remove k m d =
      subst Distinct (sym (keys-remove k m d)) (Distinct-splice_out k (keys m) d)

  closed-put :
      (k : K) (h : ℕ) (m : JsMap K ℕ) (ks : List K)
      → Absent k ks
      → All (λ j. get j m ≡ none) ks
      → All (λ j. get j (put k h m) ≡ none) ks
  closed-put k h m [] a c = tt
  closed-put k h m (j ∷ ks) a c =
      (ground (arith, get-put k j h m, e.same_iff k j), closed-put k h m ks a.1 c.1)

  closed-remove :
      (k : K) (m : JsMap K ℕ) (ks : List K)
      → All (λ j. get j m ≡ none) ks
      → All (λ j. get j (remove k m) ≡ none) ks
  closed-remove k m [] c = tt
  closed-remove k m (j ∷ ks) c = (ground (arith, get-remove k j m), closed-remove k m ks c.1)

  -- A pending id is not in the log.
  pub pending_Absent :
      (k : K) (h : ℕ) (m : JsMap K ℕ) (ks : List K)
      → get k m ≡ some h
      → All (λ j. get j m ≡ none) ks
      → Absent k ks
  pending_Absent k h m [] g c = tt
  pending_Absent k h m (j ∷ ks) g c =
      (λ q. cc (ap (λ x. get x m) q, g, c.0), pending_Absent k h m ks g c.1)

  pending_unlogged :
      (m : JsMap K ℕ) (log : List K)
      → All (λ k. get k m ≡ none) log
      → All (λ k. Absent k log) (keys m)
  pending_unlogged m [] c = no_log (keys m)
  pending_unlogged m (j ∷ log) c =
      still_new j (keys m) log (Absent-keys j m c.0) (pending_unlogged m log c.1)

  nothing_pending : (ks : List K) → All (λ k. get {V = ℕ} k [] ≡ none) ks
  unfolding get
  nothing_pending [] = tt
  nothing_pending (k ∷ ks) = (refl, nothing_pending ks)

  -- A timer that is not armed stays so.
  clear_all-none :
      (h : ℕ) (m : JsMap K ℕ) (t : Timers K)
      → get h t.armed ≡ none
      → get h (clear_all m t).armed ≡ none
  unfolding clear_all clear_timer
  clear_all-none h [] t q = q
  clear_all-none h ((k, i) ∷ m) t q =
      clear_all-none h m (clear_timer i t) (ground (arith, get-remove i h t.armed))

  -- The timers of the table are cleared.
  clear_all-cleared :
      (k : K) (h : ℕ) (m : JsMap K ℕ) (t : Timers K)
      → get k m ≡ some h
      → get h (clear_all m t).armed ≡ none
  unfolding clear_all clear_timer get
  clear_all-cleared k h [] t q = cc (q)
  clear_all-cleared k h ((j, i) ∷ m) t q = elim (Bool-cases (e.same j k)) [
    | inl hit ↦
        clear_all-none h m (clear_timer i t)
          (ground (arith, get-remove i h t.armed, nat_key.same_iff i h))
    | inr miss ↦ clear_all-cleared k h m (clear_timer i t) (ground (arith))
  ]

-- The ids of the table join the log, all of them new to it.
log_all-Distinct :
    {K R : Type 0} (r : R) (m : JsMap K ℕ) (log : List (K × R))
    → Distinct (keys m)
    → All (λ k. Absent k (keys log)) (keys m)
    → Distinct (keys log)
    → Distinct (keys (log_all r m log))
unfolding log_all
log_all-Distinct r [] log d a once = once
log_all-Distinct r ((k, h) ∷ m) log d a once =
    log_all-Distinct r m ((k, r) ∷ log) d.1 (still_new k (keys m) (keys log) d.0 a.1) (a.0, once)

module _ {K R : Type 0} ⦃e : Key K⦄ where
  -- The table and the armed timers are each other's inverse, handles are fresh, and the promises in the
  -- log are different and not in the table.
  pub record Inv (d : Desk K R) : Type 0 where
    pub armed : LeadsBack d.pending d.timers.armed
    pub owned : LeadsBack d.timers.armed d.pending
    pub fresh : (h : ℕ) → d.timers.next ≤ h → get h d.timers.armed ≡ none
    pub closed : All (λ k. get k d.pending ≡ none) (keys d.settled)
    pub once : Distinct (keys d.settled)
    pub table : Distinct (keys d.pending)

  pub empty_desk-Inv : Inv empty_desk
  unfolding empty_desk idle get
  empty_desk-Inv = record {
    armed = λ k h q. cc (q);
    owned = λ h k q. cc (q);
    fresh = λ h q. refl;
    closed = tt;
    once = tt;
    table = tt;
  }

  -- An id that has never been registered: it is not pending, and not in the log.
  abbrev pub IsNew : K → Desk K R → Type 0
  IsNew k d = (get k d.pending ≡ none) × Absent k (keys d.settled)

  pub register-Inv : (k : K) (d : Desk K R) → IsNew k d → Inv d → Inv (register k d)
  unfolding register set_timer
  register-Inv k d new v = record {
    armed =
        put-LeadsBack k d.timers.next d.pending d.timers.armed (v.fresh d.timers.next (omega arith))
          v.armed;
    owned = put-LeadsBack d.timers.next k d.timers.armed d.pending new.0 v.owned;
    fresh = λ h q. ground (arith, get-put d.timers.next h k d.timers.armed, v.fresh h);
    closed = closed-put k d.timers.next d.pending (keys d.settled) new.1 v.closed;
    once = v.once;
    table = Distinct-put k d.timers.next d.pending new.0 v.table;
  }

  -- The id and its timer leave the table together.
  close-Inv :
      (k : K) (h : ℕ) (r : R) (d : Desk K R)
      → Inv d
      → get k d.pending ≡ some h
      → Inv (record {
        pending = remove k d.pending;
        timers = clear_timer h d.timers;
        settled = (k, r) ∷ d.settled;
      })
  unfolding clear_timer
  close-Inv k h r d v g = record {
    armed = remove-LeadsBack k h d.pending d.timers.armed (v.armed k h g) v.armed;
    owned = remove-LeadsBack h k d.timers.armed d.pending g v.owned;
    fresh = λ i q. ground (arith, get-remove h i d.timers.armed, v.fresh i);
    closed = (get-remove_self k d.pending, closed-remove k d.pending (keys d.settled) v.closed);
    once = (pending_Absent k h d.pending (keys d.settled) g v.closed, v.once);
    table = Distinct-remove k d.pending v.table;
  }

  settle_entry-Inv :
      (k : K) (r : R) (found : Option ℕ) (d : Desk K R)
      → get k d.pending ≡ found
      → Inv d
      → Inv (settle_entry k r found d)
  unfolding settle_entry
  settle_entry-Inv k r none d g v = v
  settle_entry-Inv k r (some h) d g v = close-Inv k h r d v g

  pub settle-Inv : (k : K) (r : R) (d : Desk K R) → Inv d → Inv (settle k r d)
  unfolding settle
  settle-Inv k r d v = settle_entry-Inv k r (get k d.pending) d refl v

  expire_armed-Inv :
      (h : ℕ) (r : R) (found : Option K) (d : Desk K R)
      → get h d.timers.armed ≡ found
      → Inv d
      → Inv (expire_armed h r found d)
  unfolding expire_armed
  expire_armed-Inv h r none d g v = v
  expire_armed-Inv h r (some k) d g v = close-Inv k h r d v (v.owned h k g)

  pub expire-Inv : (h : ℕ) (r : R) (d : Desk K R) → Inv d → Inv (expire h r d)
  unfolding expire
  expire-Inv h r d v = expire_armed-Inv h r (get h d.timers.armed) d refl v

  pub all_cleared :
      (r : R) (d : Desk K R)
      → Inv d
      → (h : ℕ) (k : K) → get h (clear_all d.pending d.timers).armed ≢ some k
  all_cleared r d v h k q = elim (Option-cases (get h d.timers.armed)) [
    | inl off ↦ cc (clear_all-none h d.pending d.timers off, q)
    | inr (j, on) ↦ cc (clear_all-cleared j h d.pending d.timers (v.owned h j on), q)
  ]

  pub fail_all-Inv : (r : R) (d : Desk K R) → Inv d → Inv (fail_all r d)
  unfolding fail_all get
  fail_all-Inv r d v = record {
    armed = λ k h q. cc (q);
    owned = λ h k q. absurd (all_cleared r d v h k q);
    fresh = λ h q.
        clear_all-none h d.pending d.timers
          (v.fresh h (subst (λ n. n ≤ h) (clear_all-next d.pending d.timers) q));
    closed = nothing_pending (keys (log_all r d.pending d.settled));
    once =
        log_all-Distinct r d.pending d.settled v.table
          (pending_unlogged d.pending (keys d.settled) v.closed) v.once;
    table = tt;
  }

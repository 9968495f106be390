-- ===== src/Pending/Accounts.antt =====
-- How many requests there are: pending ones, and settled ones.
use learning_cuda.Base.{
  ℕ, suc, ◌+◌, ◌≡◌, refl, ap, ◌∙◌, Option, none, some, List, [], ◌∷◌, Key, nat_key, arith, length,
  length-append,
}
use learning_cuda.JsMap.{JsMap, get, put, remove, keys}
use learning_cuda.JsMap.Order.{Distinct, remove-Absent, put-Absent, Absent-keys}
use learning_cuda.Pending.{
  Desk, register, settle, settle_entry, expire, expire_armed, log_all, fail_all,
}
use learning_cuda.Pending.Invariant.{Inv}

-- The promises that were made.
abbrev pub promises : {K R : Type 0} → Desk K R → ℕ
promises d = length d.pending + length d.settled

length-log_all :
    {K R : Type 0} (r : R) (m : JsMap K ℕ) (log : List (K × R))
    → length (log_all r m log) ≡ length m + length log
unfolding log_all
length-log_all r [] log = omega arith
length-log_all r ((k, h) ∷ m) log = omega (arith, length-log_all r m ((k, r) ∷ log))

module _ {K : Type 0} ⦃e : Key K⦄ where
  length-remove :
      (k : K) (h : ℕ) (m : JsMap K ℕ)
      → Distinct (keys m)
      → get k m ≡ some h
      → suc (length (remove k m)) ≡ length m
  unfolding remove get
  length-remove k h [] d g = cc (g)
  length-remove k h ((j, i) ∷ m) d g =
      ground (arith, e.same_iff j k, length-remove k h m d.1, remove-Absent k m)

  length-put :
      (k : K) (h : ℕ) (m : JsMap K ℕ) → get k m ≡ none → length (put k h m) ≡ suc (length m)
  length-put k h m new =
      ap length (put-Absent k h m (Absent-keys k m new))
      ∙ omega (arith, length-append m ((k, h) ∷ []))

module _ {K R : Type 0} ⦃e : Key K⦄ where
  pub promises-register :
      (k : K) (d : Desk K R) → get k d.pending ≡ none → promises (register k d) ≡ suc (promises d)
  unfolding register
  promises-register k d new = omega (arith, length-put k d.timers.next d.pending new)

  settle_entry-promises :
      (k : K) (r : R) (found : Option ℕ) (d : Desk K R)
      → get k d.pending ≡ found
      → Inv d
      → promises (settle_entry k r found d) ≡ promises d
  unfolding settle_entry
  settle_entry-promises k r none d g v = refl
  settle_entry-promises k r (some h) d g v = omega (arith, length-remove k h d.pending v.table g)

  pub promises-settle :
      (k : K) (r : R) (d : Desk K R) → Inv d → promises (settle k r d) ≡ promises d
  unfolding settle
  promises-settle k r d v = settle_entry-promises k r (get k d.pending) d refl v

  expire_armed-promises :
      (h : ℕ) (r : R) (found : Option K) (d : Desk K R)
      → get h d.timers.armed ≡ found
      → Inv d
      → promises (expire_armed h r found d) ≡ promises d
  unfolding expire_armed
  expire_armed-promises h r none d g v = refl
  expire_armed-promises h r (some k) d g v =
      omega (arith, length-remove k h d.pending v.table (v.owned h k g))

  pub promises-expire :
      (h : ℕ) (r : R) (d : Desk K R) → Inv d → promises (expire h r d) ≡ promises d
  unfolding expire
  promises-expire h r d v = expire_armed-promises h r (get h d.timers.armed) d refl v

  pub promises-fail_all : (r : R) (d : Desk K R) → promises (fail_all r d) ≡ promises d
  unfolding fail_all
  promises-fail_all r d = omega (arith, length-log_all r d.pending d.settled)

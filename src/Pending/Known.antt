-- ===== src/Pending/Known.antt =====
-- Properties of the ids in the table and in the log.
use learning_cuda.Base.{
  ℕ, ◌≡◌, refl, subst, inl, inr, Option, none, some, List, [], ◌∷◌, Key, nat_key, arith, All,
  Bool-cases,
}
use learning_cuda.JsMap.{JsMap, get, put, remove, keys}
use learning_cuda.Pending.{
  Desk, register, settle, settle_entry, expire, expire_armed, log_all, fail_all,
}
use learning_cuda.Pending.Invariant.{Inv}

module _ {K : Type 0} ⦃e : Key K⦄ (P : K → Type 0) where
  get-known : (k : K) (h : ℕ) (m : JsMap K ℕ) → All P (keys m) → get k m ≡ some h → P k
  unfolding get
  get-known k h [] a g = cc (g)
  get-known k h ((j, i) ∷ m) a g = elim (Bool-cases (e.same j k)) [
    | inl hit ↦ subst P ((e.same_iff j k).0 hit) a.0
    | inr miss ↦ get-known k h m a.1 (ground (arith))
  ]

  put-known : (k : K) (h : ℕ) (m : JsMap K ℕ) → P k → All P (keys m) → All P (keys (put k h m))
  unfolding put
  put-known k h [] p a = (p, tt)
  put-known k h ((j, i) ∷ m) p a = elim (Bool-cases (e.same j k)) [
    | inl hit ↦ rw hit (p, a.1)
    | inr miss ↦ rw miss (a.0, put-known k h m p a.1)
  ]

  remove-known : (k : K) (m : JsMap K ℕ) → All P (keys m) → All P (keys (remove k m))
  unfolding remove
  remove-known k [] a = tt
  remove-known k ((j, i) ∷ m) a = elim (Bool-cases (e.same j k)) [
    | inl hit ↦ rw hit (remove-known k m a.1)
    | inr miss ↦ rw miss (a.0, remove-known k m a.1)
  ]

module _ {K R : Type 0} ⦃e : Key K⦄ (P : K → Type 0) where
  abbrev pub Known : Desk K R → Type 0
  Known d = All P (keys d.pending) × All P (keys d.settled)

  pub register-Known : (k : K) (d : Desk K R) → P k → Known d → Known (register k d)
  unfolding register
  register-Known k d p a = (put-known P k d.timers.next d.pending p a.0, a.1)

  settle_entry-Known :
      (k : K) (r : R) (found : Option ℕ) (d : Desk K R)
      → get k d.pending ≡ found
      → Known d
      → Known (settle_entry k r found d)
  unfolding settle_entry
  settle_entry-Known k r none d g a = a
  settle_entry-Known k r (some h) d g a =
      (remove-known P k d.pending a.0, (get-known P k h d.pending a.0 g, a.1))

  pub settle-Known : (k : K) (r : R) (d : Desk K R) → Known d → Known (settle k r d)
  unfolding settle
  settle-Known k r d a = settle_entry-Known k r (get k d.pending) d refl a

  expire_armed-Known :
      (h : ℕ) (r : R) (found : Option K) (d : Desk K R)
      → get h d.timers.armed ≡ found
      → Inv d
      → Known d
      → Known (expire_armed h r found d)
  unfolding expire_armed
  expire_armed-Known h r none d g v a = a
  expire_armed-Known h r (some k) d g v a =
      (remove-known P k d.pending a.0, (get-known P k h d.pending a.0 (v.owned h k g), a.1))

  pub expire-Known : (h : ℕ) (r : R) (d : Desk K R) → Inv d → Known d → Known (expire h r d)
  unfolding expire
  expire-Known h r d v a = expire_armed-Known h r (get h d.timers.armed) d refl v a

  log_all-known :
      (r : R) (m : JsMap K ℕ) (log : List (K × R))
      → All P (keys m)
      → All P (keys log)
      → All P (keys (log_all r m log))
  unfolding log_all
  log_all-known r [] log a b = b
  log_all-known r ((k, h) ∷ m) log a b = log_all-known r m ((k, r) ∷ log) a.1 (a.0, b)

  pub fail_all-Known : (r : R) (d : Desk K R) → Known d → Known (fail_all r d)
  unfolding fail_all
  fail_all-Known r d a = (tt, log_all-known r d.pending d.settled a.0 a.1)

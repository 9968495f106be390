-- ===== src/Pending/Failed.antt =====
-- The outcome of the requests that fail together.
use learning_cuda.Base.{
  ℕ, ◌≡◌, refl, subst, ◌∙◌, some, List, [], ◌∷◌, Key, arith, inl, inr, Bool-cases,
}
use learning_cuda.JsMap.{JsMap, get, keys}
use learning_cuda.JsMap.Order.{Absent, Distinct}
use learning_cuda.Pending.{Desk, log_all, fail_all}
use learning_cuda.Pending.Invariant.{Inv}

module _ {K R : Type 0} ⦃e : Key K⦄ (o : R) where
  -- The outcome of an id that is not in the table is not touched.
  pub log_all-other :
      (k : K) (m : JsMap K ℕ) (log : List (K × R))
      → Absent k (keys m)
      → get k (log_all o m log) ≡ get k log
  unfolding log_all get
  log_all-other k [] log a = refl
  log_all-other k ((j, h) ∷ m) log a =
      log_all-other k m ((j, o) ∷ log) a.1 ∙ ground (arith, e.same_iff j k)

  pub log_all-own :
      (k : K) (h : ℕ) (m : JsMap K ℕ) (log : List (K × R))
      → Distinct (keys m)
      → get k m ≡ some h
      → get k (log_all o m log) ≡ some o
  unfolding log_all get
  log_all-own k h [] log d g = cc (g)
  log_all-own k h ((j, i) ∷ m) log d g = elim (Bool-cases (e.same j k)) [
    | inl hit ↦
        log_all-other k m ((j, o) ∷ log)
          (subst (λ x. Absent x (keys m)) ((e.same_iff j k).0 hit) d.0)
        ∙ ground (arith)
    | inr miss ↦ log_all-own k h m ((j, o) ∷ log) d.1 (ground (arith))
  ]

  pub fail_all-settled :
      (d : Desk K R)
      → Inv d
      → (k : K) (h : ℕ) → get k d.pending ≡ some h
      → get k (fail_all o d).settled ≡ some o
  unfolding fail_all
  fail_all-settled d v k h g = log_all-own k h d.pending d.settled v.table g

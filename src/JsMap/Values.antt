-- ===== src/JsMap/Values.antt =====
-- Properties of every value of a map.
use learning_cuda.Base.{◌≡◌, subst, inl, inr, some, [], ◌∷◌, arith, Key, All, Bool-cases}
use learning_cuda.JsMap.{JsMap, get, put, remove, values}

module _ {ℓ κ μ} {K : Type ℓ} {V : Type κ} (P : V → Type μ) ⦃e : Key K⦄ where
  pub All-get : (k : K) (v : V) (m : JsMap K V) → All P (values m) → get k m ≡ some v → P v
  unfolding get
  All-get k v [] a h = cc
  All-get k v ((j, w) ∷ m) a h = elim (Bool-cases (e.same j k)) [
    | inl hit ↦ subst P (ground (arith, hit)) a.0
    | inr miss ↦ All-get k v m a.1 (ground (arith, miss))
  ]

  pub All-put :
      (k : K) (v : V) (m : JsMap K V) → P v → All P (values m) → All P (values (put k v m))
  unfolding put
  All-put k v [] p a = (p, tt)
  All-put k v ((j, w) ∷ m) p a = elim (Bool-cases (e.same j k)) [
    | inl hit ↦ rw hit (p, a.1)
    | inr miss ↦ rw miss (a.0, All-put k v m p a.1)
  ]

  pub All-remove : (k : K) (m : JsMap K V) → All P (values m) → All P (values (remove k m))
  unfolding remove
  All-remove k [] a = tt
  All-remove k ((j, w) ∷ m) a = elim (Bool-cases (e.same j k)) [
    | inl hit ↦ rw hit (All-remove k m a.1)
    | inr miss ↦ rw miss (a.0, All-remove k m a.1)
  ]

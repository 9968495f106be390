-- ===== src/JsMap/Order.antt =====
-- The keys of a map in insertion order, and the removal of one entry from an order list (`indexOf` and
-- `splice`), which follows a deletion.
use learning_cuda.Base.{
  ◌≤◌, ◌≡◌, ◌≢◌, refl, sym, none, some, List, [], ◌∷◌, ◌++◌, arith, if◌then◌else◌, Key, length,
}
use learning_cuda.JsMap.{JsMap, get, put, remove, keys}

-- `k` does not occur in the list.
abbrev pub Absent {ℓ} : {K : Type ℓ} → K → List K → Type ℓ
Absent k [] = Unit
Absent k (x ∷ xs) = (x ≢ k) × Absent k xs

abbrev pub Distinct {ℓ} : {K : Type ℓ} → List K → Type ℓ
Distinct [] = Unit
Distinct (x ∷ xs) = Absent x xs × Distinct xs

module _ {ℓ} {K : Type ℓ} where
  pub Absent-concat : (k j : K) (xs : List K) → Absent k xs → j ≢ k → Absent k (xs ++ j ∷ [])
  Absent-concat k j [] a h = (h, tt)
  Absent-concat k j (x ∷ xs) a h = (a.0, Absent-concat k j xs a.1 h)

  pub Distinct-concat : (k : K) (xs : List K) → Distinct xs → Absent k xs → Distinct (xs ++ k ∷ [])
  Distinct-concat k [] d a = (tt, tt)
  Distinct-concat k (x ∷ xs) d a =
      (Absent-concat x k xs d.0 (λ p. a.0 (sym p)), Distinct-concat k xs d.1 a.1)

module _ {ℓ} {K : Type ℓ} ⦃e : Key K⦄ where
  -- const i = order.indexOf(k); if (i >= 0) order.splice(i, 1)
  unfoldable pub splice_out : K → List K → List K
  splice_out k [] = []
  splice_out k (x ∷ xs) = let rest = splice_out k xs in if e.same x k then xs else x ∷ rest

  pub splice_out-Absent : (k : K) (xs : List K) → Absent k xs → splice_out k xs ≡ xs
  unfolding splice_out
  splice_out-Absent k [] a = refl
  splice_out-Absent k (x ∷ xs) a = ground (arith, e.same_iff x k, splice_out-Absent k xs a.1)

  pub Absent-splice_out : (k j : K) (xs : List K) → Absent j xs → Absent j (splice_out k xs)
  unfolding splice_out
  Absent-splice_out k j [] a = tt
  Absent-splice_out k j (x ∷ xs) a = ground (arith, Absent-splice_out k j xs a.1)

  pub Distinct-splice_out : (k : K) (xs : List K) → Distinct xs → Distinct (splice_out k xs)
  unfolding splice_out
  Distinct-splice_out k [] d = tt
  Distinct-splice_out k (x ∷ xs) d =
      ground (arith, Absent-splice_out k x xs d.0, Distinct-splice_out k xs d.1)

  pub length-splice_out : (k : K) (xs : List K) → length (splice_out k xs) ≤ length xs
  unfolding splice_out
  length-splice_out k [] = omega arith
  length-splice_out k (x ∷ xs) = ground (arith, length-splice_out k xs)

module _ {ℓ κ} {K : Type ℓ} {V : Type κ} ⦃e : Key K⦄ where
  pub Absent-keys : (k : K) (m : JsMap K V) → get k m ≡ none → Absent k (keys m)
  unfolding get
  Absent-keys k [] h = tt
  Absent-keys k ((j, v) ∷ m) h =
      (ground (arith, e.same_iff j k), Absent-keys k m (ground (arith, e.same_iff j k)))

  pub get-Absent : (k : K) (m : JsMap K V) → Absent k (keys m) → get k m ≡ none
  unfolding get
  get-Absent k [] h = refl
  get-Absent k ((j, v) ∷ m) h = ground (arith, e.same_iff j k, get-Absent k m h.1)

  -- A new key goes to the end.
  pub keys-put_new :
      (k : K) (v : V) (m : JsMap K V) → get k m ≡ none → keys (put k v m) ≡ keys m ++ k ∷ []
  unfolding get put
  keys-put_new k v [] h = refl
  keys-put_new k v ((j, w) ∷ m) h = ground (arith, e.same_iff j k, keys-put_new k v m)

  -- A key that is there keeps its place.
  pub keys-put_old :
      (k : K) (v w : V) (m : JsMap K V) → get k m ≡ some w → keys (put k v m) ≡ keys m
  unfolding get put
  keys-put_old k v w [] h = cc
  keys-put_old k v w ((j, u) ∷ m) h = ground (arith, e.same_iff j k, keys-put_old k v w m)

  pub remove-Absent : (k : K) (m : JsMap K V) → Absent k (keys m) → remove k m ≡ m
  unfolding remove
  remove-Absent k [] a = refl
  remove-Absent k ((j, v) ∷ m) a = ground (arith, e.same_iff j k, remove-Absent k m a.1)

  pub keys-remove :
      (k : K) (m : JsMap K V) → Distinct (keys m) → keys (remove k m) ≡ splice_out k (keys m)
  unfolding remove splice_out
  keys-remove k [] d = refl
  keys-remove k ((j, v) ∷ m) d =
      ground (arith, e.same_iff j k, keys-remove k m d.1, remove-Absent k m)

  -- What the deletion of the first key leaves.
  pub keys-remove_first :
      (k : K) (ks : List K) (m : JsMap K V)
      → Distinct (keys m)
      → keys m ≡ k ∷ ks
      → keys (remove k m) ≡ ks
  unfolding remove
  keys-remove_first k ks [] d h = cc
  keys-remove_first k ks ((j, v) ∷ m) d h = ground (arith, e.same_iff j k, remove-Absent k m)

  pub put-Absent :
      (k : K) (v : V) (m : JsMap K V) → Absent k (keys m) → put k v m ≡ m ++ (k, v) ∷ []
  unfolding put
  put-Absent k v [] a = refl
  put-Absent k v ((j, w) ∷ m) a = ground (arith, e.same_iff j k, put-Absent k v m a.1)

  -- A write is forgotten by the deletion of its key.
  pub remove-put : (k : K) (v : V) (m : JsMap K V) → remove k (put k v m) ≡ remove k m
  unfolding remove put
  remove-put k v [] = ground (arith, e.same_iff k k)
  remove-put k v ((j, w) ∷ m) = ground (arith, e.same_iff j k, e.same_iff k k, remove-put k v m)

  -- A key of the order list has an entry.
  pub get_present :
      (k : K) (ks : List K) (m : JsMap K V) → keys m ≡ k ∷ ks → (v : V) × (get k m ≡ some v)
  unfolding get
  get_present k ks [] h = cc
  get_present k ks ((j, w) ∷ m) h = (w, ground (arith, e.same_iff j k))

-- ===== src/JsMap/Inverse.antt =====
-- Two maps, each of which leads back from the values of the other.
use learning_cuda.Base.{◌≡◌, none, some, Key, arith}
use learning_cuda.JsMap.{JsMap, get, put, remove}
use learning_cuda.JsMap.Laws.{get-put, get-remove}

-- What a key leads to leads back to the key.
abbrev pub LeadsBack {ℓ κ} :
    {K : Type ℓ} {L : Type κ} ⦃e : Key K⦄ ⦃f : Key L⦄ → JsMap K L → JsMap L K → Type (ℓ ⊔ κ)
LeadsBack {K = K} {L = L} m a = (k : K) (l : L) → get k m ≡ some l → get l a ≡ some k

module _ {ℓ κ} {K : Type ℓ} {L : Type κ} ⦃e : Key K⦄ ⦃f : Key L⦄ where
  pub put-LeadsBack :
      (k : K) (l : L) (m : JsMap K L) (a : JsMap L K)
      → get l a ≡ none
      → LeadsBack m a
      → LeadsBack (put k l m) (put l k a)
  put-LeadsBack k l m a new v j i q =
      ground (arith, get-put k j l m, get-put l i k a, e.same_iff k j, f.same_iff l i, v j i)

  pub remove-LeadsBack :
      (k : K) (l : L) (m : JsMap K L) (a : JsMap L K)
      → get l a ≡ some k
      → LeadsBack m a
      → LeadsBack (remove k m) (remove l a)
  remove-LeadsBack k l m a there v j i q =
      ground (arith, get-remove k j m, get-remove l i a, e.same_iff k j, f.same_iff l i, v j i)

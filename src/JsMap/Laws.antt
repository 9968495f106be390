-- ===== src/JsMap/Laws.antt =====
-- What a lookup sees after a write or a deletion.
use learning_cuda.Base.{◌≡◌, ◌≢◌, refl, true, false, none, some, [], ◌∷◌, arith, if◌then◌else◌, Key}
use learning_cuda.JsMap.{JsMap, get, put, remove, has}

module _ {ℓ} {K : Type ℓ} ⦃e : Key K⦄ where
  pub same_refl : (k : K) → e.same k k ≡ true
  same_refl k = (e.same_iff k k).1 refl

  pub same_ne : (k j : K) → k ≢ j → e.same k j ≡ false
  same_ne k j h = ground (arith, e.same_iff k j)

module _ {ℓ κ} {K : Type ℓ} {V : Type κ} ⦃e : Key K⦄ where
  pub get-put :
      (k j : K) (v : V) (m : JsMap K V)
      → get j (put k v m) ≡ (if e.same k j then some v else get j m)
  unfolding get put
  get-put k j v [] = refl
  get-put k j v ((i, w) ∷ m) =
      ground (arith, e.same_iff i k, e.same_iff i j, e.same_iff k j, get-put k j v m)

  pub get-remove :
      (k j : K) (m : JsMap K V) → get j (remove k m) ≡ (if e.same k j then none else get j m)
  unfolding get remove
  get-remove k j [] = ground arith
  get-remove k j ((i, w) ∷ m) =
      ground (arith, e.same_iff i k, e.same_iff i j, e.same_iff k j, get-remove k j m)

  pub get-put_self : (k : K) (v : V) (m : JsMap K V) → get k (put k v m) ≡ some v
  get-put_self k v m = rw (get-put k k v m, same_refl k)

  pub get-remove_self : (k : K) (m : JsMap K V) → get k (remove k m) ≡ none
  get-remove_self k m = rw (get-remove k k m, same_refl k)

  pub get-put_ne : (k j : K) (v : V) (m : JsMap K V) → k ≢ j → get j (put k v m) ≡ get j m
  get-put_ne k j v m h = rw (get-put k j v m, same_ne k j h)

  pub get-remove_ne : (k j : K) (m : JsMap K V) → k ≢ j → get j (remove k m) ≡ get j m
  get-remove_ne k j m h = rw (get-remove k j m, same_ne k j h)

  pub has-remove_self : (k : K) (m : JsMap K V) → has k (remove k m) ≡ false
  unfolding has
  has-remove_self k m = rw (get-remove_self k m, has)

pub ruleset map_laws = (get-put, get-remove)

-- ===== src/JsMap.antt =====
-- The JavaScript `Map` and `Set` that the services keep their tables in, as association lists in
-- insertion order: `set` on a key that is there keeps its place, and a new key goes to the end.
pub mod Laws
pub mod Order
pub mod Values
pub mod Inverse
use learning_cuda.Base.{Bool, true, false, Option, none, some, List, [], ◌∷◌, if◌then◌else◌, Key}

abbrev pub JsMap {ℓ κ} : Type ℓ → Type κ → Type (ℓ ⊔ κ)
JsMap K V = List (K × V)

module _ {ℓ κ} {K : Type ℓ} {V : Type κ} ⦃e : Key K⦄ where
  -- map.get(k); `none` is undefined
  unfoldable pub get : K → JsMap K V → Option V
  get k [] = none
  get k ((j, v) ∷ m) = if e.same j k then some v else get k m

  -- map.set(k, v)
  unfoldable pub put : K → V → JsMap K V → JsMap K V
  put k v [] = (k, v) ∷ []
  put k v ((j, w) ∷ m) = if e.same j k then (k, v) ∷ m else (j, w) ∷ put k v m

  -- map.delete(k)
  unfoldable pub remove : K → JsMap K V → JsMap K V
  remove k [] = []
  remove k ((j, v) ∷ m) = let rest = remove k m in if e.same j k then rest else (j, v) ∷ rest

  -- map.has(k)
  unfoldable pub has : K → JsMap K V → Bool
  has k m = elim (get k m) [ none ↦ false | some v ↦ true ]

module _ {ℓ κ} {K : Type ℓ} {V : Type κ} where
  -- map.keys() and map.values()
  abbrev pub keys : JsMap K V → List K
  keys [] = []
  keys ((k, v) ∷ m) = k ∷ keys m

  abbrev pub values : JsMap K V → List V
  values [] = []
  values ((k, v) ∷ m) = v ∷ values m

-- ===== src/Panel/Tidy.antt =====
-- Cards that are expanded and cards that are enabled, over the operations of
-- src/front-end/src/presentation/components/filters/FilterPanel.tsx.
use learning_cuda.Base.{
  ℕ, zero, suc, ◌≡◌, refl, ap, subst, Bool, true, Option, none, some, List, [], ◌∷◌, String, map,
  length, get_elem?, arith, inl, inr, All, Bool-cases, string_key,
}
use learning_cuda.Grid.{ActiveFilterState}
use learning_cuda.Panel.{
  Definition, FilterState, change_at, toggled, with_enabled, with_parameter, remove_at, insert_at,
  initial_state, activate, activate_all,
}

-- An expanded card is enabled.
abbrev pub IsTidy : FilterState → Type 0
IsTidy f = (f.expanded ≡ true) → (f.enabled ≡ true)

pub toggled-IsTidy : (f : FilterState) → IsTidy f → IsTidy (toggled f)
toggled-IsTidy f t = ground arith

pub with_enabled-IsTidy : (b : Bool) (f : FilterState) → IsTidy f → IsTidy (with_enabled b f)
with_enabled-IsTidy b f t = ground arith

pub with_parameter-IsTidy :
    (i k v : String) (f : FilterState) → IsTidy f → IsTidy (with_parameter i k v f)
with_parameter-IsTidy i k v f t = elim (Bool-cases (string_key.same f.id i)) [
  | inl hit ↦ simp (hit) t
  | inr miss ↦ simp (miss) t
]

module _ (g : FilterState → FilterState) (keeps : (f : FilterState) → IsTidy f → IsTidy (g f)) where
  pub change_at-IsTidy :
      (i : ℕ) (fs : List FilterState) → All IsTidy fs → All IsTidy (change_at i g fs)
  unfolding change_at
  change_at-IsTidy i [] a = tt
  change_at-IsTidy zero (f ∷ fs) a = (keeps f a.0, a.1)
  change_at-IsTidy (suc i) (f ∷ fs) a = (a.0, change_at-IsTidy i fs a.1)

  pub map-IsTidy : (fs : List FilterState) → All IsTidy fs → All IsTidy (map g fs)
  map-IsTidy [] a = tt
  map-IsTidy (f ∷ fs) a = (keeps f a.0, map-IsTidy fs a.1)

pub length-change_at :
    (i : ℕ) (g : FilterState → FilterState) (fs : List FilterState)
    → length (change_at i g fs) ≡ length fs
unfolding change_at
length-change_at i g [] = refl
length-change_at zero g (f ∷ fs) = refl
length-change_at (suc i) g (f ∷ fs) = ap suc (length-change_at i g fs)

pub length-map :
    (g : FilterState → FilterState) (fs : List FilterState) → length (map g fs) ≡ length fs
length-map g [] = refl
length-map g (f ∷ fs) = ap suc (length-map g fs)

pub remove_at-IsTidy : (i : ℕ) (fs : List FilterState) → All IsTidy fs → All IsTidy (remove_at i fs)
unfolding remove_at
remove_at-IsTidy i [] a = tt
remove_at-IsTidy zero (f ∷ fs) a = a.1
remove_at-IsTidy (suc i) (f ∷ fs) a = (a.0, remove_at-IsTidy i fs a.1)

pub insert_at-IsTidy :
    (i : ℕ) (f : FilterState) (fs : List FilterState)
    → IsTidy f
    → All IsTidy fs
    → All IsTidy (insert_at i f fs)
unfolding insert_at
insert_at-IsTidy zero f fs t a = (t, a)
insert_at-IsTidy (suc i) f [] t a = (t, tt)
insert_at-IsTidy (suc i) f (x ∷ fs) t a = (a.0, insert_at-IsTidy i f fs t a.1)

pub get-IsTidy :
    (i : ℕ) (f : FilterState) (fs : List FilterState)
    → All IsTidy fs
    → get_elem? fs i ≡ some f
    → IsTidy f
get-IsTidy i f [] a e = cc (e)
get-IsTidy zero f (x ∷ fs) a e = subst (λ o. IsTidyIn o) e a.0
  where
    IsTidyIn : Option FilterState → Type 0
    IsTidyIn none = ⊥
    IsTidyIn (some x) = IsTidy x
get-IsTidy (suc i) f (x ∷ fs) a e = get-IsTidy i f fs a.1 e

pub initial-IsTidy : (ds : List Definition) → All IsTidy (map initial_state ds)
initial-IsTidy [] = tt
initial-IsTidy (d ∷ ds) = (λ e. cc (e), initial-IsTidy ds)

activate-IsTidy :
    (a : ActiveFilterState) (fs : List FilterState) → All IsTidy fs → All IsTidy (activate a fs)
unfolding activate
activate-IsTidy a [] t = tt
activate-IsTidy a (f ∷ fs) t = elim (Bool-cases (string_key.same f.id a.id)) [
  | inl hit ↦ simp (hit) (λ e. refl, t.1)
  | inr miss ↦ simp (miss) (t.0, activate-IsTidy a fs t.1)
]

pub activate_all-IsTidy :
    (active : List ActiveFilterState) (fs : List FilterState)
    → All IsTidy fs
    → All IsTidy (activate_all active fs)
unfolding activate_all
activate_all-IsTidy [] fs t = t
activate_all-IsTidy (a ∷ active) fs t =
    activate_all-IsTidy active (activate a fs) (activate-IsTidy a fs t)

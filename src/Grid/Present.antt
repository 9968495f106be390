-- ===== src/Grid/Present.antt =====
-- Which sources are in the grid, and the list operations of
-- src/front-end/src/presentation/hooks/useGridSources.ts.
use learning_cuda.Base.{
  suc, ◌≤◌, ◌≡◌, ◌≢◌, ◌⊎◌, refl, sym, ap, ◌∙◌, inl, inr, Bool, true, false, Option, none, some,
  List, [], ◌∷◌, ◌++◌, String, string_key, arith, All, length, if◌then◌else◌, Bool-cases,
}
use learning_cuda.JsMap.Laws.{same_ne}
use learning_cuda.JsMap.Order.{Absent, Distinct}
use learning_cuda.Grid.{GridSource, update_where, filter_out}
use learning_cuda.Grid.Reducer.{ids}
use learning_cuda.Grid.Host.{first_id}

-- Some source has the id.
abbrev pub Present : String → List GridSource → Type 0
Present id [] = ⊥
Present id (s ∷ ss) = (s.id ≡ id) ⊎ Present id ss

-- A source is selected, one that is there, unless there is none.
abbrev pub SelectedOf : Option String → List GridSource → Type 0
SelectedOf none ss = ss ≡ []
SelectedOf (some id) ss = Present id ss

pub Present-concat :
    (id : String) (s : GridSource) (ss : List GridSource)
    → Present id ss
    → Present id (ss ++ s ∷ [])
Present-concat id s [] p = absurd p
Present-concat id s (x ∷ ss) (inl e) = inl e
Present-concat id s (x ∷ ss) (inr p) = inr (Present-concat id s ss p)

pub Present-last : (s : GridSource) (ss : List GridSource) → Present s.id (ss ++ s ∷ [])
Present-last s [] = inl refl
Present-last s (x ∷ ss) = inr (Present-last s ss)

pub Present-filter_out :
    (id j : String) (ss : List GridSource) → id ≢ j → Present j ss → Present j (filter_out id ss)
unfolding filter_out
Present-filter_out id j [] ne p = absurd p
Present-filter_out id j (s ∷ ss) ne (inl e) = rw (same_ne s.id id (λ q. ne (sym q ∙ e))) (inl e)
Present-filter_out id j (s ∷ ss) ne (inr p) = elim (Bool-cases (string_key.same s.id id)) [
  | inl hit ↦ simp (hit) (Present-filter_out id j ss ne p)
  | inr miss ↦ simp (miss) (inr (Present-filter_out id j ss ne p))
]

pub ids-concat : (ss : List GridSource) (s : GridSource) → ids (ss ++ s ∷ []) ≡ ids ss ++ s.id ∷ []
ids-concat [] s = refl
ids-concat (x ∷ ss) s = ap (◌∷◌ x.id) (ids-concat ss s)

Absent-filter_out :
    (id j : String) (ss : List GridSource) → Absent j (ids ss) → Absent j (ids (filter_out id ss))
unfolding filter_out
Absent-filter_out id j [] a = tt
Absent-filter_out id j (s ∷ ss) a = elim (Bool-cases (string_key.same s.id id)) [
  | inl hit ↦ simp (hit) (Absent-filter_out id j ss a.1)
  | inr miss ↦ simp (miss) (a.0, Absent-filter_out id j ss a.1)
]

pub Distinct-filter_out :
    (id : String) (ss : List GridSource) → Distinct (ids ss) → Distinct (ids (filter_out id ss))
unfolding filter_out
Distinct-filter_out id [] d = tt
Distinct-filter_out id (s ∷ ss) d = elim (Bool-cases (string_key.same s.id id)) [
  | inl hit ↦ simp (hit) (Distinct-filter_out id ss d.1)
  | inr miss ↦ simp (miss) (Absent-filter_out id s.id ss d.0, Distinct-filter_out id ss d.1)
]

pub All-filter_out :
    (P : GridSource → Type 0) (id : String) (ss : List GridSource)
    → All P ss
    → All P (filter_out id ss)
unfolding filter_out
All-filter_out P id [] a = tt
All-filter_out P id (s ∷ ss) a = elim (Bool-cases (string_key.same s.id id)) [
  | inl hit ↦ simp (hit) (All-filter_out P id ss a.1)
  | inr miss ↦ simp (miss) (a.0, All-filter_out P id ss a.1)
]

pub length-filter_out : (id : String) (ss : List GridSource) → length (filter_out id ss) ≤ length ss
unfolding filter_out
length-filter_out id [] = omega arith
length-filter_out id (s ∷ ss) = elim (Bool-cases (string_key.same s.id id)) [
  | inl hit ↦ simp (hit) (omega (arith, length-filter_out id ss))
  | inr miss ↦ simp (miss) (omega (arith, length-filter_out id ss))
]

pub first_id-SelectedOf : (ss : List GridSource) → SelectedOf (first_id ss) ss
first_id-SelectedOf [] = refl
first_id-SelectedOf (s ∷ ss) = inl refl

pub All-concat :
    (P : GridSource → Type 0) (ss : List GridSource) (s : GridSource)
    → All P ss
    → P s
    → All P (ss ++ s ∷ [])
All-concat P [] s a p = (p, tt)
All-concat P (x ∷ ss) s a p = (a.0, All-concat P ss s a.1 p)

module _ (id : String) (f : GridSource → GridSource) where
  pub length-update_where : (ss : List GridSource) → length (update_where id f ss) ≡ length ss
  unfolding update_where
  length-update_where [] = refl
  length-update_where (s ∷ ss) = ap suc (length-update_where ss)

  one-update_where :
      (P : GridSource → Type 0) (b : Bool) (s : GridSource)
      → P s
      → P (f s)
      → P (if b then f s else s)
  one-update_where P true s p q = q
  one-update_where P false s p q = p

  pub All-update_where :
      (P : GridSource → Type 0)
      → ((s : GridSource) → P s → P (f s))
      → (ss : List GridSource) → All P ss
      → All P (update_where id f ss)
  unfolding update_where
  All-update_where P keeps [] a = tt
  All-update_where P keeps (s ∷ ss) a = (
    one-update_where P (string_key.same s.id id) s a.0 (keeps s a.0),
    All-update_where P keeps ss a.1,
  )

  module _ (keeps : (s : GridSource) → (f s).id ≡ s.id) where
    Present-update_where :
        (j : String) (ss : List GridSource) → Present j ss → Present j (update_where id f ss)
    unfolding update_where
    Present-update_where j [] p = absurd p
    Present-update_where j (s ∷ ss) (inl e) =
        inl (one-update_where (λ x. x.id ≡ j) (string_key.same s.id id) s e (keeps s ∙ e))
    Present-update_where j (s ∷ ss) (inr p) = inr (Present-update_where j ss p)

    pub SelectedOf-update_where :
        (o : Option String) (ss : List GridSource)
        → SelectedOf o ss
        → SelectedOf o (update_where id f ss)
    unfolding update_where
    SelectedOf-update_where none ss e = ap (update_where id f) e
    SelectedOf-update_where (some j) ss p = Present-update_where j ss p

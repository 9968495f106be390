-- ===== src/Pending/Ledger.antt =====
-- What a table of requests promises to its callers, without timers and tables: each id is unasked, or it
-- waits, or it is done with one outcome.
use learning_cuda.Base.{◌≡◌, ◌≢◌, refl, sym, subst, if◌then◌else◌, Key, Bool-cases, inl, inr}

pub data Phase (R : Type 0) : Type 0 where
  unasked waiting : Phase R
  done : R → Phase R

-- How a phase may change: forward only, and an outcome is final.
abbrev pub Advances : {R : Type 0} → Phase R → Phase R → Type 0
Advances unasked q = Unit
Advances waiting unasked = ⊥
Advances waiting q = Unit
Advances (done r) q = q ≡ done r

abbrev pub answered : {R : Type 0} → R → Phase R → Phase R
answered r unasked = unasked
answered r waiting = done r
answered r (done r') = done r'

pub data Move (K R : Type 0) : Type 0 where
  asks : K → Move K R
  answers : K → R → Move K R
  answers_all : R → Move K R

module _ {K R : Type 0} ⦃e : Key K⦄ where
  -- What a move does to the phases, `L` before it and `M` after it: an id is asked, or a waiting id gets
  -- its outcome, or all waiting ids get the same one.
  abbrev pub Step : Move K R → (K → Phase R) → (K → Phase R) → Type 0
  Step (asks k) L M = (L k ≡ unasked) × ((j : K) → M j ≡ (if e.same k j then waiting else L j))
  Step (answers k r) L M = (L k ≡ waiting) × ((j : K) → M j ≡ (if e.same k j then done r else L j))
  Step (answers_all r) L M = (j : K) → M j ≡ answered r (L j)

  -- Moves that are all among those that `P` allows.
  pub data Reach (P : Move K R → Type 0) (L : K → Phase R) : (K → Phase R) → Type 0 where
    here : Reach P L L
    next : {M N : K → Phase R} → (m : Move K R) → Reach P L M → P m → Step m M N → Reach P L N

answered-Advances : {R : Type 0} (r : R) (p : Phase R) → Advances p (answered r p)
answered-Advances r unasked = tt
answered-Advances r waiting = tt
answered-Advances r (done r') = refl

pub Advances-refl : {R : Type 0} (p : Phase R) → Advances p p
Advances-refl unasked = tt
Advances-refl waiting = tt
Advances-refl (done r) = refl

pub Advances-trans : {R : Type 0} (a b c : Phase R) → Advances a b → Advances b c → Advances a c
Advances-trans unasked b c p q = tt
Advances-trans waiting unasked c p q = absurd p
Advances-trans waiting waiting c p q = q
Advances-trans waiting (done r) unasked p q = cc (q)
Advances-trans waiting (done r) waiting p q = tt
Advances-trans waiting (done r) (done s) p q = tt
Advances-trans (done r) b c p q = subst (λ x. Advances x c) p q

module _ {K R : Type 0} ⦃e : Key K⦄ where
  Advances-if :
      (k j : K) (p : Phase R) (L : K → Phase R)
      → Advances (L k) p
      → Advances (L j) (if e.same k j then p else L j)
  Advances-if k j p L a = elim (Bool-cases (e.same k j)) [
    | inl hit ↦ rw hit (subst (λ x. Advances (L x) p) ((e.same_iff k j).0 hit) a)
    | inr miss ↦ rw miss (Advances-refl (L j))
  ]

  Step-Advances : (m : Move K R) (L M : K → Phase R) → Step m L M → (j : K) → Advances (L j) (M j)
  Step-Advances (asks k) L M st j =
      subst (Advances (L j)) (sym (st.1 j)) (Advances-if k j waiting L (rw st.0 tt))
  Step-Advances (answers k r) L M st j =
      subst (Advances (L j)) (sym (st.1 j)) (Advances-if k j (done r) L (rw st.0 tt))
  Step-Advances (answers_all r) L M st j =
      subst (Advances (L j)) (sym (st j)) (answered-Advances r (L j))

  -- Along any moves of the ledger, no phase goes back, and an outcome is final.
  pub Reach-Advances :
      {P : Move K R → Type 0} {L M : K → Phase R} → Reach P L M → (j : K) → Advances (L j) (M j)
  Reach-Advances {P} {L} here j = Advances-refl (L j)
  Reach-Advances {P} {L} (next {M} {N} m r p s) j =
      Advances-trans (L j) (M j) (N j) (Reach-Advances r j) (Step-Advances m M N s j)

  pub Reach-trans :
      {P : Move K R → Type 0} {L M N : K → Phase R} → Reach P L M → Reach P M N → Reach P L N
  Reach-trans r here = r
  Reach-trans r (next m s p st) = next m (Reach-trans r s) p st

pub not_unasked : {R : Type 0} (p : Phase R) → Advances waiting p → p ≢ unasked
not_unasked unasked a e = a
not_unasked waiting a e = cc (e)
not_unasked (done r) a e = cc (e)

-- ===== src/Hooks/Toasts/Lasting.antt =====
-- How long a toast of src/front-end/src/presentation/context/toast-context.tsx stays.
use learning_cuda.Base.{
  ℕ, zero, suc, ◌+◌, ◌-◌, ◌≤◌, ◌≡◌, ◌≢◌, ◌⊎◌, refl, sym, ap, subst, ◌∙◌, inl, inr, Bool, true,
  false, ◌||◌, if◌then◌else◌, List, [], ◌∷◌, ◌++◌, String, string_key, ltb, arith, length, drop,
  length-drop, length-append, Bool-cases,
}
use learning_cuda.JsMap.Order.{Absent, Absent-splice_out, splice_out}
use learning_cuda.JsMap.Laws.{same_ne}
use learning_cuda.Hooks.Toasts.{
  ToastItem, Toasts, Duration, left_out, null, ms, last_five, with_timer, or_default, is_armed,
  call_api, push_toast, without_toast, dismiss_toast, expire_toast, Event, calls, clicks, fires,
  step, run, no_toasts,
}

-- The toast is among those shown.
abbrev pub Shown : ToastItem → List ToastItem → Type 0
Shown t [] = ⊥
Shown t (x ∷ xs) = (x ≡ t) ⊎ Shown t xs

-- No call makes a toast with the id.
abbrev pub AreOthers : String → List Event → Type 0
AreOthers id [] = Unit
AreOthers id (calls t duration ∷ es) = (t.id ≢ id) × AreOthers id es
AreOthers id (clicks j ∷ es) = AreOthers id es
AreOthers id (fires j ∷ es) = AreOthers id es

-- No click is on the toast with the id.
abbrev pub AreElsewhere : String → List Event → Type 0
AreElsewhere id [] = Unit
AreElsewhere id (calls t duration ∷ es) = AreElsewhere id es
AreElsewhere id (clicks j ∷ es) = (j ≢ id) × AreElsewhere id es
AreElsewhere id (fires j ∷ es) = AreElsewhere id es

abbrev pub calls_in : List Event → ℕ
calls_in [] = 0
calls_in (calls t duration ∷ es) = suc (calls_in es)
calls_in (clicks j ∷ es) = calls_in es
calls_in (fires j ∷ es) = calls_in es

length-without_toast :
    (id : String) (ts : List ToastItem) → length (without_toast id ts) ≤ length ts
unfolding without_toast
length-without_toast id [] = omega arith
length-without_toast id (t ∷ ts) = elim (Bool-cases (string_key.same t.id id)) [
  | inl hit ↦ simp (hit) (omega (arith, length-without_toast id ts))
  | inr miss ↦ simp (miss) (omega (arith, length-without_toast id ts))
]

length-last_five : (ts : List ToastItem) → length (last_five ts) ≤ 5
unfolding last_five
length-last_five ts = omega (arith, length-drop (length ts - 5) ts)

length-step : (s : Toasts) (e : Event) → length s.shown ≤ 5 → length (step s e).shown ≤ 5
unfolding step call_api push_toast dismiss_toast expire_toast
length-step s (calls t duration) h = length-last_five (s.shown ++ t ∷ [])
length-step s (clicks id) h = omega (arith, length-without_toast id s.shown, h)
length-step s (fires id) h = elim (Bool-cases (is_armed id s.timers)) [
  | inl armed ↦ rw armed (omega (arith, length-without_toast id s.shown, h))
  | inr idle ↦ rw idle h
]

length-run : (s : Toasts) (es : List Event) → length s.shown ≤ 5 → length (run s es).shown ≤ 5
unfolding run
length-run s [] h = h
length-run s (e ∷ es) h = length-run (step s e) es (length-step s e h)

module _ (t : ToastItem) where
  -- The toast is shown, with at most k newer ones behind it.
  abbrev Within : ℕ → List ToastItem → Type 0
  Within k [] = ⊥
  Within k (x ∷ xs) = ((x ≡ t) × (length xs ≤ k)) ⊎ Within k xs

  Within-Shown : (k : ℕ) (ts : List ToastItem) → Within k ts → Shown t ts
  Within-Shown k [] p = absurd p
  Within-Shown k (x ∷ xs) (inl p) = inl p.0
  Within-Shown k (x ∷ xs) (inr p) = inr (Within-Shown k xs p)

  Within-last : (ts : List ToastItem) → Within 0 (ts ++ t ∷ [])
  Within-last [] = inl (refl, omega arith)
  Within-last (x ∷ ts) = inr (Within-last ts)

  Within-concat :
      (k : ℕ) (x : ToastItem) (ts : List ToastItem) → Within k ts → Within (suc k) (ts ++ x ∷ [])
  Within-concat k x [] p = absurd p
  Within-concat k x (y ∷ ts) (inl p) = inl (p.0, omega (arith, p.1, length-append ts (x ∷ [])))
  Within-concat k x (y ∷ ts) (inr p) = inr (Within-concat k x ts p)

  Within-drop :
      (k n : ℕ) (ts : List ToastItem) → n ≤ length ts - suc k → Within k ts → Within k (drop n ts)
  Within-drop k zero ts h p = p
  Within-drop k (suc n) [] h p = absurd p
  Within-drop k (suc n) (x ∷ ts) h (inl p) = absurd (omega (arith, h, p.1))
  Within-drop k (suc n) (x ∷ ts) h (inr p) = Within-drop k n ts (omega (arith, h)) p

  Within-last_five : (k : ℕ) (ts : List ToastItem) → k ≤ 4 → Within k ts → Within k (last_five ts)
  unfolding last_five
  Within-last_five k ts h = Within-drop k (length ts - 5) ts (omega (arith, h))

  Within-without_toast :
      (id : String) (k : ℕ) (ts : List ToastItem)
      → id ≢ t.id
      → Within k ts
      → Within k (without_toast id ts)
  unfolding without_toast
  Within-without_toast id k [] h p = absurd p
  Within-without_toast id k (x ∷ ts) h (inl p) =
      let kept : string_key.same x.id id ≡ false =
        same_ne x.id id (λ e. h (sym e ∙ ap (λ (y : ToastItem). y.id) p.0)) in
      simp (kept) (inl (p.0, omega (arith, length-without_toast id ts, p.1)))
  Within-without_toast id k (x ∷ ts) h (inr p) = elim (Bool-cases (string_key.same x.id id)) [
    | inl hit ↦ simp (hit) (Within-without_toast id k ts h p)
    | inr miss ↦ simp (miss) (inr (Within-without_toast id k ts h p))
  ]

  Absent-with_timer :
      (id : String) (duration : Duration) (timers : List String)
      → id ≢ t.id
      → Absent t.id timers
      → Absent t.id (with_timer id duration timers)
  Absent-with_timer id left_out timers h a = a
  Absent-with_timer id null timers h a = a
  Absent-with_timer id (ms n) timers h a = elim (Bool-cases (ltb 0 n)) [
    | inl set ↦ rw set (h, a)
    | inr none_set ↦ rw none_set a
  ]

  armed_ne :
      (id : String) (timers : List String)
      → is_armed id timers ≡ true
      → Absent t.id timers
      → id ≢ t.id
  armed_ne id [] e a = absurd (cc (e))
  armed_ne id (j ∷ timers) e a = elim (Bool-cases (string_key.same j id)) [
    | inl hit ↦ λ p. a.0 ((string_key.same_iff j id).0 hit ∙ p)
    | inr miss ↦ armed_ne id timers (sym (ap (λ b. b || is_armed id timers) miss) ∙ e) a.1
  ]

  -- No timer is set for the id before its call.
  step-Absent :
      (s : Toasts) (e : Event)
      → AreOthers t.id (e ∷ [])
      → Absent t.id s.timers
      → Absent t.id (step s e).timers
  unfolding step call_api push_toast dismiss_toast expire_toast
  step-Absent s (calls x duration) o a =
      Absent-with_timer x.id (or_default (or_default duration null) (ms 7000)) s.timers o.0 a
  step-Absent s (clicks id) o a = a
  step-Absent s (fires id) o a = elim (Bool-cases (is_armed id s.timers)) [
    | inl armed ↦ rw armed (Absent-splice_out id t.id s.timers a)
    | inr idle ↦ rw idle a
  ]

  run-Absent :
      (s : Toasts) (es : List Event)
      → AreOthers t.id es
      → Absent t.id s.timers
      → Absent t.id (run s es).timers
  unfolding run
  run-Absent s [] o a = a
  run-Absent s (calls x duration ∷ es) o a =
      run-Absent (step s (calls x duration)) es o.1 (step-Absent s (calls x duration) (o.0, tt) a)
  run-Absent s (clicks id ∷ es) o a =
      run-Absent (step s (clicks id)) es o (step-Absent s (clicks id) tt a)
  run-Absent s (fires id ∷ es) o a =
      run-Absent (step s (fires id)) es o (step-Absent s (fires id) tt a)

  -- It stays while the newer toasts behind it and those to come are four at most.
  run-Shown :
      (k : ℕ) (s : Toasts) (es : List Event)
      → AreOthers t.id es
      → AreElsewhere t.id es
      → k + calls_in es ≤ 4
      → Absent t.id s.timers
      → Within k s.shown
      → Shown t (run s es).shown
  unfolding run step call_api push_toast dismiss_toast expire_toast
  run-Shown k s [] o c h a p = Within-Shown k s.shown p
  run-Shown k s (calls x duration ∷ es) o c h a p =
      run-Shown (suc k) (call_api x duration s) es o.1 c (omega (arith, h))
        (step-Absent s (calls x duration) (o.0, tt) a)
        (Within-last_five (suc k) (s.shown ++ x ∷ []) (omega (arith, h))
          (Within-concat k x s.shown p))
  run-Shown k s (clicks id ∷ es) o c h a p =
      run-Shown k (dismiss_toast id s) es o c.1 h a (Within-without_toast id k s.shown c.0 p)
  run-Shown k s (fires id ∷ es) o c h a p =
      let gone : Toasts = record {
        shown = without_toast id s.shown;
        timers = splice_out id s.timers;
      } in
      let runs_on = λ (b : Bool). Shown t (run (if b then gone else s) es).shown in
      elim (Bool-cases (is_armed id s.timers)) [
        | inl armed ↦ subst runs_on (sym armed) (
            run-Shown k gone es o c h (Absent-splice_out id t.id s.timers a)
              (Within-without_toast id k s.shown (armed_ne id s.timers armed a) p))
        | inr idle ↦ subst runs_on (sym idle) (run-Shown k s es o c h a p)
      ]

run-append : (s : Toasts) (es fs : List Event) → run s (es ++ fs) ≡ run (run s es) fs
unfolding run
run-append s [] fs = refl
run-append s (e ∷ es) fs = run-append (step s e) es fs

run-called :
    (t : ToastItem) (after : List Event) (s : Toasts)
    → AreOthers t.id after
    → AreElsewhere t.id after
    → calls_in after ≤ 4
    → Absent t.id s.timers
    → Shown t (run s (calls t left_out ∷ after)).shown
unfolding run step call_api push_toast
run-called t after s o c h a =
    run-Shown t 0 (call_api t left_out s) after o c (omega (arith, h)) a
      (Within-last_five t 0 (s.shown ++ t ∷ []) (omega arith) (Within-last t s.shown))

-- A toast whose call leaves the duration out is shown from that call on, however many timers run out,
-- where no other call makes a toast of the same id, no click is on it, and four more calls follow at most:
-- the null that such a call passes on keeps the default of 7000 milliseconds from ever being taken. And
-- there are never more than five toasts.
pub toasts_never_expire :
    (t : ToastItem) (before after : List Event)
    → AreOthers t.id before
    → AreOthers t.id after
    → AreElsewhere t.id after
    → calls_in after ≤ 4
    → Shown t (run no_toasts (before ++ calls t left_out ∷ after)).shown
      × (length (run no_toasts (before ++ calls t left_out ∷ after)).shown ≤ 5)
toasts_never_expire t before after o o' c h = (
  subst (λ s. Shown t s.shown) (sym (run-append no_toasts before (calls t left_out ∷ after)))
      (run-called t after (run no_toasts before) o' c h (run-Absent t no_toasts before o tt)),
  length-run no_toasts (before ++ calls t left_out ∷ after) (omega arith),
)

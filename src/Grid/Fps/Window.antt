-- ===== src/Grid/Fps/Window.antt =====
-- The timestamps that the frame rate is taken from.
use learning_cuda.Base.{
  ℕ, ◌-◌, ◌≤◌, ◌≡◌, refl, sym, ap, subst, ◌∙◌, inl, inr, List, [], ◌∷◌, ◌++◌, ltb, if◌then◌else◌,
  All, arith, Bool-cases, append_assoc, append-nil,
}
use learning_cuda.Grid.Fps.{
  Meter, new_meter, shift_old, push_frame, on_video_frame, on_video_frames,
}

-- The times that are not before the cutoff.
abbrev pub recent : ℕ → List ℕ → List ℕ
recent cutoff [] = []
recent cutoff (x ∷ xs) = if ltb x cutoff then recent cutoff xs else x ∷ recent cutoff xs

-- Frames come in the order of their times.
abbrev pub IsOrdered : List ℕ → Type 0
IsOrdered [] = Unit
IsOrdered (x ∷ xs) = All (λ y. x ≤ y) xs × IsOrdered xs

-- The cutoff at the last of some frames.
abbrev pub cutoff_at : ℕ → List ℕ → ℕ
cutoff_at cutoff [] = cutoff
cutoff_at cutoff (now ∷ times) = cutoff_at (now - 1000) times

recent_all : (c : ℕ) (xs : List ℕ) → All (λ x. c ≤ x) xs → recent c xs ≡ xs
recent_all c [] a = refl
recent_all c (x ∷ xs) a = ground (arith, recent_all c xs a.1)

All-mono : (c d : ℕ) (xs : List ℕ) → c ≤ d → All (λ x. d ≤ x) xs → All (λ x. c ≤ x) xs
All-mono c d [] h a = tt
All-mono c d (x ∷ xs) h a = (omega (arith, a.0), All-mono c d xs h a.1)

shift_old-recent : (c : ℕ) (xs : List ℕ) → IsOrdered xs → shift_old c xs ≡ recent c xs
unfolding shift_old
shift_old-recent c [] o = refl
shift_old-recent c (x ∷ xs) o = elim (Bool-cases (ltb x c)) [
  | inl old ↦ rw old (shift_old-recent c xs o.1)
  | inr new ↦ rw new (ap (◌∷◌ x) (sym (recent_all c xs (All-mono c x xs (ground arith) o.0))))
]

recent-recent : (c d : ℕ) (xs : List ℕ) → c ≤ d → recent d (recent c xs) ≡ recent d xs
recent-recent c d [] h = refl
recent-recent c d (x ∷ xs) h = ground (arith, recent-recent c d xs h)

recent-append : (c : ℕ) (xs ys : List ℕ) → recent c (xs ++ ys) ≡ recent c xs ++ recent c ys
recent-append c [] ys = refl
recent-append c (x ∷ xs) ys = ground (arith, recent-append c xs ys)

All-recent : (P : ℕ → Type 0) (c : ℕ) (xs : List ℕ) → All P xs → All P (recent c xs)
All-recent P c [] a = tt
All-recent P c (x ∷ xs) a = elim (Bool-cases (ltb x c)) [
  | inl old ↦ rw old (All-recent P c xs a.1)
  | inr new ↦ rw new (a.0, All-recent P c xs a.1)
]

All-append : (P : ℕ → Type 0) (xs ys : List ℕ) → All P (xs ++ ys) → All P xs × All P ys
All-append P [] ys a = (tt, a)
All-append P (x ∷ xs) ys a = let (l, r) = All-append P xs ys a.1 in ((a.0, l), r)

All-concat : (P : ℕ → Type 0) (xs : List ℕ) (y : ℕ) → All P xs → P y → All P (xs ++ y ∷ [])
All-concat P [] y a p = (p, tt)
All-concat P (x ∷ xs) y a p = (a.0, All-concat P xs y a.1 p)

-- The window with a new frame behind it is in order.
IsOrdered-recent :
    (c now : ℕ) (xs ys : List ℕ) → IsOrdered (xs ++ now ∷ ys) → IsOrdered (recent c xs ++ now ∷ [])
IsOrdered-recent c now [] ys o = (tt, tt)
IsOrdered-recent c now (x ∷ xs) ys o = elim (Bool-cases (ltb x c)) [
  | inl old ↦ rw old (IsOrdered-recent c now xs ys o.1)
  | inr new ↦
      let (before, after) = All-append (λ y. x ≤ y) xs (now ∷ ys) o.0 in
      rw new (
        All-concat (λ y. x ≤ y) (recent c xs) now (All-recent (λ y. x ≤ y) c xs before) after.0,
        IsOrdered-recent c now xs ys o.1,
      )
]

push_frame-recent :
    (c now : ℕ) (seen times : List ℕ)
    → c ≤ now - 1000
    → IsOrdered (seen ++ now ∷ times)
    → push_frame now (recent c seen) ≡ recent (now - 1000) (seen ++ now ∷ [])
unfolding push_frame
push_frame-recent c now seen times h o =
    shift_old-recent (now - 1000) (recent c seen ++ now ∷ []) (IsOrdered-recent c now seen times o)
    ∙ recent-append (now - 1000) (recent c seen) (now ∷ [])
    ∙ ap (λ l. l ++ recent (now - 1000) (now ∷ [])) (recent-recent c (now - 1000) seen h)
    ∙ sym (recent-append (now - 1000) seen (now ∷ []))

on_video_frame-timestamps :
    (now : ℕ) (m : Meter) → (on_video_frame now m).timestamps ≡ push_frame now m.timestamps
unfolding on_video_frame
on_video_frame-timestamps now m = ground arith

later :
    (now : ℕ) (times : List ℕ) → All (λ t. now ≤ t) times → All (λ t. now - 1000 ≤ t - 1000) times
later now [] a = tt
later now (t ∷ times) a = (omega (arith, a.0), later now times a.1)

suffix : (seen times : List ℕ) → IsOrdered (seen ++ times) → IsOrdered times
suffix [] times o = o
suffix (x ∷ seen) times o = suffix seen times o.1

window_from :
    (c : ℕ) (seen times : List ℕ) (m : Meter)
    → m.timestamps ≡ recent c seen
    → All (λ t. c ≤ t - 1000) times
    → IsOrdered (seen ++ times)
    → (on_video_frames times m).timestamps ≡ recent (cutoff_at c times) (seen ++ times)
unfolding on_video_frames
window_from c seen [] m e h o = e ∙ ap (recent c) (sym (append-nil seen))
window_from c seen (now ∷ times) m e h o =
    window_from (now - 1000) (seen ++ now ∷ []) times (on_video_frame now m)
      (on_video_frame-timestamps now m
        ∙ ap (push_frame now) e
        ∙ push_frame-recent c now seen times h.0 o)
      (later now times (suffix seen (now ∷ times) o).0)
      (subst IsOrdered (sym (append_assoc seen (now ∷ []) times)) o)
    ∙ ap (recent (cutoff_at (now - 1000) times)) (append_assoc seen (now ∷ []) times)

all_late : (times : List ℕ) → All (λ t. 0 ≤ t - 1000) times
all_late [] = tt
all_late (t ∷ times) = (omega arith, all_late times)

-- After any frames whose times do not decrease, the timestamps that the rate is taken from are exactly
-- those of all the frames that came within the 1000 milliseconds up to the last one, in their order: the
-- loop that shifts old ones out loses none of them.
pub window_is_recent :
    (times : List ℕ)
    → IsOrdered times
    → (on_video_frames times new_meter).timestamps ≡ recent (cutoff_at 0 times) times
unfolding new_meter
window_is_recent times o = window_from 0 [] times new_meter refl (all_late times) o

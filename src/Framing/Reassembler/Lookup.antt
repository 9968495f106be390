-- ===== src/Framing/Reassembler/Lookup.antt =====
-- The timers of the messages in flight, as a map from handles to message ids.
use learning_cuda.Base.{
  ℕ, ◌≡◌, ◌≢◌, refl, none, some, [], ◌∷◌, ◌++◌, arith, nat_key, Bool-cases, inl, inr, ◌==◌,
}
use learning_cuda.JsMap.{JsMap, get, put, remove, keys}
use learning_cuda.JsMap.Order.{Absent, Distinct, remove-Absent, get-Absent}
use learning_cuda.Framing.Reassembler.{InFlightMessage}

abbrev pub timer_entries : JsMap ℕ InFlightMessage → JsMap ℕ ℕ
timer_entries [] = []
timer_entries ((k, msg) ∷ m) = (msg.timer, k) ∷ timer_entries m

pub timer-Absent :
    (k t : ℕ) (msg : InFlightMessage) (m : JsMap ℕ InFlightMessage)
    → get k m ≡ some msg
    → Absent t (keys (timer_entries m))
    → msg.timer ≢ t
unfolding get
timer-Absent k t msg [] h a = cc
timer-Absent k t msg ((j, w) ∷ m) h a = ground (arith, timer-Absent k t msg m)

pub timer_entries-remove :
    (k : ℕ) (msg : InFlightMessage) (m : JsMap ℕ InFlightMessage)
    → Distinct (keys m)
    → Distinct (keys (timer_entries m))
    → get k m ≡ some msg
    → timer_entries (remove k m) ≡ remove msg.timer (timer_entries m)
unfolding get remove
timer_entries-remove k msg [] d t h = cc
timer_entries-remove k msg ((j, w) ∷ m) d t h = ground (
  arith,
  remove-Absent k m,
  remove-Absent w.timer (timer_entries m) t.0,
  timer-Absent k w.timer msg m,
  timer_entries-remove k msg m d.1 t.1,
)

pub timer_entries-put_old :
    (k : ℕ) (v w : InFlightMessage) (m : JsMap ℕ InFlightMessage)
    → get k m ≡ some w
    → v.timer ≡ w.timer
    → timer_entries (put k v m) ≡ timer_entries m
unfolding get put
timer_entries-put_old k v w [] h e = cc
timer_entries-put_old k v w ((j, u) ∷ m) h e = ground (arith, timer_entries-put_old k v w m)

pub timer_entries-put_new :
    (k : ℕ) (v : InFlightMessage) (m : JsMap ℕ InFlightMessage)
    → get k m ≡ none
    → timer_entries (put k v m) ≡ timer_entries m ++ (v.timer, k) ∷ []
unfolding get put
timer_entries-put_new k v [] h = refl
timer_entries-put_new k v ((j, u) ∷ m) h = ground (arith, timer_entries-put_new k v m)

-- The message that a timer is for.
pub find_timer :
    (t k : ℕ) (m : JsMap ℕ InFlightMessage)
    → Distinct (keys m)
    → get t (timer_entries m) ≡ some k
    → (msg : InFlightMessage) × (get k m ≡ some msg) × (msg.timer ≡ t)
unfolding get
find_timer t k [] d h = cc
find_timer t k ((j, w) ∷ m) d h = elim (Bool-cases (w.timer == t)) [
  | inl hit ↦ (w, ground (arith, hit), ground (arith, hit))
  | inr miss ↦
      let (msg, e, eq) = find_timer t k m d.1 (ground (arith, miss)) in
      (msg, ground (arith, get-Absent k m), eq)
]

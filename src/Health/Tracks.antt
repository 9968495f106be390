-- ===== src/Health/Tracks.antt =====
-- What it means that the armed intervals are those in a field of the monitor, and how the timers keep it.
use learning_cuda.Base.{
  ℕ, suc, ◌<◌, ◌≡◌, refl, Option, none, some, [], ◌∷◌, ◌++◌, arith, nat_key, All,
}
use learning_cuda.JsMap.{JsMap, get, put, remove, keys}
use learning_cuda.JsMap.Laws.{get-put, get-remove}
use learning_cuda.JsMap.Order.{Absent, get-Absent}
use learning_cuda.Timers.{Timers}
use learning_cuda.Health.{Tick, poll_interval, rapid_timeout, Monitor}

-- Every armed interval is the one in the field.
abbrev pub Tracked : Option ℕ → JsMap ℕ Tick → Type 0
Tracked field [] = Unit
Tracked field ((k, poll_interval) ∷ m) = (field ≡ some k) × Tracked field m
Tracked field ((k, rapid_timeout) ∷ m) = Tracked field m

-- The interval in the field is armed.
abbrev pub Armed : Option ℕ → JsMap ℕ Tick → Type 0
Armed none m = Unit
Armed (some h) m = get h m ≡ some poll_interval

pub record Tracks (field : Option ℕ) (t : Timers Tick) : Type 0 where
  pub tracked : Tracked field t.armed
  pub present : Armed field t.armed
  pub fresh : All (λ h. h < t.next) (keys t.armed)

abbrev pub Inv : Monitor → Type 0
Inv m = Tracks m.polling_interval m.timers

pub Tracked-remove :
    (field : Option ℕ) (h : ℕ) (m : JsMap ℕ Tick) → Tracked field m → Tracked field (remove h m)
unfolding remove
Tracked-remove field h [] t = tt
Tracked-remove field h ((k, poll_interval) ∷ m) t = ground (arith, Tracked-remove field h m t.1)
Tracked-remove field h ((k, rapid_timeout) ∷ m) t = ground (arith, Tracked-remove field h m t)

-- Clearing the interval of the field leaves none.
pub Tracked-remove_field :
    (h : ℕ) (m : JsMap ℕ Tick) → Tracked (some h) m → Tracked none (remove h m)
unfolding remove
Tracked-remove_field h [] t = tt
Tracked-remove_field h ((k, poll_interval) ∷ m) t = ground (arith, Tracked-remove_field h m t.1)
Tracked-remove_field h ((k, rapid_timeout) ∷ m) t = ground (arith, Tracked-remove_field h m t)

pub Tracked-concat :
    (field : Option ℕ) (h : ℕ) (m : JsMap ℕ Tick)
    → Tracked field m
    → Tracked field (m ++ (h, rapid_timeout) ∷ [])
Tracked-concat field h [] t = tt
Tracked-concat field h ((k, poll_interval) ∷ m) t = (t.0, Tracked-concat field h m t.1)
Tracked-concat field h ((k, rapid_timeout) ∷ m) t = Tracked-concat field h m t

pub Tracked-concat_poll :
    (h : ℕ) (m : JsMap ℕ Tick) → Tracked none m → Tracked (some h) (m ++ (h, poll_interval) ∷ [])
Tracked-concat_poll h [] t = (refl, tt)
Tracked-concat_poll h ((k, poll_interval) ∷ m) t = cc (t.0)
Tracked-concat_poll h ((k, rapid_timeout) ∷ m) t = Tracked-concat_poll h m t

-- A timeout that is cleared is not the interval.
pub Armed-remove :
    (field : Option ℕ) (h : ℕ) (m : JsMap ℕ Tick)
    → get h m ≡ some rapid_timeout
    → Armed field m
    → Armed field (remove h m)
Armed-remove none h m e a = tt
Armed-remove (some k) h m e a = ground (arith, get-remove h k m)

pub Armed-put :
    (field : Option ℕ) (h : ℕ) (t : Tick) (m : JsMap ℕ Tick)
    → Absent h (keys m)
    → Armed field m
    → Armed field (put h t m)
Armed-put none h t m u a = tt
Armed-put (some k) h t m u a = ground (arith, get-put h k t m, get-Absent h m u)

pub fresh-Absent : (n : ℕ) (m : JsMap ℕ Tick) → All (λ h. h < n) (keys m) → Absent n (keys m)
fresh-Absent n [] a = tt
fresh-Absent n ((h, t) ∷ m) a = (omega arith, fresh-Absent n m a.1)

pub fresh-remove :
    (n h : ℕ) (m : JsMap ℕ Tick) → All (λ k. k < n) (keys m) → All (λ k. k < n) (keys (remove h m))
unfolding remove
fresh-remove n h [] a = tt
fresh-remove n h ((k, t) ∷ m) a = ground (arith, fresh-remove n h m a.1)

pub fresh-put :
    (n : ℕ) (t : Tick) (m : JsMap ℕ Tick)
    → All (λ k. k < n) (keys m)
    → All (λ k. k < suc n) (keys (put n t m))
unfolding put
fresh-put n t [] a = (omega arith, tt)
fresh-put n t ((k, u) ∷ m) a = ground (arith, fresh-put n t m a.1)

-- ===== src/Grid/Fps.antt =====
-- The frame rate of a video source: the frame handler of `buildSource` in
-- src/front-end/src/presentation/hooks/useSourceTransportFactory.ts. Times are whole milliseconds, and a
-- rate is a fraction: frames times 1000, and the milliseconds that they took.
pub mod Window
use learning_cuda.Base.{
  ℕ, suc, ◌+◌, ◌-◌, ◌*◌, Bool, true, false, ◌||◌, Option, none, some, List, [], ◌∷◌, ◌++◌, ltb, leb,
  if◌then◌else◌, length, get_or,
}

pub record Rate : Type 0 where
  pub frames : ℕ
  pub duration_ms : ℕ

-- What the references hold for one source, and the rates that were dispatched, the last one first.
pub record Meter : Type 0 where
  pub timestamps : List ℕ
  pub last_ui_update : ℕ
  pub last_value : Rate
  pub dispatched : List Rate

unfoldable pub new_meter : Meter
new_meter = record {
  timestamps = [];
  last_ui_update = 0;
  last_value = record { frames = 0; duration_ms = 1 };
  dispatched = [];
}

-- while (existing.length > 0 && existing[0] < cutoff) existing.shift()
unfoldable pub shift_old : ℕ → List ℕ → List ℕ
shift_old cutoff [] = []
shift_old cutoff (x ∷ xs) = let rest = shift_old cutoff xs in if ltb x cutoff then rest else x ∷ xs

-- existing.push(now), and the loop with now - 1000
unfoldable pub push_frame : ℕ → List ℕ → List ℕ
unfolding shift_old
push_frame now existing = shift_old (now - 1000) (existing ++ now ∷ [])

unfoldable pub rate_of : List ℕ → Rate
rate_of existing =
    let n = length existing in
    let took = get_or existing (n - 1) 0 - get_or existing 0 0 in
    if ltb 1 n
    then record { frames = n - 1; duration_ms = if ltb 1 took then took else 1 }
    else record { frames = 0; duration_ms = 1 }

-- Math.abs(a - b) >= 0.5, where a rate is 1000 * frames / duration_ms
unfoldable pub differ_by_half : Rate → Rate → Bool
differ_by_half a b =
    let x = 1000 * a.frames * b.duration_ms in
    let y = 1000 * b.frames * a.duration_ms in
    leb (a.duration_ms * b.duration_ms) (2 * ((x - y) + (y - x)))

unfoldable pub on_video_frame : ℕ → Meter → Meter
unfolding push_frame rate_of differ_by_half
on_video_frame now m =
    let existing = push_frame now m.timestamps in
    let fps = rate_of existing in
    if leb 200 (now - m.last_ui_update) || differ_by_half fps m.last_value
    then record {
      timestamps = existing;
      last_ui_update = now;
      last_value = fps;
      dispatched = fps ∷ m.dispatched;
    }
    else record m { timestamps = existing }

unfoldable pub on_video_frames : List ℕ → Meter → Meter
unfolding on_video_frame
on_video_frames [] m = m
on_video_frames (now ∷ times) m = on_video_frames times (on_video_frame now m)

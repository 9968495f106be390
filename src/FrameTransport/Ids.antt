-- ===== src/FrameTransport/Ids.antt =====
-- The table of frames and the frame ids that were given out, over each part of the transport
-- (src/front-end/src/infrastructure/transport/webrtc-frame-transport.ts).
use learning_cuda.Base.{
  ℕ, suc, ◌≤◌, Bool, true, false, some, List, [], ◌∷◌, String, Result, ok, err, nat_key, ◌==◌,
  if◌then◌else◌, All, arith, length,
}
use learning_cuda.JsMap.{keys}
use learning_cuda.JsMap.Order.{Absent, get-Absent}
use learning_cuda.Pending.{Desk, settle, fail_all}
use learning_cuda.Pending.Invariant.{Inv, IsNew, register-Inv, settle-Inv, fail_all-Inv}
use learning_cuda.Pending.Known.{Known, register-Known, settle-Known, fail_all-Known}
use learning_cuda.Framing.Pack.{PackError}
use learning_cuda.FrameTransport.{
  FrameResponse, FrameOutcome, send_threw, too_large, channel_closed, Link, Transport, SendError,
  ensure_connected, is_connected,
}
use learning_cuda.FrameTransport.Receiving.{
  fail_pending_responses, handle_error, outcome_of, handle_response, on_decoded, on_channel_close,
}
use learning_cuda.FrameTransport.Sending.{
  send_chunks, register_pending, reject_pending, reject_awaited, after_send, send_packed,
  take_frame_id, send_frame, send_checked, begin_checked,
}
use learning_cuda.FrameTransport.Events.{caught}

-- The table is in step with its timers, and every id in it and in the log was given out.
abbrev pub SoundUpTo : ℕ → Desk ℕ FrameOutcome → Type 0
SoundUpTo n d = Inv d × Known (λ id. id ≤ n) d

abbrev pub Sound : Transport → Type 0
Sound s = SoundUpTo s.frame_id_counter s.desk

SoundUpTo-if :
    (t : Bool) (n : ℕ) (x y : Desk ℕ FrameOutcome)
    → SoundUpTo n x
    → SoundUpTo n y
    → SoundUpTo n (if t then x else y)
SoundUpTo-if true n x y p q = p
SoundUpTo-if false n x y p q = q

still_given : (n : ℕ) (ks : List ℕ) → All (λ k. k ≤ n) ks → All (λ k. k ≤ suc n) ks
still_given n [] a = tt
still_given n (k ∷ ks) a = (omega (arith, a.0), still_given n ks a.1)

next_Absent : (n : ℕ) (ks : List ℕ) → All (λ k. k ≤ n) ks → Absent (suc n) ks
next_Absent n [] a = tt
next_Absent n (k ∷ ks) a = (λ e. omega (arith, e, a.0), next_Absent n ks a.1)

module _ {R : Type 0} (n : ℕ) (d : Desk ℕ R) (k : Known (λ id. id ≤ n) d) where
  more_ids : Known (λ id. id ≤ suc n) d
  more_ids = (still_given n (keys d.pending) k.0, still_given n (keys d.settled) k.1)

  next_IsNew : IsNew (suc n) d
  next_IsNew = (
    get-Absent (suc n) d.pending (next_Absent n (keys d.pending) k.0),
    next_Absent n (keys d.settled) k.1,
  )

pub take_frame_id-Sound :
    (awaited : Bool) (s : Transport) → Sound s → Sound (take_frame_id awaited s)
unfolding take_frame_id register_pending
take_frame_id-Sound false s (v, k) = (v, more_ids s.frame_id_counter s.desk k)
take_frame_id-Sound true s (v, k) = (
  register-Inv (suc s.frame_id_counter) s.desk (next_IsNew s.frame_id_counter s.desk k) v,
  register-Known (λ id. id ≤ suc s.frame_id_counter) (suc s.frame_id_counter) s.desk (omega arith)
      (more_ids s.frame_id_counter s.desk k),
)

module _ (o : FrameOutcome) (s : Transport) where
  settle-Sound : (id : ℕ) → Sound s → Sound (record s { desk = settle id o s.desk })
  settle-Sound id (v, k) =
      (settle-Inv id o s.desk v, settle-Known (λ j. j ≤ s.frame_id_counter) id o s.desk k)

  pub fail_all-Sound : Sound s → Sound (record s { desk = fail_all o s.desk })
  fail_all-Sound (v, k) =
      (fail_all-Inv o s.desk v, fail_all-Known (λ j. j ≤ s.frame_id_counter) o s.desk k)

reject_awaited-Sound :
    (awaited : Bool) (id : ℕ) (o : FrameOutcome) (s : Transport)
    → Sound s
    → Sound (reject_awaited awaited id o s)
unfolding reject_pending
reject_awaited-Sound true id o s v = settle-Sound o s id v
reject_awaited-Sound false id o s v = v

after_send-Sound :
    (awaited : Bool) (id : ℕ) (r : List (List ℕ) × Bool) (s : Transport)
    → Sound s
    → Sound (after_send awaited id r s).0
unfolding after_send
after_send-Sound awaited id (sent, true) s v = v
after_send-Sound awaited id (sent, false) s v =
    reject_awaited-Sound awaited id send_threw (record s { sent = sent }) v

pub send_packed-Sound :
    (l : Link) (awaited : Bool) (id : ℕ) (r : Result PackError (List (List ℕ))) (s : Transport)
    → Sound s
    → Sound (send_packed l awaited id r s).0
unfolding send_packed
send_packed-Sound l awaited id (err e) s v = reject_awaited-Sound awaited id (too_large e) s v
send_packed-Sound l awaited id (ok chunks) s v =
    after_send-Sound awaited id (send_chunks l chunks s.sent) s v

pub caught-Sound : {A : Type 0} (r : Transport × Result SendError A) → Sound r.0 → Sound (caught r)
unfolding caught handle_error
caught-Sound (s, ok a) v = v
caught-Sound (s, err e) v = v

pub send_checked-Sound :
    (to_binary : ℕ → List ℕ) (l : Link) (r : Result SendError String) (s : Transport)
    → ((s : Transport) → Sound s → Sound (send_frame to_binary l true s).0)
    → Sound s
    → Sound (send_checked to_binary l r s).0
unfolding send_checked
send_checked-Sound to_binary l (err e) s sends v = v
send_checked-Sound to_binary l (ok id) s sends v =
    sends (record s { last_request = some "ProcessImageRequest" }) v

pub begin_checked-Sound :
    (r : Result SendError String) (s : Transport) → Sound s → Sound (begin_checked r s).0
unfolding begin_checked
begin_checked-Sound (err e) s v = v
begin_checked-Sound (ok id) s v = v

Sound-if : (t : Bool) (x y : Transport) → Sound x → Sound y → Sound (if t then x else y)
Sound-if true x y p q = p
Sound-if false x y p q = q

pub ensure_connected-Sound : (l : Link) (s : Transport) → Sound s → Sound (ensure_connected l s)
unfolding ensure_connected
ensure_connected-Sound l s v =
    Sound-if (is_connected l s) s _ v (Sound-if s.connect_promise s _ v v)

handle_response-Sound :
    (response : FrameResponse) (s : Transport) → Sound s → Sound (handle_response response s)
unfolding handle_response
handle_response-Sound response s v =
    SoundUpTo-if (response.frame_id == 0) s.frame_id_counter s.desk
      (settle response.frame_id (outcome_of response) s.desk) v
      (settle-Sound (outcome_of response) s response.frame_id v)

pub on_decoded-Sound :
    (r : Result String FrameResponse) (s : Transport) → Sound s → Sound (on_decoded r s)
unfolding on_decoded handle_error
on_decoded-Sound (ok response) s v = handle_response-Sound response s v
on_decoded-Sound (err e) s v = v

pub on_channel_close-Sound : (s : Transport) → Sound s → Sound (on_channel_close s)
unfolding on_channel_close fail_pending_responses
on_channel_close-Sound s v =
    Sound-if (length s.desk.pending == 0) _ _ v (fail_all-Sound channel_closed s v)

-- ===== src/FrameTransport/Sending.antt =====
-- How a frame is sent in src/front-end/src/infrastructure/transport/webrtc-frame-transport.ts: its id, its
-- promise, and its chunks.
use learning_cuda.FrameTransport.{
  FrameOutcome, Link, SendError, Transport, channel_not_open, chunk_send_threw, message_refused,
  no_session, send_threw, set_processing, too_large,
}
use learning_cuda.Base.{
  ℕ, suc, Bool, true, false, Option, none, some, List, [], ◌∷◌, String, Result, ok, err,
  if◌then◌else◌, nat_key,
}
use learning_cuda.Pending.{register, settle}
use learning_cuda.Framing.MessageId.{next_message_id}
use learning_cuda.Framing.Pack.{PackError, pack_message}

-- The loop over the chunks: what was sent before a send threw, and whether none threw.
unfoldable pub send_chunks : Link → List (List ℕ) → List (List ℕ) → List (List ℕ) × Bool
send_chunks l [] sent = (sent, true)
send_chunks l (chunk ∷ chunks) sent =
    let rest = send_chunks l chunks (chunk ∷ sent) in
    if l.send_throws chunk then (sent, false) else rest

unfoldable pub register_pending : ℕ → Transport → Transport
unfolding register
register_pending frame_id s = record s { desk = register frame_id s.desk }

unfoldable pub reject_pending : ℕ → FrameOutcome → Transport → Transport
unfolding settle
reject_pending frame_id failure s = record s { desk = settle frame_id failure s.desk }

-- if (pending) this.rejectPending(frameId, error)
abbrev pub reject_awaited : Bool → ℕ → FrameOutcome → Transport → Transport
reject_awaited true frame_id failure s = reject_pending frame_id failure s
reject_awaited false frame_id failure s = s

unfoldable pub after_send :
    Bool → ℕ → List (List ℕ) × Bool → Transport → Transport × Result SendError ℕ
unfolding reject_pending
after_send awaited frame_id (sent, true) s = (record s { sent = sent }, ok frame_id)
after_send awaited frame_id (sent, false) s =
    (reject_awaited awaited frame_id send_threw (record s { sent = sent }), err chunk_send_threw)

unfoldable pub send_packed :
    Link → Bool → ℕ → Result PackError (List (List ℕ)) → Transport → Transport × Result SendError ℕ
unfolding after_send reject_pending
send_packed l awaited frame_id (err e) s =
    (reject_awaited awaited frame_id (too_large e) s, err (message_refused e))
send_packed l awaited frame_id (ok chunks) s =
    after_send awaited frame_id (send_chunks l chunks s.sent) s

-- The new frame id, with its promise where a response is awaited.
unfoldable pub take_frame_id : Bool → Transport → Transport
unfolding register_pending
take_frame_id awaited s =
    let counted = record s { frame_id_counter = suc s.frame_id_counter } in
    if awaited then register_pending counted.frame_id_counter counted else counted

-- The part of `sendSingleImage` and `sendRequest` that is the same in both: the frame id, the bytes
-- that the request with that id is encoded to, and the sending.
unfoldable pub send_frame : (ℕ → List ℕ) → Link → Bool → Transport → Transport × Result SendError ℕ
unfolding take_frame_id send_packed
send_frame to_binary l awaited s =
    let taken = take_frame_id awaited s in
    let id = next_message_id taken.last_message_id in
    send_packed l awaited taken.frame_id_counter
      (pack_message id (to_binary taken.frame_id_counter)) (record taken { last_message_id = id })

-- The checks after the await of ensureConnected.
unfoldable pub open_session : Link → Option String → Result SendError String
open_session l none = err no_session
open_session l (some id) = if l.is_open id then ok id else err channel_not_open

unfoldable pub send_checked :
    (ℕ → List ℕ) → Link → Result SendError String → Transport → Transport × Result SendError ℕ
unfolding send_frame
send_checked to_binary l (err e) s = (s, err e)
send_checked to_binary l (ok id) s =
    send_frame to_binary l true (record s { last_request = some "ProcessImageRequest" })

-- sendSingleImage, after its await of ensureConnected
unfoldable pub send_single_image : (ℕ → List ℕ) → Link → Transport → Transport × Result SendError ℕ
unfolding send_checked open_session
send_single_image to_binary l s = send_checked to_binary l (open_session l s.session_id) s

unfoldable pub begin_checked :
    Result SendError String → Transport → Transport × Result SendError String
begin_checked (err e) s = (s, err e)
begin_checked (ok id) s = (
  record s { effects = set_processing true ∷ s.effects; last_request = some "ProcessImageRequest" },
  ok id,
)

-- sendRequest, between its await of ensureConnected and its await of the rasterized image
unfoldable pub begin_request : Link → Transport → Transport × Result SendError String
unfolding begin_checked open_session
begin_request l s = begin_checked (open_session l s.session_id) s

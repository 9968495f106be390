-- ===== src/Sessions/Requests.antt =====
-- The remaining calls of src/front-end/src/infrastructure/connection/webrtc-service.ts: `initialize`,
-- `sendControlRequest` and `replaceLocalVideoTrack`.
use learning_cuda.Base.{
  ℕ, ◌-◌, ◌^◌, ◌<◌, ◌≡◌, refl, sym, ap, subst, Bool, true, false, Option, none, some, List, [], ◌∷◌,
  ◌++◌, String, Result, ok, err, if◌then◌else◌, string_key, nat_key, arith, length, replicate,
}
use learning_cuda.JsMap.{get}
use learning_cuda.Framing.MessageId.{next_message_id}
use learning_cuda.Framing.Pack.{PackError, pack_message}
use learning_cuda.Framing.Reassembler.{Reassembler, incomplete, assembled}
use learning_cuda.Framing.Reassembler.Delivery.{push_all, Delivered, delivers}
use learning_cuda.Sessions.{ReadyState, is_open, Service}

-- initialize and isInitialized: whether initPromise is there, and `initialized`.
pub record Initialization : Type 0 where
  pub started : Bool
  pub initialized : Bool

unfoldable pub initialize : Bool → Initialization → Initialization
initialize is_supported i =
    if i.started then i else record { started = true; initialized = is_supported }

pub data RequestError : Type 0 where
  channel_not_open send_threw : RequestError
  message_refused : PackError → RequestError

-- The browser during a call: the channels' states, and whether sending a buffer on one throws.
pub record Wire : Type 0 where
  pub ready_state : ℕ → ReadyState
  pub send_throws : ℕ → List ℕ → Bool

-- What was sent, oldest first; the counter behind nextMessageId; and whether the call threw.
pub record Sent : Type 0 where
  pub buffers : List (List ℕ)
  pub last_message_id : ℕ
  pub threw : Option RequestError

-- The loop over the chunks, up to a send that throws.
unfoldable pub send_until_throw : Wire → ℕ → List (List ℕ) → List (List ℕ) × Option RequestError
send_until_throw w c [] = ([], none)
send_until_throw w c (chunk ∷ chunks) =
    let (rest, threw) = send_until_throw w c chunks in
    if w.send_throws c chunk then ([], some send_threw) else (chunk ∷ rest, threw)

unfoldable pub send_packed_request : Wire → ℕ → ℕ → Result PackError (List (List ℕ)) → Sent
unfolding send_until_throw
send_packed_request w c id (err e) = record {
  buffers = [];
  last_message_id = id;
  threw = some (message_refused e);
}
send_packed_request w c id (ok chunks) =
    let (buffers, threw) = send_until_throw w c chunks in
    record { buffers = buffers; last_message_id = id; threw = threw }

unfoldable pub send_on_channel : Wire → ℕ → List ℕ → Option ℕ → Sent
unfolding send_packed_request
send_on_channel w last payload none = record {
  buffers = [];
  last_message_id = last;
  threw = some channel_not_open;
}
send_on_channel w last payload (some c) =
    let id = next_message_id last in
    if is_open (w.ready_state c)
    then send_packed_request w c id (pack_message id payload)
    else record { buffers = []; last_message_id = last; threw = some channel_not_open }

-- sendControlRequest, with the bytes of the request
unfoldable pub send_control_request : Wire → ℕ → String → List ℕ → Service → Sent
unfolding send_on_channel
send_control_request w last id payload s = send_on_channel w last payload (get id s.data_channels)

sends_all :
    (w : Wire) (c : ℕ) (chunks : List (List ℕ))
    → ((chunk : List ℕ) → w.send_throws c chunk ≡ false)
    → send_until_throw w c chunks ≡ (chunks, none)
unfolding send_until_throw
sends_all w c [] fine = refl
sends_all w c (chunk ∷ chunks) fine =
    rw (fine chunk) (ap (λ r. (chunk ∷ r.0, r.1)) (sends_all w c chunks fine))

packed_request :
    (w : Wire) (c id : ℕ) (chunks : List (List ℕ)) (r : Result PackError (List (List ℕ)))
    → r ≡ ok chunks
    → ((chunk : List ℕ) → w.send_throws c chunk ≡ false)
    → ((send_packed_request w c id r).buffers ≡ chunks)
      × ((send_packed_request w c id r).threw ≡ none)
unfolding send_packed_request
packed_request w c id chunks r e fine =
    subst
      (λ r.
        ((send_packed_request w c id r).buffers ≡ chunks)
        × ((send_packed_request w c id r).threw ≡ none))
      (sym e) (ap (λ p. p.0) (sends_all w c chunks fine), ap (λ p. p.1) (sends_all w c chunks fine))

small_id : (last : ℕ) → next_message_id last < 2 ^ 32
unfolding next_message_id
small_id last = omega arith

-- Where the data channel of the session is open, its sends do not throw and the bytes can be packed, a
-- control request does not throw, and a reassembler at the other end, where the message id is not in
-- flight, makes of the buffers that were sent exactly the bytes of the request.
pub control_request_arrives :
    (w : Wire) (last c : ℕ) (id : String) (payload : List ℕ) (chunks : List (List ℕ)) (s : Service)
    (peer : Reassembler)
    → get id s.data_channels ≡ some c
    → is_open (w.ready_state c) ≡ true
    → ((chunk : List ℕ) → w.send_throws c chunk ≡ false)
    → pack_message (next_message_id last) payload ≡ ok chunks
    → get (next_message_id last) peer.in_flight ≡ none
    → let sent = send_control_request w last id payload s in
      (sent.threw ≡ none)
      × Delivered
          (next_message_id last)
          (push_all peer sent.buffers)
          (replicate (length chunks - 1) incomplete ++ assembled payload ∷ [])
unfolding send_control_request send_on_channel
control_request_arrives w last c id payload chunks s peer there open_now fine packed absent =
    let mid = next_message_id last in
    let (sent, no_throw) = packed_request w c mid chunks (pack_message mid payload) packed fine in
    rw (there, send_on_channel, open_now)
      (
        no_throw,
        subst
            (λ buffers.
              Delivered mid (push_all peer buffers)
                (replicate (length chunks - 1) incomplete ++ assembled payload ∷ []))
            (sym sent) (delivers peer mid payload chunks (small_id last) absent packed),
      )

-- A sender of a peer connection: the kind of its track, where it has one.
pub data TrackKind : Type 0 where
  audio video : TrackKind

abbrev pub is_video : Option TrackKind → Bool
is_video (some video) = true
is_video _ = false

-- s.track?.kind === 'video' || (!s.track && track?.kind === 'video')
abbrev pub fits : Option TrackKind → Option TrackKind → Bool
fits track none = is_video track
fits track (some kind) = is_video (some kind)

unfoldable pub find_sender : Option TrackKind → List (Option TrackKind) → Option (Option TrackKind)
find_sender track [] = none
find_sender track (s ∷ ss) =
    let rest = find_sender track ss in if fits track s then some s else rest

-- replaceLocalVideoTrack: the senders of a peer connection, and whether replaceTrack rejects.
unfoldable pub replace_on_peer :
    (ℕ → List (Option TrackKind)) → Bool → Option TrackKind → Option ℕ → Bool
unfolding find_sender
replace_on_peer senders rejects track none = false
replace_on_peer senders rejects track (some peer) = elim (find_sender track (senders peer)) [
  | none ↦ false
  | some s ↦ if rejects then false else true
]

unfoldable pub replace_local_video_track :
    (ℕ → List (Option TrackKind)) → Bool → Option TrackKind → String → Service → Bool
unfolding replace_on_peer
replace_local_video_track senders rejects track id s =
    replace_on_peer senders rejects track (get id s.peer_connections)

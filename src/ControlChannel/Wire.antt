-- ===== src/ControlChannel/Wire.antt =====
-- Requests on their way to the accelerator, and responses on their way back.
use learning_cuda.Base.{
  ℕ, zero, suc, ◌-◌, ◌^◌, ◌<◌, ◌≡◌, ◌≢◌, refl, sym, ap, subst, ◌∙◌, true, false, Option, none, some,
  List, [], ◌∷◌, ◌++◌, String, ok, ==_iff, if◌then◌else◌, string_key, nat_key, arith, length,
  replicate,
}
use learning_cuda.JsMap.{get}
use learning_cuda.JsMap.Laws.{get-remove_self, same_refl}
use learning_cuda.Pending.{Desk, register, settle, settle_entry}
use learning_cuda.Framing.Pack.{pack_message}
use learning_cuda.Framing.MessageId.{next_message_id}
use learning_cuda.Framing.Reassembler.{Reassembler, Pushed, incomplete, assembled, push_chunk}
use learning_cuda.Framing.Reassembler.Delivery.{push_all, Delivered, delivers}
use learning_cuda.ControlChannel.{
  ControlResponse, Outcome, resolved, Dispatch, Browser, Control, ready_channel, is_ready,
  send_chunks, after_send, send_packed, send_encoded, dispatch_on, dispatch, send_request,
  on_response, on_assembled, on_buffer, hear, Event, hears, step, run,
}

-- The log of what was sent, after the chunks went out one after the other.
abbrev pub logged : ℕ → List (List ℕ) → List (ℕ × List ℕ) → List (ℕ × List ℕ)
logged c [] sent = sent
logged c (chunk ∷ chunks) sent = logged c chunks ((c, chunk) ∷ sent)

send_chunks-logged :
    (b : Browser) (c : ℕ) (chunks : List (List ℕ)) (sent : List (ℕ × List ℕ))
    → ((chunk : List ℕ) → b.send_throws c chunk ≡ false)
    → send_chunks b c chunks sent ≡ (logged c chunks sent, true)
unfolding send_chunks
send_chunks-logged b c [] sent fine = refl
send_chunks-logged b c (chunk ∷ chunks) sent fine =
    rw (fine chunk) (send_chunks-logged b c chunks ((c, chunk) ∷ sent) fine)

dispatch-sent :
    (b : Browser) (d : Dispatch) (c : ℕ) (payload : List ℕ) (chunks : List (List ℕ)) (s : Control)
    → ready_channel b s.channel ≡ some c
    → ((chunk : List ℕ) → b.send_throws c chunk ≡ false)
    → d.payload ≡ some payload
    → pack_message (next_message_id s.last_message_id) payload ≡ ok chunks
    → (dispatch b d s).sent ≡ logged c chunks s.sent
unfolding dispatch dispatch_on send_encoded send_packed after_send
dispatch-sent b d c payload chunks s ready fine encoded packed =
    rw (ready, dispatch_on, encoded, send_encoded, packed, send_packed)
      (subst
        (λ q.
          (after_send d.request_id q
            (record s { last_message_id = next_message_id s.last_message_id })).sent
          ≡ logged c chunks s.sent)
        (sym (send_chunks-logged b c chunks s.sent fine)) refl)

is_ready-true :
    (b : Browser) (c : ℕ) (s : Control) → ready_channel b s.channel ≡ some c → is_ready b s ≡ true
unfolding is_ready
is_ready-true b c s ready = rw (ready, is_ready) refl

next_message_id-small : (last : ℕ) → next_message_id last < 2 ^ 32
unfolding next_message_id
next_message_id-small last = omega arith

-- On an open channel whose sends do not throw, a request that is encoded goes out as the chunks of its
-- bytes, in order;
-- and a reassembler at the other end, where the message id is not in flight, makes of these chunks
-- exactly the bytes of the request.
pub request_arrives :
    (b : Browser) (d : Dispatch) (c : ℕ) (payload : List ℕ) (chunks : List (List ℕ)) (s : Control)
    (peer : Reassembler)
    → ready_channel b s.channel ≡ some c
    → ((chunk : List ℕ) → b.send_throws c chunk ≡ false)
    → d.payload ≡ some payload
    → pack_message (next_message_id s.last_message_id) payload ≡ ok chunks
    → get (next_message_id s.last_message_id) peer.in_flight ≡ none
    → ((send_request b d s).sent ≡ logged c chunks s.sent)
      × Delivered
          (next_message_id s.last_message_id)
          (push_all peer chunks)
          (replicate (length chunks - 1) incomplete ++ assembled payload ∷ [])
unfolding send_request
request_arrives b d c payload chunks s peer ready fine encoded packed absent = (
  rw (is_ready-true b c s ready) (
      dispatch-sent b d c payload chunks (record s { desk = register d.request_id s.desk }) ready
        fine encoded packed),
  delivers peer (next_message_id s.last_message_id) payload chunks
      (next_message_id-small s.last_message_id) absent packed,
)

-- The messages of a channel, one after the other.
abbrev pub hears_all : ℕ → List (List ℕ) → List Event
hears_all c [] = []
hears_all c (buffer ∷ buffers) = hears c buffer ∷ hears_all c buffers

no_results :
    (k : ℕ) (bytes : List ℕ) (r : Reassembler)
    → (push_all r []).1 ≢ replicate k incomplete ++ assembled bytes ∷ []
unfolding push_all
no_results zero bytes r e = cc (e)
no_results (suc k) bytes r e = cc (e)

more_results :
    (r : Reassembler) (buffer : List ℕ) (buffers : List (List ℕ))
    → (push_all r (buffer ∷ buffers)).1 ≢ []
unfolding push_all
more_results r buffer buffers e = cc (e)

split_results :
    (r : Reassembler) (buffer : List ℕ) (buffers : List (List ℕ)) (p : Pushed) (ps : List Pushed)
    → (push_all r (buffer ∷ buffers)).1 ≡ p ∷ ps
    → ((push_chunk r buffer).1 ≡ p) × ((push_all (push_chunk r buffer).0 buffers).1 ≡ ps)
unfolding push_all
split_results r buffer buffers p ps e = (cc (e), cc (e))

settle_pending :
    (id : String) (o : Outcome) (h : ℕ) (d : Desk String Outcome)
    → get id d.pending ≡ some h
    → (get id (settle id o d).pending ≡ none) × (get id (settle id o d).settled ≡ some o)
unfolding settle settle_entry get
settle_pending id o h d waits =
    rw (waits, settle_entry) (get-remove_self id d.pending, rw (same_refl id) refl)

on_response_settles :
    (r : ControlResponse) (found : Option ControlResponse) (s : Control)
    → found ≡ some r
    → (on_response found s).desk ≡ settle r.request_id (resolved r) s.desk
unfolding on_response
on_response_settles r found s e =
    subst (λ f. (on_response f s).desk ≡ settle r.request_id (resolved r) s.desk) (sym e) refl

module _ (from_binary : List ℕ → Option ControlResponse) where
  -- The one listener of the channel runs.
  hears_once :
      (c : ℕ) (buffer : List ℕ) (s : Control)
      → s.listeners ≡ c ∷ []
      → step from_binary s (hears c buffer) ≡ on_buffer from_binary buffer s
  unfolding step hear
  hears_once c buffer s one =
      subst (λ ls. hear from_binary c buffer ls s ≡ on_buffer from_binary buffer s) (sym one)
        (ap (λ t. if t then on_buffer from_binary buffer s else s) ((==_iff c c).1 refl))

  on_buffer_pushed :
      (buffer : List ℕ) (s : Control) (r : Reassembler) (p : Pushed)
      → push_chunk s.reassembler buffer ≡ (r, p)
      → on_buffer from_binary buffer s ≡ on_assembled from_binary p (record s { reassembler = r })
  unfolding on_buffer
  on_buffer_pushed buffer s r p e =
      ap
        (λ (q : Reassembler × Pushed).
          on_assembled from_binary q.1 (record s { reassembler = q.0 }))
        e

  -- A chunk that completes nothing.
  hears_chunk :
      (c : ℕ) (buffer : List ℕ) (s : Control)
      → s.listeners ≡ c ∷ []
      → (push_chunk s.reassembler buffer).1 ≡ incomplete
      → step from_binary s (hears c buffer)
        ≡ record s { reassembler = (push_chunk s.reassembler buffer).0 }
  unfolding on_assembled
  hears_chunk c buffer s one e =
      hears_once c buffer s one
      ∙ on_buffer_pushed buffer s (push_chunk s.reassembler buffer).0 incomplete
          (ap (λ p. ((push_chunk s.reassembler buffer).0, p)) e)

  -- The chunk that completes a response.
  hears_last :
      (c : ℕ) (buffer bytes : List ℕ) (r : ControlResponse) (s : Control)
      → s.listeners ≡ c ∷ []
      → from_binary bytes ≡ some r
      → (push_chunk s.reassembler buffer).1 ≡ assembled bytes
      → (step from_binary s (hears c buffer)).desk ≡ settle r.request_id (resolved r) s.desk
  unfolding on_assembled
  hears_last c buffer bytes r s one found e =
      let next = record s { reassembler = (push_chunk s.reassembler buffer).0 } in
      ap (λ (x : Control). x.desk)
        (hears_once c buffer s one
          ∙ on_buffer_pushed buffer s (push_chunk s.reassembler buffer).0 (assembled bytes)
              (ap (λ p. ((push_chunk s.reassembler buffer).0, p)) e))
      ∙ on_response_settles r (from_binary bytes) next found

  -- k chunks that complete nothing, then the chunk that completes the response.
  hears_response :
      (k : ℕ) (c : ℕ) (chunks : List (List ℕ)) (bytes : List ℕ) (r : ControlResponse) (s : Control)
      → s.listeners ≡ c ∷ []
      → from_binary bytes ≡ some r
      → (push_all s.reassembler chunks).1 ≡ replicate k incomplete ++ assembled bytes ∷ []
      → (run from_binary s (hears_all c chunks)).desk ≡ settle r.request_id (resolved r) s.desk
  unfolding run
  hears_response k c [] bytes r s one found results =
      absurd (no_results k bytes s.reassembler results)
  hears_response zero c (chunk ∷ []) bytes r s one found results =
      hears_last c chunk bytes r s one found
        ((split_results s.reassembler chunk [] (assembled bytes) [] results).0)
  hears_response zero c (chunk ∷ x ∷ xs) bytes r s one found results = absurd (
      more_results (push_chunk s.reassembler chunk).0 x xs
        ((split_results s.reassembler chunk (x ∷ xs) (assembled bytes) [] results).1))
  hears_response (suc k) c (chunk ∷ chunks) bytes r s one found results =
      let (first, later) =
        split_results s.reassembler chunk chunks incomplete
          (replicate k incomplete ++ assembled bytes ∷ []) results in
      ap (λ n. (run from_binary n (hears_all c chunks)).desk) (hears_chunk c chunk s one first)
      ∙ hears_response k c chunks bytes r
          (record s { reassembler = (push_chunk s.reassembler chunk).0 }) one found later

-- A response whose chunks arrive in order on a channel with one listener, while its message id is not
-- in flight, settles the request that it names with that response: the request leaves the table, and
-- its promise is resolved.
pub response_resolves :
    (from_binary : List ℕ → Option ControlResponse) (s : Control) (c id h : ℕ) (bytes : List ℕ)
    (chunks : List (List ℕ)) (r : ControlResponse)
    → s.listeners ≡ c ∷ []
    → id < 2 ^ 32
    → get id s.reassembler.in_flight ≡ none
    → pack_message id bytes ≡ ok chunks
    → from_binary bytes ≡ some r
    → get r.request_id s.desk.pending ≡ some h
    → let d = (run from_binary s (hears_all c chunks)).desk in
      (get r.request_id d.pending ≡ none) × (get r.request_id d.settled ≡ some (resolved r))
response_resolves from_binary s c id h bytes chunks r one small absent packed found waits =
    let (gone, results) = delivers s.reassembler id bytes chunks small absent packed in
    subst
      (λ (d : Desk String Outcome).
        (get r.request_id d.pending ≡ none) × (get r.request_id d.settled ≡ some (resolved r)))
      (sym (hears_response from_binary (length chunks - 1) c chunks bytes r s one found results))
      (settle_pending r.request_id (resolved r) h s.desk waits)

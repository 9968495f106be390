-- ===== src/Sessions/Closing.antt =====
-- The ways in which a session ends, in
-- src/front-end/src/infrastructure/connection/webrtc-service.ts: a close that was asked for, the beacon
-- of a page that unloads, a message of the signaling service, a broken connection, a failed creation.
use learning_cuda.Base.{
  ℕ, ◌≡◌, ◌≢◌, refl, sym, subst, ◌∙◌, Bool, true, false, ◌&&◌, none, some, ◌∷◌, String,
  if◌then◌else◌, string_key, inl, inr, Bool-cases,
}
use learning_cuda.JsMap.{has, remove}
use learning_cuda.Sessions.{control_changed, Service}
use learning_cuda.Sessions.Cleanup.{cleanup_session, view, empty_view, cleanup_forgets_session}
use learning_cuda.Sessions.Heartbeat.{session_closed, without_sessions}
use learning_cuda.Sessions.Signaling.{
  Browser, close_session_response, handle_signaling_message, handle_with_peer,
}
use learning_cuda.Sessions.Creation.{creation_failed}

-- What navigator.sendBeacon does: it is not there, it throws, or it says whether the beacon is queued.
pub data Beacon : Type 0 where
  no_beacon beacon_throws : Beacon
  queues : Bool → Beacon

unfoldable pub close_session_beacon : Beacon → String → Service → Service × Bool
unfolding cleanup_session without_sessions
close_session_beacon no_beacon id s = (s, false)
close_session_beacon beacon_throws id s = (s, false)
close_session_beacon (queues queued) id s = (without_sessions (cleanup_session id s), queued)

-- handleSessionError; `is_broken` says that the ICE connection has failed or is disconnected
unfoldable pub handle_session_error : Bool → String → Service → Service
unfolding cleanup_session
handle_session_error is_broken id s =
    if has id s.peer_connections && is_broken then cleanup_session id s else s

-- notifyOpen and notifyClose of a session's control channel
unfoldable pub notify_open : String → ℕ → Service → Service
notify_open id c s = record s { effects = control_changed id (some c) ∷ s.effects }

unfoldable pub notify_close : String → Service → Service
notify_close id s = record s {
  control_channels = remove id s.control_channels;
  effects = control_changed id none ∷ s.effects;
}

-- The status does not count for what a service holds of a session.
view-without_sessions : (id : String) (s : Service) → view id (without_sessions s) ≡ view id s
unfolding view without_sessions
view-without_sessions id s = refl

close_message :
    (b : Browser) (id : String) (s : Service)
    → (handle_signaling_message b id close_session_response s).0 ≡ cleanup_session id s
unfolding handle_signaling_message handle_with_peer
close_message b id s = elim (Bool-cases (has id s.peer_connections)) [
  | inl there ↦ rw there refl
  | inr gone ↦ rw gone refl
]

-- Nothing of the session is left in any table, and every other session's entries are as they were.
abbrev pub Forgets : String → Service → Service → Type 0
Forgets id s s' =
    (view id s' ≡ empty_view) × ((other : String) → id ≢ other → view other s' ≡ view other s)

-- These ends of a session leave nothing of it in any table, and leave the other sessions as they were: a
-- close, once it was answered or has failed; a beacon that was handed over, queued or not; a close message
-- of the signaling service; an error of a peer connection that is there and broken; and the catch of
-- `createSession` around the negotiation, the polling and the wait for the data channel. (What throws in
-- `createSession` before these does not come to that catch.)
pub every_close-Forgets :
    (id : String) (s : Service)
    → Forgets id s (session_closed id s)
      × ((queued : Bool) → Forgets id s (close_session_beacon (queues queued) id s).0)
      × ((b : Browser) → Forgets id s (handle_signaling_message b id close_session_response s).0)
      × (has id s.peer_connections ≡ true → Forgets id s (handle_session_error true id s))
      × Forgets id s (creation_failed id s)
unfolding session_closed close_session_beacon handle_session_error creation_failed
every_close-Forgets id s =
    let gone = cleanup_forgets_session id s in
    let ended : Forgets id s (without_sessions (cleanup_session id s)) = (
      view-without_sessions id (cleanup_session id s) ∙ gone.0,
      λ other ne. view-without_sessions other (cleanup_session id s) ∙ gone.1 other ne,
    ) in
    (
      ended,
      λ queued. ended,
      λ b. subst (Forgets id s) (sym (close_message b id s)) gone,
      λ there. rw there gone,
      gone,
    )

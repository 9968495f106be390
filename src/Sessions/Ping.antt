-- ===== src/Sessions/Ping.antt =====
-- `setupPingChannel` of src/front-end/src/infrastructure/connection/webrtc-service.ts, up to its
-- negotiation, and what its catch does.
use learning_cuda.Base.{
  ℕ, ◌≡◌, ◌≢◌, ◌⊎◌, refl, inl, inr, Bool, true, false, not, Option, none, some, ◌∷◌, String,
  if◌then◌else◌, string_key,
}
use learning_cuda.JsMap.{get, put}
use learning_cuda.JsMap.Laws.{get-put_self}
use learning_cuda.Sessions.{Service, close_peer}
use learning_cuda.Sessions.Cleanup.{view, empty_view, cleanup_session, cleanup_forgets_session}
use learning_cuda.Sessions.Creation.{Platform, create_peer_connection, create_data_channel}

-- What is left of a call before the negotiation: whether it goes on to it.
unfoldable pub ping_channel : String → ℕ → Option ℕ → Service → Service × Bool
ping_channel id peer none s = (record s { effects = close_peer peer ∷ s.effects }, false)
ping_channel id peer (some c) s = (
  record s {
    peer_connections = put id peer s.peer_connections;
    data_channels = put id c s.data_channels;
  },
  true,
)

unfoldable pub ping_peer : Platform → String → Option ℕ → Service → Service × Bool
unfolding ping_channel
ping_peer p id none s = (s, false)
ping_peer p id (some peer) s = ping_channel id peer (create_data_channel p id) s

unfoldable pub setup_ping_channel : Platform → String → Service → Service × Bool
unfolding ping_peer
setup_ping_channel p id s =
    if not p.is_supported
    then (s, false)
    else if not p.is_initialized
    then (s, false)
    else ping_peer p id (create_peer_connection p) s

-- The catch around the negotiation and the polling.
unfoldable pub ping_failed : String → Service → Service
unfolding cleanup_session
ping_failed id s = cleanup_session id s

-- The two outcomes: the peer connection and the data channel are both in the tables, or no table is
-- touched.
abbrev pub BothOrNone : String → Service → Service × Bool → Type 0
BothOrNone id s r =
    ((r.1 ≡ true)
      × ((peer : ℕ) × (get id r.0.peer_connections ≡ some peer))
      × ((c : ℕ) × (get id r.0.data_channels ≡ some c)))
    ⊎ ((r.1 ≡ false)
        × (r.0.peer_connections ≡ s.peer_connections)
        × (r.0.data_channels ≡ s.data_channels)
        × (r.0.sessions ≡ s.sessions))

ping_channel-BothOrNone :
    (id : String) (peer : ℕ) (c : Option ℕ) (s : Service)
    → BothOrNone id s (ping_channel id peer c s)
unfolding ping_channel
ping_channel-BothOrNone id peer none s = inr (refl, refl, refl, refl)
ping_channel-BothOrNone id peer (some c) s =
    inl (
      refl,
      (peer, get-put_self id peer s.peer_connections),
      (c, get-put_self id c s.data_channels),
    )

ping_peer-BothOrNone :
    (p : Platform) (id : String) (peer : Option ℕ) (s : Service)
    → BothOrNone id s (ping_peer p id peer s)
unfolding ping_peer
ping_peer-BothOrNone p id none s = inr (refl, refl, refl, refl)
ping_peer-BothOrNone p id (some peer) s =
    ping_channel-BothOrNone id peer (create_data_channel p id) s

-- The ping channel's call either goes on to its negotiation with its peer connection and its data
-- channel both in the tables, or it stops with no peer connection, data channel or session added or
-- taken away. If the negotiation then fails, nothing of the session is left, and the other sessions
-- are as they were.
pub ping_all_or_nothing :
    (p : Platform) (id : String) (s : Service)
    → BothOrNone id s (setup_ping_channel p id s)
      × (view id (ping_failed id (setup_ping_channel p id s).0) ≡ empty_view)
      × ((other : String)
          → id ≢ other
          → view other (ping_failed id (setup_ping_channel p id s).0)
            ≡ view other (setup_ping_channel p id s).0)
unfolding setup_ping_channel ping_failed
ping_all_or_nothing p id s =
    let cleaned = cleanup_forgets_session id (setup_ping_channel p id s).0 in
    (both p.is_supported p.is_initialized, cleaned.0, cleaned.1)
  where
    both :
        (supported initialized : Bool)
        → BothOrNone id s (
            if not supported
            then (s, false)
            else if not initialized
            then (s, false)
            else ping_peer p id (create_peer_connection p) s)
    both false initialized = inr (refl, refl, refl, refl)
    both true false = inr (refl, refl, refl, refl)
    both true true = ping_peer-BothOrNone p id (create_peer_connection p) s

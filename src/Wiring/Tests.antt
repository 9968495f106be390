-- ===== src/Wiring/Tests.antt =====
-- The theorem about the last session at a concrete one.
use learning_cuda.Base.{refl, false, some, [], ◌∷◌, ◌==◌, if◌then◌else◌, string_key}
use learning_cuda.JsMap.{get}
use learning_cuda.Pending.{register, empty_desk}
use learning_cuda.Pending.Invariant.{empty_desk-Inv, register-Inv}
use learning_cuda.ControlChannel.{Control, new_control}
use learning_cuda.Sessions.{channel_open, channel_closing, Service, new_service}
use learning_cuda.Wiring.{Channels, close_and_tell, GaveUp, last_session_rejects}

-- Channel 4 is open, and no other.
abbrev channels : Channels
channels = record {
  ready_state = λ c. if c == 4 then channel_open else channel_closing;
  send_throws = λ c chunk. false;
}

abbrev two_sessions : Service
two_sessions = record new_service { control_channels = ("a", 4) ∷ ("b", 5) ∷ [] }

-- One request is pending on channel 4.
abbrev waiting : Control
waiting = record new_control { channel = some 4; desk = register "r" empty_desk }

last_session_rejects_example : GaveUp waiting (close_and_tell channels "a" two_sessions waiting).1
unfolding get empty_desk
last_session_rejects_example =
    last_session_rejects channels "a" 4 4 two_sessions waiting refl
      ((λ ne. absurd (ne refl)), ((λ ne. refl), tt)) refl
      (register-Inv "r" empty_desk (refl, tt) empty_desk-Inv)

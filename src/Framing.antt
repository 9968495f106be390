-- ===== src/Framing.antt =====
-- src/front-end/src/infrastructure/transport/data-channel-framing.ts: how a message is cut into
-- chunks for a WebRTC data channel, and how the receiving side puts the chunks together again.
pub mod Envelope
pub mod MessageId
pub mod Pack
pub mod Reassembler
mod Tests

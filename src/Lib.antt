-- ===== src/Lib.antt =====
-- The front end of learning-cuda (src/front-end/src): the TypeScript program that a browser runs to send
-- frames and control requests to an accelerator over WebRTC data channels. This library models its
-- transport and connection core, and the state of its user interface.
--
-- The program's parts, the files that model them, and how they interact:
-- - Framing (src/front-end/src/infrastructure/transport/data-channel-framing.ts): messages are cut into
--   chunks with a header and put together again. Envelope is the header of `packMessage` and the first
--   part of `pushChunk`, MessageId is `nextMessageId`, Pack is `packMessage`, Reassembler is
--   `ChunkReassembler`. A buffer is the list of its bytes.
-- - Pending: the table of requests that wait for an answer, each with a timer, which the control channel
--   and the frame transport both keep. Promises are logged where they are resolved or rejected. Ledger is
--   its abstract specification, a step relation on the phases that requests go through; Refines
--   relates the table's operations to it.
-- - ControlChannel (src/front-end/src/infrastructure/transport/control-channel-service.ts): requests that
--   are queued, sent as chunks, answered, timed out or rejected. It uses Framing and Pending, and is told
--   by the sessions when a control channel opens or closes. Responses are the methods of its API.
-- - FrameTransport (src/front-end/src/infrastructure/transport/webrtc-frame-transport.ts): frames and
--   their responses. Sending and Receiving are the two ways, Events has what happens to a transport,
--   Filters and Raster what a frame is made of.
-- - Sessions (src/front-end/src/infrastructure/connection/webrtc-service.ts): the tables of the sessions.
--   Creation, Candidates and Signaling are how a session comes up, Ping its ping channel, Waits and Ready
--   what is waited for, Requests what is sent on its control channel, Heartbeat how it is watched, Status
--   what others see of it, Cleanup and Closing how it goes.
-- - Wiring: the sessions and the control channel together; the listener that the sessions call with every
--   change of a control channel is the method `onChannelChange` of the control channel.
-- - Health (src/front-end/src/infrastructure/external/accelerator-health-monitor.ts): the monitor that
--   polls the accelerator and raises an alarm. It stands alone.
-- - Grid (src/front-end/src/presentation/hooks/useGridSources.ts, useSourceTransportFactory.ts,
--   src/front-end/src/presentation/utils/grid-source.ts and input-source-defaults.ts, and
--   src/front-end/src/presentation/components/video/VideoGridHost.tsx): the sources that the grid shows.
--   Grid has the reducer, Build what a new source is, Ids how it is named, Fps its frame rate, Host the
--   handlers, Present and Invariant what the handlers keep.
-- - Panel (src/front-end/src/presentation/components/filters/FilterPanel.tsx): the reducer of the filters,
--   and in Drag the handlers that let a filter be dragged to another place.
-- - Camera (src/front-end/src/presentation/hooks/useCameraTransport.ts): the sessions that send a camera's
--   stream. Handlers has what its detection and stats channels dispatch.
-- - Sync (src/front-end/src/presentation/hooks/useSourceFilterSync.ts and useFilterApplication.ts): how the
--   filters of the selected source are applied.
-- - Images (src/front-end/src/presentation/utils/image-utils.ts): the pixel loops of frames that
--   are drawn on a canvas and read back.
-- - Hooks (src/front-end/src/presentation/hooks/useAsyncGRPC.ts, useHealthMonitor.ts and
--   src/front-end/src/presentation/context/toast-context.tsx): requests that overtake one another, polling
--   while the page is visible, and toasts.
-- - Values (src/front-end/src/domain/value-objects): the status and the description of a connection, and
--   the filters that are made of their definitions.
-- - Base, JsMap and Timers are shared: list functions over the native numbers, JavaScript's Map as an
--   association list in insertion order, and the browser's timers as handles that are armed.
--
-- State and time: a class is a record of its fields, a method a function from a record to a record, under
-- the name of the method. What is asynchronous is split at its awaits; each part is an event of its own,
-- and theorems on runs quantify over all sequences of events. What the browser decides (whether a channel
-- is open, whether `send` throws, what a constructor gives, the time) is an argument of the event.
-- Promises, callbacks and calls into other services are logged as outcomes or effects, the last one first.
--
-- Parameters: the protobuf encoding of requests and responses is generated code, so the models take
-- `to_binary` and `from_binary` as arguments, and the id of a new control request, which the browser's
-- crypto.randomUUID gives, is taken to differ from all earlier ones where a theorem says so. The text
-- functions `trim` and `toLowerCase` are arguments, and so is what the browser's canvases and the PNG
-- between them do to an image (Images/Canvas).
--
-- Bounds and fuel: numbers are natural numbers, message ids wrap around at 2 ^ 32, and header fields are
-- cut to their bytes. Loops recurse on the lists that the program iterates over, and `packMessage` on the
-- number of chunks, which it computes first. Two functions count rounds: `raster_rgb` has a round for each
-- byte, of which the loop needs one for every four, and the round trip in Images/RoundTrip shows that they
-- are enough; `decimal` in Grid/Ids has more rounds than a number has digits, and the digits are shown to
-- spell the number.
--
-- Not modelled: logging, tracing and performance marks; media tracks and codec preferences; what React
-- renders; the access to the camera, the upload of images and the services that only call generated
-- clients; the Go and C++ programs at the other end of the channel.
pub mod Base
pub mod JsMap
pub mod Timers
pub mod Pending
pub mod ControlChannel
pub mod FrameTransport
pub mod Sessions
pub mod Framing
pub mod Health
pub mod Images
pub mod Grid
pub mod Camera
pub mod Sync
pub mod Wiring
pub mod Panel
pub mod Hooks
pub mod Values

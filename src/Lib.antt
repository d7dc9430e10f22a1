-- ===== src/Lib.antt =====
-- A gateway that joins telephone calls and browsers to a realtime voice service: SIP calls come in
-- over RTP, browsers over a web socket and WebRTC, a bridge keeps one session of the service for
-- each of them, and a store keeps contexts, transcripts and recordings, which an HTTP API shows.
--
-- The parts and their files:
--
-- Database.antt models internal/store/db.go. Set, Get, Delete, Filter and DeleteByPrefix of the
-- wrapper around the embedded engine. The engine is the record Mdbx of Mdbx.antt: its operations, and its
-- documented behaviour as the record Laws. Mdbx/Reference.antt is an engine that has these laws.
-- Database/Opening.antt has NewDatabase and Close, as the calls that they make.
--
-- ContextStore.antt models internal/store/store.go. One function per method; the keys are in
-- ContextStore/Keys.antt. The order in which Go visits a map is the parameter `range`. The store's
-- abstract view is a map from places (ContextStore/Items.antt) that commands act on
-- (ContextStore/Commands.antt).
--
-- Openai.antt models internal/openai/openai.go. The messages of the data channel (Openai/Decode.antt
-- is json.Unmarshal into Message), the state that they drive, and what the service sends. Calls of
-- the handlers are events in the result. Openai/Connect.antt has Connect and its steps,
-- Openai/Ephemeral.antt the answer that carries the ephemeral key, Openai/Tracks.antt the callbacks of
-- the connection and the loop that reads the audio track.
--
-- Bridge.antt and Bridge/Sessions.antt model internal/bridge/bridge.go. The bridge's table and its
-- operations; one session, its buffer and its counters. Calls of the bridge's handlers are
-- notices in the result. The constants of internal/controllers/consts.go stand there too.
-- Bridge/Requests.antt and Bridge/Answered.antt are about the HTTP requests of Connect and the answers
-- that it needs, Bridge/Retired.antt about what can still be done to a session after its removal.
-- Bridge/Playing.antt has the interface AudioEndpoint and the playing loop on it; Sip/Rtp/Playing.antt
-- and Webrtc/Playing.antt are the two endpoints that implement it.
--
-- Sip.antt models internal/sip/sip.go. Sip/Rtp.antt has the endpoint and the packets that it sends,
-- Sip/Receive.antt a round of the receiving loop, Sip/Sdp.antt session descriptions and ports,
-- Sip/Server.antt the handlers of INVITE, ACK, BYE, CANCEL and REGISTER, Sip/Stun.antt
-- discoverPublicMapping.
--
-- Webrtc.antt models internal/webrtc/webrtc.go: the table of browsers' endpoints, HandleWebSocket,
-- removeEndpoint, SendOpusFrame and Close. Webrtc/Signaling.antt has the messages of the web socket,
-- Webrtc/Messages.antt the loop that reads them, Webrtc/Audio.antt the loop that reads the remote
-- track.
--
-- Recorder.antt models internal/controllers/recorder.go: recordings and their counts, and the blocks
-- of a track.
--
-- Transcript.antt models internal/controllers/transcript.go: which messages are phrases.
--
-- Api.antt models internal/api/api.go. A handler is a function to the state left and the reply.
--
-- Config.antt models the readers of environment variables in cmd/openai-gate/main.go, and App.antt
-- the rest of it: how store, bridge, recorder and endpoints are put together, what the bridge's
-- handlers do, and the shutdown; App/Main.antt is main as a whole. App/Steps.antt is the running
-- program as a function of the calls that it handles, the reading of an endpoint's socket, the messages
-- of the data channel and the writing requests of the HTTP interface included; a notice is pending until its goroutine runs, and the pending ones may run in any order.
--
-- Base.antt, Text.antt and Json.antt are Boolean tests, Go's maps as association lists, byte strings
-- (their order, splitting, decimal numbers) and JSON values. Tests.antt has runs at concrete inputs.
--
-- How they interact: the SIP server creates and removes sessions of the bridge; the bridge reads the
-- context of a caller from the store and gives it to the service as its prompt; packets go from the
-- receiving loop through the bridge to the service, and from the service through a session's buffer
-- to the endpoint; the recorder and the transcript write what passes into the store; the API reads
-- and deletes it.
--
-- Bounds and fuel: the loops of Filter and DeleteByPrefix run on the number of entries as fuel, since
-- each round moves the cursor to a later entry or deletes one; the loop of getPort runs on the width
-- of the port range, of which each round uses two. Counters wrap at 64 bits, RTP timestamps and
-- sequence numbers at 32, the sequence number of a packet at 16. Times are int64 values.
--
-- Not modelled: the statistics, which are log lines, a negative bound of the port range, the routes of the HTTP servers, the loading of
-- an .env file, and the state of a shutdown that runs out of time. The HTTP client, the web
-- socket, the peer connections, the STUN messages, the WebM writer, the RTP packet format, the
-- resolver, the sockets and the clock are parameters. Handlers run one after the other, in any order:
-- what happens inside of one handler is not interleaved with others, a goroutine that a SIP handler
-- starts is in its result, what other goroutines change between the attempts of a sender is a
-- parameter of each attempt, and App/Steps.antt does not follow what is still done to a session after
-- the bridge has lost it.
pub mod Base
pub mod Text
pub mod Mdbx
pub mod Database
pub mod ContextStore
pub mod Json
pub mod Openai
pub mod Bridge
pub mod Config
pub mod Sip
pub mod Recorder
pub mod Transcript
pub mod Api
pub mod Webrtc
pub mod App
pub mod Tests

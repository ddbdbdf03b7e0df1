-- ===== src/Lib.antt =====
-- A verification library for the streaming server: the Go packages under internal/, cmd/ and scripts/.
--
-- The server takes a teacher's WebRTC stream (whip), feeds it to one FFmpeg process per session
-- (transcode), serves the HLS output (hls), and keeps a row per session in PostgreSQL (session),
-- with events on Redis (events). Viewers chat in
-- rooms (chat); a worker joins the segments of an ended stream into one file (recording).
--
-- Which file models what:
--   Prelude, Text, Go   shared tests, lists, maps, integers; Go's byte strings; panics and channels
--   Session             internal/session/status.go, repository.go: Create, GetByID, List,
--                       UpdateStatus, SetHLSPlaylistURL, SetMP4URL over a list of rows
--   Events              internal/events/publisher.go: the events that reach Redis, in order
--   Whip.Tracks         internal/whip/track.go: AddTrack, HandleTrack, Remove, Close, ReadRTP over a
--                       store of readers and pairs
--   Whip.Peer           internal/whip/handler.go: createPeerConnection
--   Http                internal/httputil/response.go: WriteJSON, WriteError, ParseSessionID
--   Whip.Handler        internal/whip/handler.go: HandleWHIP, the callback of the connection state,
--                       HandleDeleteResource over a store of stream sessions; with HTTP headers in
--                       Whip.Handler.Resource
--   Transcode.Manager   internal/transcode/ffmpeg.go: Start and Stop, whole and cut at their locks;
--                       Transcode.Manager.Schedule interleaves them
--   Transcode.Pumps     internal/transcode/ffmpeg.go: pumpTracks, pumpVideo, drainTrack
--   Transcode.Outputs   internal/transcode/ffmpeg.go: GetSegmentDir, buildFFmpegArgs
--   Transcode.Logger    internal/transcode/logger.go: Write
--   Hls.Vod             internal/hls/vod.go: MarkAsVOD
--   Hls.Segments        internal/hls/handler.go: HandleWatch, ServeSegments, isValidSegmentPath, with
--                       path/filepath and the check of net/http in Text.Paths
--   Chat.Hub            internal/chat/hub.go: rooms, clients, Broadcast, Stop; how handler.go joins and
--                       leaves
--   Recording.Worker    internal/recording/worker.go: Enqueue, processLoop, Stop, process,
--                       concatenateSegments, with the order of Go's strings in Text.Order
--   Recording.Requests  internal/recording/handler.go: HandleGetRecording
--   Config              internal/config/config.go: Load
--   Session.Handlers    internal/session/handler.go: HandleCreate, HandleGet, HandleList, HandleEnd
--   Server.Wiring       cmd/server/main.go: OnTrack and OnDisconnect, which join Whip, Transcode and
--                       Recording
--   Server.Routes       cmd/server/main.go: the route table with its middlewares, healthHandler
--   Server.Lifecycle    cmd/server/main.go: the start, the shutdown, a server that starts again,
--                       and the viewers of its streams
--   Scripts             scripts/generate-token/main.go, scripts/seed/main.go: the tokens and the row
--   Auth                internal/auth/jwt.go: Authenticate, RequireRole, and both in a row as
--                       cmd/server/main.go has them
--   Chat.History        internal/chat/repository.go: Insert, GetHistory
--   Chat.Hub.Lobby      the hub under whole connections that join, speak and leave
--   Chat.Connections    internal/chat/handler.go: HandleWebSocket, readPump, writePump, HandleHistory,
--                       and Publish of hub.go
--
-- UUIDs and times are natural numbers. A pointer is an address in a store. A method under a mutex is
-- one step; a method that releases its mutex is cut there, and the steps of `HandleTrack` are those of
-- Whip.Tracks.Cut, while the rest takes it whole. PostgreSQL and Redis fail by an argument
-- of each call, pion answers through a record of results, and a change of a connection's state is a
-- call that may come at any time; the one that `pc.Close()` makes in `HandleWHIP` comes before its
-- answer. A panic is the value `panics` of `Go`.
--
-- Fuel: `drain` of Transcode.Logger takes one unit for each line and is given one more than there
-- are bytes; `reverse_loop` of Chat.History is given one more than there are rows;
-- the inner loop of `pump_video` is given one more than the builder holds;
-- `cut` of Text.Space takes one for each character and is given the length.
--
-- Not modelled: logging and its middleware, the HTTP headers of the other endpoints, the FFmpeg
-- process itself, the listening socket, and the package metrics, which is pure output.
pub mod Prelude
pub mod Go
pub mod Text
pub mod Http
pub mod Events
pub mod Session
pub mod Whip
pub mod Transcode
pub mod Hls
pub mod Chat
pub mod Recording
pub mod Auth
pub mod Config
pub mod Server
pub mod Scripts

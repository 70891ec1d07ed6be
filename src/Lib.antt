-- ===== src/Lib.antt =====
-- P2PTogether, the peer service (peer_service/): peers of a session watch one stream together. One
-- peer encodes the current item of a shared queue, its segments and all control messages travel by
-- gossip, and roles decide what a peer may do.
--
-- The parts and the files that model them, paths from the repository's root:
--   Hlc            peer_service/internal/common/time.go: the clock whose stamps order all updates.
--   Names          texts: strings.ToLower and strings.TrimSpace; Decimal has decimal numbers
--                  and affixes.
--   Permissions    peer_service/internal/roles/roles.go: masks.
--   Peers          peer IDs of libp2p, with their text form as a parameter.
--   Roles          peer_service/internal/roles/role_manager.go: definitions and assignments; Updates
--                  has the changes of definitions and what comes from other peers.
--   Sessions       peer_service/internal/session/: members and bans.
--   Queue          peer_service/internal/p2p/queue.go: items and cursor.
--   Ring           peer_service/internal/media/ring_buffer.go: the live segments.
--   Messages       the messages that the Go code fills, and the effects of a step.
--   Server         the state of one service: main.go's `server` with its Node and QueueController.
--   Streaming      peer_service/internal/p2p/node.go: who encodes, start and stop.
--   Controller     peer_service/internal/p2p/queue_controller.go: queue commands, the advance.
--   Moderation     peer_service/main.go: the commands that need a permission.
--   Admission      peer_service/main.go: `handleAuthStream`, the answer to a peer that asks to join.
--   Gossip         peer_service/main.go: the handlers of messages from other peers, and segments.
--   Topics         peer_service/internal/p2p/node.go: `JoinSessionTopics` and the cached default topics.
--   Membership     peer_service/main.go: create, leave and disconnect, and what an admitted peer does.
--   Control        peer_service/main.go: the dispatch of the control and the chat topic.
--   Discovery      peer_service/main.go: the search for the admin of a session, the connection to it
--                  and its answer; Addresses has the order in which addresses are tried.
--   Client         peer_service/main.go: `ControlStream`, the messages of the local client.
--   Hls            peer_service/internal/media/hls.go, ingest.go and status.go: playlist and
--                  segments over HTTP, and the status tick; Monitor has
--                  m3u8_monitor.go, which reads the playlist file of ffmpeg.
--   Hub            peer_service/internal/p2p/hub.go and its use by `ControlStream`.
--   Encoder        peer_service/internal/media/encoder.go: the arguments of ffmpeg.
--   Runner         peer_service/internal/media/encode_runner.go: the goroutines of one encoder runner.
--   StartUp        peer_service/main.go: the state after the start, and the loops that subscribe to topics.
--   Orchestrator   peer_service/tools/test_orchestrator/main.go: the commands to the agents.
--   Agent          peer_service/tools/test_agent/main.go: the commands that an agent runs.
--   Prelude        lists, maps, numbers and tests that the parts share.
--   Tests          sample states and runs at concrete inputs.
--
-- Every Go method is a function with its name in snake case. A method that changes its receiver
-- takes it as an argument and returns the new one after the results; an error is a value. A
-- handler of the service takes and returns the whole `Server`, and what it sends is appended to
-- the field `sent`. A Go map is an association list. Mutexes are left out: each method that holds
-- its lock is one step. What other goroutines do to the ring buffer between the three calls for a
-- received segment is an argument of its handler. Sums on stamps wrap at 2^64 and sequence numbers
-- at 2^32. Loops are structural recursion over the list or the count that the source runs through;
-- `play` of Queue/Playback runs on a count.
--
-- Parameters stand for code outside the repository: `PeerCodec` for the text form of peer IDs,
-- with the law that decoding an encoded ID gives it back; `duration_of` for ffprobe; arguments for
-- the wall clock, UUIDs, `time.Now`, and the length of marshalled messages.
--
-- The calls of other libraries are parameters too: `join` says which calls of the pubsub library's
-- `Join` succeed, `held` which topics have a subscription, which pubsub's `Close` leaves open,
-- `Network` what libp2p answers during one request to join, `FloatText` how float64 durations are
-- printed and parsed, with the law that parsing what was printed of a finite number without a sign
-- gives the rounded number. Printing a uint32 takes ten rounds, enough for ten digits. `discover`
-- and `connect_direct` run on the number of attempts left. The goroutines of `Runner` interleave
-- in any order: `Reached` of Runner/Live has one constructor for a call of `Start` and one for a
-- step of a goroutine.
--
-- `Attempts` of Orchestrator and `System` of Agent are what the network and the system answer to
-- the two tools, and `Expands` of Encoder/Put is how ffmpeg names a segment after its pattern.
--
-- Not modelled: the client in client/, the tools but for the two above, the set-up of hosts and
-- listeners in main.go, `RunScenario` of the orchestrator, the advertisement on the DHT and mDNS,
-- the file watcher of the monitor, timeouts and waits. In the field `sent` a broadcast counts as
-- sent; which client gets it is in Hub.
pub mod Prelude
pub mod Hlc
pub mod Names
pub mod Permissions
pub mod Peers
pub mod Roles
pub mod Sessions
pub mod Queue
pub mod Ring
pub mod Messages
pub mod Topics
pub mod Server
pub mod Streaming
pub mod Controller
pub mod Moderation
pub mod Admission
pub mod Gossip
pub mod Membership
pub mod Control
pub mod Discovery
pub mod Client
pub mod Hls
pub mod Hub
pub mod Encoder
pub mod Runner
pub mod StartUp
pub mod Orchestrator
pub mod Agent
pub mod Tests

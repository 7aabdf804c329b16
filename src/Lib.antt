-- ===== src/Lib.antt =====
-- SmartDashboard: a dashboard for robot telemetry, its transports and its camera views.
--
-- A robot program publishes variables; the dashboard shows them. Three of the ways between them are
-- modelled from end to end of the code that carries the contract:
--   * Native Link (plugins/NativeLinkTransport) has a server that is authoritative. Topics are
--     registered with a kind, a value type, a retention mode and a writer policy; a client connects,
--     gets a snapshot of descriptors and retained values, and from then on a queue of live events;
--     writes are accepted or rejected by the core, which also hands out the leases of topics with
--     one writer. The carriers (shared memory, TCP) and the plugin call this core.
--   * Direct (SmartDashboard_Interface_direct, ClientInterface_direct) is a ring buffer in shared
--     memory with one publisher, which writes frames, and one subscriber, which reads them and
--     stores how far it has come.
--   * Replay (SmartDashboard/src/transport) plays a recorded session: its events are loaded from
--     JSON and sorted, a seek publishes the last value of each key, found from checkpoints, and the
--     worker thread publishes the events that the cursor passes.
-- Each way an update ends in the dashboard's variable store (SmartDashboard/src/model), which
-- keeps the newest update of each key. Around the ring, the publisher stages the latest value of each
-- key between flushes and stages everything again for a new subscriber, and the retained store
-- keeps a bounded table of values for programs that start later. The camera views (SmartDashboard/src/
-- camera) learn of cameras from sources that an aggregator merges, and read their streams, whose
-- frames stand between boundary markers.
--
-- Files:
--   Base                  shared names and lemmas: Base/Tests (Boolean tests on ℕ), Base/Lists,
--                         Base/Eq (types with a Boolean equality), Base/Assoc (association lists),
--                         Base/Ordered (maps in the order of their keys),
--                         Base/Names (lists of distinct names).
--   NativeLink            plugins/NativeLinkTransport/include/native_link_core.h and
--                         src/native_link_core.cpp of that plugin: Types has the data, Topics the
--                         registration and the leases, Events `BuildEnvelope` and the queues,
--                         Publish `PublishInternal`, Sessions clients, snapshots, queries and
--                         `BeginNewSession`, Calls sequences of calls. `NativeLinkCore` is the
--                         record of the class's members; each method is the function of its name.
--   Direct                SmartDashboard_Interface_direct/include and src/sd_direct_ring.cpp there:
--                         Types has the headers and the constants, Bytes memory and numbers as
--                         bytes, Copy `CopyToRing` and `CopyFromRing`, Codec the layout of a frame,
--                         Ring `AttachRing`, `WriteUpsert` and `ReadNextUpsert`, Queue the queue
--                         that the ring implements. Publisher is the class DirectPublisherStub of
--                         ClientInterface_direct/src/sd_direct_publisher_stub.cpp, with its threads
--                         in Publisher/Threads, and Retained the
--                         table of sd_direct_retained_store.cpp beside it. Subscriber is the class
--                         DirectSubscriberStub of sd_direct_subscriber_stub.cpp beside the ring.
--   Replay                `ReplayDashboardTransport` of
--                         SmartDashboard/src/transport/dashboard_transport.cpp: Parse and Load the
--                         loading of a file, Checkpoints and Seek the seeks, Playback, Run and
--                         Finish the passes of the worker thread, Numbers the capture sessions.
--   Camera                SmartDashboard/src/camera: Mjpeg the parser of a stream, Mjpeg/Stream the
--                         class MjpegStreamSource, Discovery the aggregator and the static source,
--                         Discovery/Publisher the source that reads published variables.
--   MsgPack               `MsgPackReader` and `MsgPackWriter` of
--                         plugins/NT4Transport/src/nt4_client.cpp, in Frame the frames with
--                         which that client publishes values, in Skip and Depth `SkipElement`.
--   Announce              `JsonFindObjectEnd` of plugins/NT4Transport/src/nt4_client.cpp.
--   Model                 SmartDashboard/src/model/variable_store.cpp.
--   Tests                 concrete runs of the code and applications of the results.
--
-- State and effects. A method that changes an object returns the new object. A call that reads the
-- clock takes its readings as a function from the number of the reading, and the clock of Native
-- Link (`steady_clock`) does not go back. Strings are String in Native Link and lists of bytes in
-- the ring; a `double` is only copied, so it is its 64-bit pattern. Numbers are ℕ with the
-- wrap-around of their width written out (`% 2 ^ 32`, `% 2 ^ 64`). Memory is a function from
-- offsets to bytes; the bytes of a structure are in little-endian order with zero padding, as
-- compilers for x64 lay them out. Each call on the ring or on the core is one step: the members of
-- the core are used under the servers' lock, and the ring has one writer and one reader, whose
-- counters are stored after the bytes. The threads that use a publisher take turns at its locks.
--
-- Times of a replay are integers that may be negative; the cursor and the clock are natural numbers,
-- and sums of times stay within 64 bits. A `QVariant`, a `double` of the replay and an image are
-- parameters, as is what Qt makes of a JSON object, `std::sort`, and the decoding of an image.
--
-- An `unordered_map` is an association list, and the order in which a loop goes over it is an
-- argument. What the operating system answers (a mapping, an event) is an argument too.
--
-- Bounds. Every loop goes over a list or counts down, but for the subscriber's loop that drains the
-- ring, which runs on fuel: one more than the number of unread frames is enough, the loop over the
-- bytes of a stream, for which as much fuel as bytes is enough, and `SkipElement`, whose fuel is the
-- depth of the element: one more than the bytes is enough. The results on the
-- ring take a capacity of at most 2^31 bytes (the default is 2^20), below which sums of offsets do
-- not wrap in 32 bits; those on sequences of calls take fewer than 2^64 - 1 calls, since the core's
-- counters would wrap there.
--
-- Not modelled: windows, widgets and layout (Qt), the operating system's shared memory, events and
-- sockets, the threads that pump them, logging, the file of the retained store (its fields are), the
-- registry of transports and its plugins, the NetworkTables transports beyond their MessagePack
-- elements and frames, and the tools.
pub mod Announce
pub mod Base
pub mod Camera
pub mod Direct
pub mod Model
pub mod MsgPack
pub mod NativeLink
pub mod Replay
pub mod Tests

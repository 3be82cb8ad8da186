-- ===== src/Lib.antt =====
-- SketchSync: a shared drawing board. A server (server/) keeps sessions of members and passes messages
-- between their connections; each client (engine/) keeps a canvas, of which the session's host is the
-- authority. A member sends a drawing operation to the server, which passes it to the host; the host
-- gives it a sequence number, applies it and sends it back for all others. A client finds the server of
-- a session by UDP.
--
-- Prelude: numbers, Boolean tests and lists that the other files share.
-- Results: common/results.h. result<T> is the record Result, and is_ok its operator bool.
-- Bytes: common/bytes.h. A reader or writer is a function of a buffer and an offset (Action); `none`
--   stands for an access outside the buffer, which the source leaves undefined, so a theorem that a
--   function returns `some` says that it makes none. Emit, Read, Guard and Bounds are its rules.
-- DrawOperation: common/canvas/draw_operation.{h,cpp}: serializeDrawOperation, parseDrawOperation,
--   validateDrawOperation. Codec is about the wire format, Overflow about
--   operations with too many points, Validity about the validator.
-- Protocol: common/protocol/message.{h,cpp}. Session has CREATE, JOIN and their acknowledgements,
--   Replies acknowledgements, errors and notifications, CanvasState the state of a drawing; each has its
--   proofs in RoundTrip. Frame is about the header, Total and RoundTrips about
--   several messages together.
-- Udp: the datagrams of common/udp/udpDiscovery.{h,cpp}, the answer of responder::run_loop and the test
--   in discover_host.
-- Canvas: engine/canvas/canvas.{h,cpp}: create, clear_history, apply, load, snapshot. Log is about the
--   log of operations, Replay about the picture and copies of a canvas, History about a canvas that loads
--   another's snapshot. Stroke is process_canvas_input, which makes an operation of what the pointer does;
--   Distance is about its test of a distance, Committed about the operations that it returns, Ended about
--   the points at the end of a stroke. Fill is the bucket of canvas::rasterize; Pixels, Spreading and
--   Flooding are about it.
-- Assoc: std::unordered_map as an association list.
-- Server: server/server.{h,cpp} and server/session/. State has the records and the monad (a state that
--   is passed on, and `none` for an access outside a buffer), Sending and Handlers the functions of the
--   same names, Dispatch server::dispatch by its cases and the end of handle_tcp_client. Rules, Invariant
--   and Soundness are about what every handler leaves behind, Reachable about all states of a server;
--   Frames, Draw, Sharing, Sessions, Departures and Discovery say who receives what.
--   Transport has one round of the receive loops.
-- Client: engine/session/sessionClient.{h,cpp}. Frames says what each sender hands to the connection, and
--   Delivery is about what the receiving side makes of it.
-- Persistence: engine/persistence/persistenceWriter.{h,cpp} and the functions of engine/ui/ui.cpp that
--   read its file. Writing is about what is in the file, Replaying about what is found there again.
--   Ending is about functions that return on any file that can be written.
-- Files: engine/file/file_manager.{h,cpp}, on a disk that is a function of paths. Path has the extension
--   of a file, Queue is about enqueue_if_auto_save, Saving about save_to_file, Recording and AutoSave about
--   what is saved as it is drawn, Backlog about turning automatic saving on and off.
-- Engine: the state of the drawing program: session_manager.h, network_manager.h and the members of engine.h.
--   An operation is a function of the whole state. The record Environment has what the program finds
--   around it: the pixels of a tool, what the connection answers, the paths that can be opened, and when
--   a writer's thread runs. Calls has the calls of sessionClient, each noted in the state; Preserving and
--   Coherence have the rules about what operations keep.
--   Session, Receiving: engine/session/session_manager.cpp, what it sends, and poll_session with its handlers.
--     Acks, Draws, Received, Ending and Keeping are about the handlers.
--   Relay: a host and a member of its session, with the server's part between them; Refinement compares
--     the two with the canvas log's own account.
--   Connection: engine/network/network_manager.cpp. LocalServer is start_local_server, Requests has join_session,
--     create_session, the bodies of the connection threads and the ends of a connection, Toggling is about
--     toggle_protocol.
--   Input: engine/engine.cpp, the pointer and the buttons for files. Strokes, Released and Ids are about what
--     is drawn.
--   Steps: all of it as a step relation, with Reachable about the states that the program can come to.
--   Frame: the body of the loop of sketch_app::run, as the sequence of its parts.
-- Examples: concrete runs.
--
-- Numbers are natural; a w-bit value keeps its wrap-around (u8, u16, u32), and a theorem that needs a
-- field in its type's range says so. Loops are structural recursion, over the points, members or
-- operations, or over the rounds that a count leaves. Two loops run on fuel: the one of load_binary_replay,
-- as many rounds as the file has bytes and one more, which is enough, since a round takes at least four
-- bytes; and the bucket's, as many as the picture has pixels and one more, which is enough, since a
-- round takes a point off the queue and a point comes there only with a pixel that leaves its old
-- colour. A std::string is its bytes. The casts to int of coordinates and sides are left out: they matter
-- only for a side of 2 ^ 31 pixels or more, and the program's canvas has a fixed size.
--
-- Not modelled: the pixels that tools other than the bucket paint (the parameter `paint` of Canvas,
-- which is assumed to keep their number, as canvas::rasterize does), sockets, timers and the server's
-- process (their answers are arguments), the memory that vectors reserve, exceptions, logging, times and the texts that are shown.
-- Threads: a handler, a canvas operation, a round of poll_session or a connection thread is one step, and a
-- writer's thread runs when it is stopped. The file system fails only where a file is opened for writing.
-- The window and its widgets are not modelled.
pub mod Prelude
pub mod Results
pub mod Bytes
pub mod DrawOperation
pub mod Protocol
pub mod Udp
pub mod Canvas
pub mod Assoc
pub mod Server
pub mod Examples
pub mod Client
pub mod Persistence
pub mod Files
pub mod Engine

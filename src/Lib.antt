-- ===== src/Lib.antt =====
-- A verification library for jdocs, a collaborative document server in C++.
--
-- The server parses an HTTP handshake, then WebSocket frames, and hands their payload to a service.
-- The document service keeps documents that several users edit at once: each request carries an
-- operation made for some revision, which is transformed over the operations since then, composed
-- into the content, and sent to the other users.
--
-- Ot is services/document/ot.h and ot.cc under src: Ot/Operation has the components, the emitters
--   OpRetain, OpInsert, OpDelete and the OpIterator, Ot/Passes the loops transform and compose.
--   Ot/Units reads an operation a character at a time, and Ot/Units/Chunks and Ot/Units/Meaning have
--   the laws of that reading. Ot/Emit, Ot/Iterate, Ot/Fronts, Ot/Rounds and Ot/Both relate emitters,
--   iterators and rounds to it; Ot/Rebase and Ot/Sequence do so for the two loops, and Ot/Correct
--   draws the conclusions for documents.
-- Document is services/document/document.h and document.cc under src: Document/Defs has ApplyOp
--   (apply_op, with its while loop catch_up), PushToHistory, JoinUser and ExitUser, Document/Revisions
--   and Document/Convergence the theorems on revisions, Document/Users those on the user list.
-- Service is services/document/document_service.h and document_service.cc: Service/Defs has edit_handle,
--   close_handle and, as join_document, the part of open_handle behind the lookups, with what they send as
--   a result; Service/Heard and Service/Broadcast are about who hears what. Service/Store has the static
--   table of documents with GetDocument, OpenDocument and CloseDocument, the sessions with their shared
--   pointers, and handle with the whole open_handle, edit_handle and close_handle over them.
--   Service/Nodes counts a session's nodes in a user list, Service/Sound says how table and sessions fit
--   together, Service/Leave, Service/LookUp and Service/Opened follow open_handle, Service/Reach whole
--   messages one after the other. Service/Race is about two sessions that close at the same time,
--   Service/Stuck and Service/Blocked about a name of the table whose document is destroyed.
-- Http is protocol/http/http_parser.h and http_parser.cc under src: a handler for each state in
--   Http/RequestLine and Http/Headers, the loop ParserExecute and Reset in Http/Execute, the tables in
--   Http/Tables, Http/State, Http/ErrorCode and Http/Flag; Http/Safety is about one character, and
--   Http/Handshake about buffers.
-- Websocket is protocol/websocket under src: Websocket/Parser has ParserExecute and Reset of
--   websocket_parser.cc, a handler for each state, over the words of Websocket/Bytes; Websocket/Frame has
--   a client's frame by RFC 6455, and Websocket/Receive takes it through the parser. Websocket/Package is
--   encapsulation_package of websocket_handler.cc with the RFC's layout of a frame, and Websocket/Send
--   get_affordable_payload_size and send_data_frame, with
--   the number of free send buffers as an argument and the frames and the closing as a result;
--   Websocket/Handle is frame_handle and send_close_frame there, Websocket/Control the control frames, the
--   ping and pong timers and the call of the service, which is a parameter, and Websocket/Loop
--   RecvDataHandle; Websocket/Progress is about the end of its loop, Websocket/Stream about the frames of
--   a buffer.
-- Timer is core/timer.h and timer.cc: Timer/Defs has the constructor, AddTimer, Tick and Update, over
--   Timer/Clock for times. Timer/Good says where a timer may hang at which time, Timer/Pending counts
--   timers, Timer/Cascade, Timer/Turns and Timer/Stage follow the cascades of a tick, Timer/Tick and
--   Timer/Fires what a tick takes out and callbacks put in, and Timer/OnTime draws the conclusions.
-- Bitmap is utils/bitmap.h and bitmap.cc: Bitmap/Words has a 64-bit word by its bits, Bitmap/Defs the
--   operations on one index and Bitmap/Ranges those on a range; Bitmap/Bits, Bitmap/Count and
--   Bitmap/Between read the blocks as one set of indices, Bitmap/Find is about the search for a free one,
--   Bitmap/Valid and Bitmap/Fresh about the operations on one index and the constructor; Bitmap/Masks,
--   Bitmap/Taken, Bitmap/Stretch and Bitmap/Rewrite follow a range block by block, Bitmap/Ranged is about
--   the two operations.
-- Buffer is core/buffer.h and buffer.cc over Bitmap: Buffer/Defs has the pools with what the kernel and
--   the allocator answer as arguments, Buffer/Pool and Buffer/Send are about the indices of send buffers,
--   Buffer/Blocks about addresses, Buffer/Offers and Buffer/Receive about what is offered to the kernel, Buffer/Fresh about
--   the constructor and an index that goes out and comes back.
-- Core/Context is core/context.h.
-- Server is core/server.h and server.cc, core/worker.h and worker.cc, and a part of core/event_loop.cc:
--   Server/Defs has the server's counter, rings and user sessions, the connection tables of the workers and
--   the requests, Server/Handlers handle_accept, handle_fd_pass, handle_shutdown, handle_close,
--   handle_cancel, prep_cross_thread_msg and handle_cross_thread_msg. Server/Reach has the steps of the
--   master and its workers, Server/Accept and Server/Tables what the handlers keep, and Server/Routing and
--   Server/Messages the conclusions on ids and rings. Server/Tidy and Server/Kept are about the end of
--   connections, Server/Upgrade, Server/Sessions, Server/Switch and Server/Live about the sessions of users that
--   switch_service of net/tcp_connection.cc starts and close there ends.
-- Chat is services/chat/chat_service.h and chat_service.cc, over Server.
-- Base has the shared names and lemmas, Tests runs of the code and instances of the theorems.
--
-- Texts are lists of bytes. uint32_t and uint64_t arithmetic wraps by `%`, but the ticks of the time wheel,
-- a uint64_t, are counted without a wrap. JSON attributes and the
-- calls of nlohmann::json on them are the parameter JsonOps. An iterator holds the components from
-- its index on. std::move leaves a string empty, as its usual implementations do. The locks of a
-- document make each of its methods one step. Logging is left out.
--
-- A timer that is added hangs in no slot, so that the call of timer_cancel in AddTimer does nothing, and a callback is the list of the timers that it starts.
--
-- Fuel: a round of transform or compose ends a component, so the number of components is enough; the
-- loop of ApplyOp runs once for each later revision; a round of RecvDataHandle that leads to another one
-- uses a byte of its buffer; a character of the HTTP parser is looked at
-- twice at most, since no state that `goto reexecute` leads to leads on to another one for the same
-- character. `none` stands for used-up fuel or for a read outside the history.
--
-- A completion of the kernel and an allocation are arguments of the operations that ask for them. A send
-- to another connection is a result: the context and the connections that it goes to.
--
-- Not modelled: JSON conversion with the exceptions of dump, which DocumentService::handle answers after the
-- message's changes, the bytes of a close frame, timer_cancel and the pointers of the time
-- wheel's lists, destructors, the completions of receiving, sending and timeouts in the event loop, io_uring,
-- threads and sockets, the HTTP handler, the database.
pub mod Base
pub mod Ot
pub mod Document
pub mod Service
pub mod Http
pub mod Websocket
pub mod Core
pub mod Server
pub mod Chat
pub mod Bitmap
pub mod Buffer
pub mod Timer
pub mod Tests

-- ===== src/Server/Defs.antt =====
-- `JdocsServer` of src/core/server.h and server.cc, `Worker` of src/core/worker.h and worker.cc, and the
-- requests that an event loop prepares. `ring_fds` gives the file descriptor of each worker's ring.
use Prim.Native.String.{String}
use text.Mathlib.Text.{◌==◌ as str_eq}
use jdocs.Base.{
  ℕ, ◌+◌, ◌-◌, ◌%◌, Bool, true, false, List, [], ◌∷◌, ◌++◌, Option, none, some, ◌==◌, if◌then◌else◌,
  ◌>>=◌, u32_mod,
}
use jdocs.Core.Context.{OpCode, op_value, context_encode}

pub record JdocsServer : Type 0 where
  pub ring_fds : ℕ → ℕ
  pub nr_threads : ℕ
  pub conn_count : ℕ
  pub serv_fd : ℕ
  pub user_map : ℕ → Option ℕ

-- A connection id is a uint32_t.
unfoldable pub connection_id_to_ring_fd : JdocsServer → (conn_id : ℕ) → ℕ
connection_id_to_ring_fd s conn_id = s.ring_fds ((conn_id + (u32_mod - 1)) % u32_mod % s.nr_threads)

unfoldable pub get_next_connection_id : JdocsServer → ℕ
get_next_connection_id s = s.conn_count

unfoldable pub get_next_ring_instance : JdocsServer → ℕ × JdocsServer
get_next_ring_instance s = (
  s.ring_fds (s.conn_count % s.nr_threads),
  record s { conn_count = (s.conn_count + 1) % u32_mod },
)

unfoldable pub get_connection_id : JdocsServer → (user_id : ℕ) → ℕ
get_connection_id s user_id = elim (s.user_map user_id) [ none ↦ 0 | some conn_id ↦ conn_id ]

abbrev pub set_user : JdocsServer → ℕ → Option ℕ → JdocsServer
set_user s user_id p = record s { user_map = λ u. if user_id == u then p else s.user_map u }

-- `none` stands for the end of the process.
unfoldable pub add_user_session : JdocsServer → (user_id conn_id : ℕ) → Option JdocsServer
add_user_session s user_id conn_id = elim (s.user_map user_id) [
  | none ↦ some (set_user s user_id (some conn_id))
  | some other ↦ none
]

unfoldable pub del_user_session : JdocsServer → (user_id : ℕ) → JdocsServer
del_user_session s user_id = set_user s user_id none

-- What a submission queue entry asks for; `unprepared` is one that nothing was written to.
pub data Request : Type 0 where
  multishot_accept : (fd : ℕ) → Request
  recv_multishot : (fd : ℕ) → Request
  shutdown : (fd : ℕ) → Request
  close_direct : (fd : ℕ) → Request
  cancel_fd : (fd : ℕ) → Request
  msg_ring : (ring_fd len data_ : ℕ) → Request
  msg_ring_fd_alloc : (ring_fd fd data_ : ℕ) → Request
  unprepared : Request

pub record Sqe : Type 0 where
  pub request : Request
  pub user_data : ℕ
  pub io_link : Bool

-- The result of a completion, or the number of its error.
pub data Result : Type 0 where
  ok : ℕ → Result
  failed : (errno : ℕ) → Result

pub record Cqe : Type 0 where
  pub res : Result
  pub user_data : ℕ
  pub more : Bool

-- A request with the context that `user_data_encode` gives it.
abbrev pub sqe : Request → OpCode → (conn_id fd : ℕ) → Sqe
sqe request op conn_id fd = record {
  request = request;
  user_data = context_encode (op_value op) conn_id fd 0;
  io_link = false;
}

pub data ServiceId : Type 0 where
  service_none service_chat service_document : ServiceId

pub record TcpConnection : Type 0 where
  pub fd : ℕ
  pub conn_id : ℕ
  pub user_id : ℕ
  pub service_id : ServiceId
  pub closed : Bool

abbrev pub new_tcp_connection : (fd conn_id : ℕ) → TcpConnection
new_tcp_connection fd conn_id = record {
  fd = fd;
  conn_id = conn_id;
  user_id = 0;
  service_id = service_none;
  closed = false;
}

-- `router_`.
unfoldable pub router : (path : String) → Option ServiceId
router path =
    if str_eq path "/chat"
    then some service_chat
    else if str_eq path "/document"
    then some service_document
    else none

-- `user` is the number that stoi reads from the argument user_id, `none` without such an argument or
-- number. The last component is what is returned, and `none` stands for the end of the process.
unfoldable pub switch_service :
    JdocsServer
    → TcpConnection
    → (path : String) → (user : Option ℕ) → Option (JdocsServer × TcpConnection × Bool)
unfolding router add_user_session
switch_service s c path user = elim (router path) [
  | none ↦ some (s, c, false)
  | some service_id ↦ elim user [
    | none ↦ some (s, c, false)
    | some user_id ↦ do
      s' ← add_user_session s user_id c.conn_id
      some (s', record c { user_id = user_id; service_id = service_id }, true)
  ]
]

-- `queue` has the requests in the order in which they were prepared, `timers` the calls of AddTimer.
pub record Worker : Type 0 where
  pub conn_map : ℕ → Option TcpConnection
  pub queue : List Sqe
  pub timers : List (ℕ × ℕ)

unfoldable pub get_connection : Worker → ℕ → Option TcpConnection
get_connection w conn_id = w.conn_map conn_id

abbrev pub set_connection : Worker → ℕ → Option TcpConnection → Worker
set_connection w conn_id p = record w { conn_map = λ c. if conn_id == c then p else w.conn_map c }

-- An id that is taken keeps its connection.
unfoldable pub add_connection : Worker → ℕ → TcpConnection → Worker
add_connection w conn_id connection = elim (w.conn_map conn_id) [
  | none ↦ set_connection w conn_id (some connection)
  | some other ↦ w
]

unfoldable pub del_connection : Worker → ℕ → Worker
del_connection w conn_id = set_connection w conn_id none

abbrev pub prepare : Worker → Sqe → Worker
prepare w entry = record w { queue = w.queue ++ (entry ∷ []) }

unfoldable pub prep_recv : Worker → (fd conn_id : ℕ) → Worker
prep_recv w fd conn_id = prepare w (sqe (recv_multishot fd) OpCode.recv conn_id fd)

-- The success of the first request is not reported.
unfoldable pub prep_close : Worker → (fd conn_id : ℕ) → Worker
prep_close w fd conn_id =
    let first : Sqe = record (sqe (shutdown fd) OpCode.shutdown conn_id fd) { io_link = true } in
    prepare (prepare w first) (sqe (close_direct fd) OpCode.close conn_id fd)

unfoldable pub submit_cancel : Worker → (fd conn_id : ℕ) → Worker
submit_cancel w fd conn_id = prepare w (sqe (cancel_fd fd) OpCode.cancel conn_id fd)

-- `TcpConnection::close` for the connection under an id.
unfoldable pub close : JdocsServer → Worker → (conn_id : ℕ) → TcpConnection → JdocsServer × Worker
unfolding submit_cancel del_user_session
close s w conn_id c = if c.closed then (s, w) else (
  if c.user_id == 0 then s else del_user_session s c.user_id,
  set_connection (submit_cancel w c.fd c.conn_id) conn_id (some (record c { closed = true })),
)

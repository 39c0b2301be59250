-- ===== src/Server/Reach.antt =====
-- The master's loop, the workers' loops and the file descriptors that go from one to the other,
-- src/core/event_loop.cc. The steps are the handlers that read or write the connection tables and the
-- server's counter and sessions. A completion belongs to an entry of a queue, and the message with a
-- descriptor comes once.
use mathlib.Core.List.{Memᴰ}
use Prim.Native.String.{String}
use jdocs.Base.{
  ℕ, Bool, Option, ◌+◌, ◌^◌, ◌<◌, ◌≡◌, true, false, List, [], ◌∷◌, none, some, ◌==◌, if◌then◌else◌,
}
use jdocs.Core.Context.{OpCode, cqe_to_conn_id}
use jdocs.Server.Defs.{
  JdocsServer, connection_id_to_ring_fd, msg_ring_fd_alloc, multishot_accept, Sqe, sqe, Cqe,
  TcpConnection, Worker, close, switch_service, set_connection, cancel_fd, close_direct,
}
use jdocs.Server.Handlers.{
  handle_accept, handle_fd_pass, handle_shutdown, handle_close, handle_cancel,
  prep_cross_thread_msg,
}

pub record System : Type 0 where
  pub server : JdocsServer
  pub master : List Sqe
  pub workers : ℕ → Worker
  pub came : ℕ → Bool

abbrev pub set_worker : System → ℕ → Worker → System
set_worker y k w = record y { workers = λ j. if k == j then w else y.workers j }

-- The connection id of the descriptor's message has come.
abbrev pub set_came : System → ℕ → System
set_came y conn_id = record y { came = λ c. if conn_id == c then true else y.came c }

pub data Step (y : System) : System → Type 0 where
  accepted :
      (cqe : Cqe) (s : JdocsServer) (queue : List Sqe)
      → y.server.conn_count + 1 < 2 ^ 28
      → handle_accept false y.server y.master cqe ≡ some (s, queue)
      → Step y (record y { server = s; master = queue })
  passed :
      (k : ℕ) (entry : Sqe) (ring_fd fd : ℕ) (cqe : Cqe) (w : Worker)
      → Memᴰ entry y.master
      → entry.request ≡ msg_ring_fd_alloc ring_fd fd cqe.user_data
      → y.came (cqe_to_conn_id cqe.user_data) ≡ false
      → y.server.ring_fds k ≡ ring_fd
      → handle_fd_pass (y.workers k) cqe ≡ some w
      → Step y (set_came (set_worker y k w) (cqe_to_conn_id cqe.user_data))
  upgrading :
      (k conn_id : ℕ) (c d : TcpConnection) (path : String) (user : Option ℕ) (s : JdocsServer)
      → (y.workers k).conn_map conn_id ≡ some c
      → c.closed ≡ false
      → c.user_id ≡ 0
      → switch_service y.server c path user ≡ some (s, d, true)
      → Step y
          (record (set_worker y k (set_connection (y.workers k) conn_id (some d))) { server = s })
  closing :
      (k conn_id : ℕ) (c : TcpConnection)
      → (y.workers k).conn_map conn_id ≡ some c
      → Step y (record (set_worker y k (close y.server (y.workers k) conn_id c).1) {
        server = (close y.server (y.workers k) conn_id c).0;
      })
  cancelled :
      (k : ℕ) (entry : Sqe) (fd : ℕ) (cqe : Cqe)
      → Memᴰ entry (y.workers k).queue
      → entry.request ≡ cancel_fd fd
      → entry.user_data ≡ cqe.user_data
      → Step y (set_worker y k (handle_cancel (y.workers k) cqe))
  shut_down : (k : ℕ) (cqe : Cqe) → Step y (set_worker y k (handle_shutdown (y.workers k) cqe))
  finished :
      (k : ℕ) (entry : Sqe) (fd : ℕ) (cqe : Cqe) (w : Worker)
      → Memᴰ entry (y.workers k).queue
      → entry.request ≡ close_direct fd
      → entry.user_data ≡ cqe.user_data
      → handle_close true (y.workers k) cqe ≡ some w
      → Step y (set_worker y k w)
  sending :
      (k conn_id context : ℕ)
      → Step y (
          set_worker y k
            (prep_cross_thread_msg y.server (y.server.ring_fds k) (y.workers k) conn_id context).0)

pub data Reach (y : System) : System → Type 0 where
  here : Reach y y
  next : {z u : System} → Reach y z → Step z u → Reach y u

-- The id belongs to this ring.
unfoldable pub Belongs : JdocsServer → (conn_id ring_fd : ℕ) → Type 0
Belongs s conn_id ring_fd =
    (0 < conn_id) × (conn_id < 2 ^ 28) × (connection_id_to_ring_fd s conn_id ≡ ring_fd)

abbrev pub Passes : JdocsServer → List Sqe → Type 0
Passes s queue =
    (entry : Sqe) (ring_fd fd data_ : ℕ)
    → Memᴰ entry queue
    → entry.request ≡ msg_ring_fd_alloc ring_fd fd data_
    → Belongs s (cqe_to_conn_id data_) ring_fd

-- The connections of a worker belong to its ring.
abbrev pub Placed : JdocsServer → (ring_fd : ℕ) → Worker → Type 0
Placed s ring_fd w =
    (conn_id : ℕ) (c : TcpConnection) → w.conn_map conn_id ≡ some c → Belongs s conn_id ring_fd

pub record IsRouted (y : System) : Type 0 where
  pub count : y.server.conn_count < 2 ^ 28
  pub passing : Passes y.server y.master
  pub placed : (k : ℕ) → Placed y.server (y.server.ring_fds k) (y.workers k)

-- The server and its workers before the first connection, with the request that `Run` prepares.
abbrev pub new_system : (ring_fds : ℕ → ℕ) (nr_threads serv_fd : ℕ) → System
new_system ring_fds nr_threads serv_fd = record {
  server = record {
    ring_fds = ring_fds;
    nr_threads = nr_threads;
    conn_count = 0;
    serv_fd = serv_fd;
    user_map = λ u. none;
  };
  master = sqe (multishot_accept serv_fd) OpCode.accept 0 serv_fd ∷ [];
  workers = λ k. record { conn_map = λ c. none; queue = []; timers = [] };
  came = λ c. false;
}
